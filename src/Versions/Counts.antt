-- ===== src/Versions/Counts.antt =====
-- src/version_set.cpp: the sums that the reference counts stand for.
use rich_graph.Base.{
  ℕ, ◌+◌, ◌-◌, ◌<◌, List, [], ◌∷◌, ◌++◌, ◌==◌, ◌≡◌, refl, ap, ◌∙◌, arith, if◌then◌else◌,
}
use rich_graph.Versions.{
  TableFiles, change, ref_file, unref_file, ref_files, unref_files, files_of, delete_version,
  insert_newest, sort_newest,
}

unfoldable pub count : ℕ → List ℕ → ℕ
count k [] = 0
count k (x ∷ xs) = (if x == k then 1 else 0) + count k xs

-- How often a file stands in the versions, and how often a version stands in the list.
unfoldable pub held : ℕ → List (ℕ × List ℕ) → ℕ
held f [] = 0
held f ((v, fs) ∷ versions) = count f fs + held f versions

unfoldable pub listed : ℕ → List (ℕ × List ℕ) → ℕ
listed v [] = 0
listed v ((w, fs) ∷ versions) = (if w == v then 1 else 0) + listed v versions

pub count-append : (k : ℕ) (xs ys : List ℕ) → count k (xs ++ ys) ≡ count k xs + count k ys
unfolding count
count-append k [] ys = omega arith
count-append k (x ∷ xs) ys = omega (arith, count-append k xs ys)

count-insert_newest : (k f : ℕ) (fs : List ℕ) → count k (insert_newest f fs) ≡ count k (f ∷ fs)
unfolding count insert_newest
count-insert_newest k f [] = refl
count-insert_newest k f (g ∷ gs) = ground (arith, count-insert_newest k f gs)

pub count-sort_newest : (k : ℕ) (fs : List ℕ) → count k (sort_newest fs) ≡ count k fs
unfolding count sort_newest
count-sort_newest k [] = refl
count-sort_newest k (f ∷ fs) =
    count-insert_newest k f (sort_newest fs)
    ∙ ap (λ n. (if f == k then 1 else 0) + n) (count-sort_newest k fs)

pub refs-ref_files :
    (k : ℕ) (fs : List ℕ) (files : TableFiles)
    → (ref_files fs files).refs k ≡ files.refs k + count k fs
unfolding ref_files ref_file count change
refs-ref_files k [] files = omega arith
refs-ref_files k (f ∷ fs) files = ground (arith, refs-ref_files k fs (ref_file f files))

pub refs-unref_files :
    (k : ℕ) (fs : List ℕ) (files : TableFiles)
    → (unref_files fs files).refs k ≡ files.refs k - count k fs
unfolding unref_files unref_file count change
refs-unref_files k [] files = omega arith
refs-unref_files k (f ∷ fs) files = ground (arith, refs-unref_files k fs (unref_file f files))

pub removed-ref_files :
    (fs : List ℕ) (files : TableFiles) → (ref_files fs files).removed ≡ files.removed
unfolding ref_files ref_file
removed-ref_files [] files = refl
removed-ref_files (f ∷ fs) files = removed-ref_files fs (ref_file f files)

-- A file that is removed has no references.
pub record NoneRemoved (files : TableFiles) : Type 0 where
  pub kept : (f : ℕ) → 0 < files.refs f → count f files.removed ≡ 0

pub unref_file-NoneRemoved :
    (f : ℕ) (files : TableFiles) → NoneRemoved files → NoneRemoved (unref_file f files)
unfolding unref_file change count
unref_file-NoneRemoved f files h = record {
  kept = λ g lives. let before = h.kept g in ground (arith, before);
}

pub unref_files-NoneRemoved :
    (fs : List ℕ) (files : TableFiles) → NoneRemoved files → NoneRemoved (unref_files fs files)
unfolding unref_files
unref_files-NoneRemoved [] files h = h
unref_files-NoneRemoved (f ∷ fs) files h =
    unref_files-NoneRemoved fs _ (unref_file-NoneRemoved f files h)

pub listed-delete_version :
    (v w : ℕ) (versions : List (ℕ × List ℕ))
    → listed w (delete_version v versions) ≡ listed w versions - (if v == w then 1 else 0)
unfolding listed delete_version
listed-delete_version v w [] = ground arith
listed-delete_version v w ((x, fs) ∷ versions) = ground (arith, listed-delete_version v w versions)

pub held-delete_version :
    (v f : ℕ) (versions : List (ℕ × List ℕ))
    → held f versions ≡ held f (delete_version v versions) + count f (files_of v versions)
unfolding held delete_version files_of count
held-delete_version v f [] = refl
held-delete_version v f ((x, fs) ∷ versions) = ground (arith, held-delete_version v f versions)
