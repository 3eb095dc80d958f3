-- ===== src/Versions/Close.antt =====
-- src/version_set.cpp: the files of the version that LogAndApply makes, and the destructor.
use rich_graph.Base.{
  ℕ, ◌+◌, ◌≤◌, true, List, [], ◌∷◌, ◌++◌, ◌==◌, ltb, ◌≡◌, refl, subst, ap, arith, if◌then◌else◌,
  Bool-cases, inl, inr,
}
use rich_graph.Versions.{
  VersionSet, VersionEdit, files_of, current_files, kept_files, is_member, insert_newest,
  sort_newest, unref_current, append_version, ref_version, log_and_apply, close_versions,
}
use rich_graph.Versions.Counts.{count, count-append, count-sort_newest, held, listed}
use rich_graph.Versions.Apply.{
  count-kept_files, refs-unref_current, unref_current-Counted, current_alive, is_current,
}
use rich_graph.Versions.Steps.{State, Steps, Steps-Sound, opened, no_files, opened-Sound}

abbrev HeadAtMost : ℕ → List ℕ → Type 0
HeadAtMost f [] = Unit {0}
HeadAtMost f (g ∷ gs) = g ≤ f

abbrev pub NewestFirst : List ℕ → Type 0
NewestFirst [] = Unit {0}
NewestFirst (f ∷ fs) = HeadAtMost f fs × NewestFirst fs

insert_newest-HeadAtMost :
    (h f : ℕ) (fs : List ℕ) → f ≤ h → HeadAtMost h fs → HeadAtMost h (insert_newest f fs)
unfolding insert_newest
insert_newest-HeadAtMost h f [] le below = le
insert_newest-HeadAtMost h f (g ∷ gs) le below = elim (Bool-cases (ltb g f)) [
  | inl e ↦ rw e le
  | inr e ↦ rw e below
]

insert_newest-NewestFirst :
    (f : ℕ) (fs : List ℕ) → NewestFirst fs → NewestFirst (insert_newest f fs)
unfolding insert_newest
insert_newest-NewestFirst f [] sorted = (tt, tt)
insert_newest-NewestFirst f (g ∷ gs) (head, tail) = elim (Bool-cases (ltb g f)) [
  | inl e ↦ rw e (ground (arith, e), (head, tail))
  | inr e ↦ rw e (
    insert_newest-HeadAtMost g f gs (ground (arith, e)) head,
    insert_newest-NewestFirst f gs tail,
  )
]

sort_newest-NewestFirst : (fs : List ℕ) → NewestFirst (sort_newest fs)
unfolding sort_newest
sort_newest-NewestFirst [] = tt
sort_newest-NewestFirst (f ∷ fs) =
    insert_newest-NewestFirst f (sort_newest fs) (sort_newest-NewestFirst fs)

same_version : (v : ℕ) → (v == v) ≡ true
same_version v = ground arith

-- The version that LogAndApply makes current has the files of the current version and the new
-- files of the edit, each as often, without those that the edit deletes, and the newest is first.
pub log_and_apply_files :
    (edit : VersionEdit) (s : VersionSet)
    → let after = log_and_apply edit s in
      let now = current_files after.current after.versions in
      ((f : ℕ)
        → count f now ≡ (
            if is_member f edit.deleted_files
            then 0
            else count f (current_files s.current s.versions) + count f edit.new_files))
      × NewestFirst now
unfolding log_and_apply append_version ref_version files_of
log_and_apply_files edit s =
    let old = current_files s.current s.versions in
    let both = kept_files edit.deleted_files old ++ kept_files edit.deleted_files edit.new_files in
    rw (same_version s.next_version) (
      (λ f.
          let counts = count-sort_newest f both in
          let sum =
            count-append f (kept_files edit.deleted_files old)
              (kept_files edit.deleted_files edit.new_files) in
          let first = count-kept_files f edit.deleted_files old in
          let second = count-kept_files f edit.deleted_files edit.new_files in
          ground (arith, counts, sum, first, second)),
      sort_newest-NewestFirst both,
    )

none_listed : (versions : List (ℕ × List ℕ)) → ((v : ℕ) → listed v versions ≡ 0) → versions ≡ []
unfolding listed
none_listed [] h = refl
none_listed ((w, fs) ∷ versions) h = absurd (let one = h w in ground (arith, one))

-- When a version set that was made without files comes to have no readers, its destructor leaves
-- no version, and each table file has the references of its owners outside the versions and no
-- others.
pub close_versions_empty :
    (a : State)
    → Steps (opened no_files) a
    → a.readers ≡ []
    → let after = close_versions a.set in
      (after.versions ≡ []) × ((f : ℕ) → after.files.refs f ≡ count f a.owned)
unfolding close_versions count held
close_versions_empty a steps no_readers =
    let sound = Steps-Sound steps opened-Sound in
    let alone =
      subst (λ rs. (v : ℕ) → a.set.version_refs v ≡ is_current v a.set.current + count v rs)
        no_readers sound.held_by.counted in
    let after =
      unref_current-Counted _ a.set.current a.set sound.counted
        (current_alive a.readers a.set sound.held_by) in
    let empty : (unref_current a.set.current a.set).versions ≡ [] = none_listed _ (λ v.
      let linked = after.linked v in
      ground (arith, linked, alone v, refs-unref_current a.set.current a.set v)) in
    (
      empty,
      λ f.
          let counts = after.files f in
          let none_held : held f (unref_current a.set.current a.set).versions ≡ 0 =
            ap (held f) empty in
          omega (arith, counts, none_held),
    )
