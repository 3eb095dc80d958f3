-- ===== src/Versions.antt =====
-- core/version_set.h, src/version_set.cpp and src/superversion.cpp, and the reference counts of
-- src/SSTable.cpp. A table file is named by its time stamp, a version by a number that stands for its
-- address. MULTI_LEVEL_VERSION is not defined.
pub mod Counts
pub mod Unref
pub mod Apply
pub mod Steps
pub mod Snapshot
pub mod Close
use rich_graph.Base.{
  ℕ, zero, suc, ◌+◌, ◌-◌, Bool, true, false, Option, none, some, List, [], ◌∷◌, ◌++◌, ◌==◌, ltb,
  leb, ◌||◌, if◌then◌else◌,
}

-- The reference counts of the table files, 0 where there is none, and the files that Unref has
-- removed from the disk.
pub record TableFiles : Type 0 where
  pub refs : ℕ → ℕ
  pub removed : List ℕ

-- `versions` is the linked list, with the level-0 files of each version.
pub record VersionSet : Type 0 where
  pub files : TableFiles
  pub version_refs : ℕ → ℕ
  pub versions : List (ℕ × List ℕ)
  pub current : Option ℕ
  pub next_version : ℕ

pub record VersionEdit : Type 0 where
  pub new_files : List ℕ
  pub deleted_files : List ℕ

-- A count changed at one key.
unfoldable pub change : ℕ → (ℕ → ℕ) → (ℕ → ℕ) → ℕ → ℕ
change k step refs i = if i == k then step (refs i) else refs i

-- SSTableCache::Ref and Unref.
unfoldable pub ref_file : ℕ → TableFiles → TableFiles
ref_file f files = record files { refs = change f suc files.refs }

unfoldable pub unref_file : ℕ → TableFiles → TableFiles
unref_file f files = record {
  refs = change f (λ r. r - 1) files.refs;
  removed = if files.refs f == 1 then f ∷ files.removed else files.removed;
}

unfoldable pub ref_files : List ℕ → TableFiles → TableFiles
ref_files [] files = files
ref_files (f ∷ fs) files = ref_files fs (ref_file f files)

unfoldable pub unref_files : List ℕ → TableFiles → TableFiles
unref_files [] files = files
unref_files (f ∷ fs) files = unref_files fs (unref_file f files)

unfoldable pub files_of : ℕ → List (ℕ × List ℕ) → List ℕ
files_of v [] = []
files_of v ((w, fs) ∷ versions) = if w == v then fs else files_of v versions

unfoldable pub delete_version : ℕ → List (ℕ × List ℕ) → List (ℕ × List ℕ)
delete_version v [] = []
delete_version v ((w, fs) ∷ versions) =
    if w == v then versions else (w, fs) ∷ delete_version v versions

unfoldable pub ref_version : ℕ → VersionSet → VersionSet
ref_version v s = record s { version_refs = change v suc s.version_refs }

-- Version::Unref: the last reference gives the files back and takes the version out of the list.
unfoldable pub unref_version : ℕ → VersionSet → VersionSet
unref_version v s =
    let s' : VersionSet = record s { version_refs = change v (λ r. r - 1) s.version_refs } in
    if ltb 1 (s.version_refs v) then s' else record s' {
      files = unref_files (files_of v s.versions) s.files;
      versions = delete_version v s.versions;
    }

abbrev pub unref_current : Option ℕ → VersionSet → VersionSet
unref_current none s = s
unref_current (some v) s = unref_version v s

unfoldable pub append_version : ℕ → List ℕ → VersionSet → VersionSet
append_version v l0_files s =
    let s' = ref_version v (unref_current s.current s) in
    record s' { current = some v; versions = (v, l0_files) ∷ s'.versions }

unfoldable pub is_member : ℕ → List ℕ → Bool
is_member f [] = false
is_member f (g ∷ gs) = g == f || is_member f gs

-- The files that the edit does not delete.
unfoldable pub kept_files : List ℕ → List ℕ → List ℕ
kept_files deleted [] = []
kept_files deleted (f ∷ fs) =
    let rest = kept_files deleted fs in if is_member f deleted then rest else f ∷ rest

-- cacheTimeCompare: the newest file is the first.
unfoldable pub insert_newest : ℕ → List ℕ → List ℕ
insert_newest f [] = f ∷ []
insert_newest f (g ∷ gs) = if ltb g f then f ∷ g ∷ gs else g ∷ insert_newest f gs

unfoldable pub sort_newest : List ℕ → List ℕ
sort_newest [] = []
sort_newest (f ∷ fs) = insert_newest f (sort_newest fs)

abbrev pub current_files : Option ℕ → List (ℕ × List ℕ) → List ℕ
current_files none versions = []
current_files (some v) versions = files_of v versions

-- The caller has just made the version, which stands at the next address.
unfoldable pub log_and_apply : VersionEdit → VersionSet → VersionSet
log_and_apply edit s =
    let old_files = kept_files edit.deleted_files (current_files s.current s.versions) in
    let new_files = kept_files edit.deleted_files edit.new_files in
    append_version s.next_version (sort_newest (old_files ++ new_files)) (record s {
      files = ref_files new_files (ref_files old_files s.files);
      next_version = s.next_version + 1;
    })

-- The constructor.
abbrev pub open_versions : TableFiles → VersionSet
open_versions files = append_version 0 [] (record {
  files = files;
  version_refs = λ v. 0;
  versions = [];
  current = none;
  next_version = 1;
})

-- The destructor.
unfoldable pub close_versions : VersionSet → VersionSet
close_versions s = unref_current s.current s

-- A new SSTableCache has one reference.
unfoldable pub create_file : ℕ → TableFiles → TableFiles
create_file f files = record files { refs = change f (λ r. 1) files.refs }
