-- ===== src/Tests/VersionSets.antt =====
-- src/version_set.cpp: the theorems at a reader that holds a version whose only file is compacted away.
use rich_graph.Base.{ℕ, ◌+◌, ◌<◌, [], ◌∷◌, ◌≡◌, refl, arith, if◌then◌else◌}
use rich_graph.Versions.{
  VersionSet, VersionEdit, open_versions, create_file, unref_file, unref_files, ref_version,
  unref_version, log_and_apply, append_version, change, ref_file, ref_files, kept_files, files_of,
  delete_version, sort_newest, insert_newest, is_member, current_files, close_versions,
}
use rich_graph.Versions.Counts.{count}
use rich_graph.Versions.Steps.{
  State, Steps, start, step, creates, applies, sets_version, leaves, disowns, opened, no_files,
}
use rich_graph.Versions.Snapshot.{held_files_exist, snapshot_stable}
use rich_graph.Versions.Close.{NewestFirst, log_and_apply_files, close_versions_empty}

abbrev flush : VersionEdit
flush = record { new_files = 5 ∷ []; deleted_files = [] }

abbrev compact : VersionEdit
compact = record { new_files = 6 ∷ []; deleted_files = 5 ∷ [] }

abbrev made : VersionSet
made = record (open_versions no_files) { files = create_file 5 (open_versions no_files).files }

abbrev flushed : VersionSet
flushed = log_and_apply flush made

abbrev read : VersionSet
read = ref_version 1 flushed

abbrev compacting : VersionSet
compacting = record read { files = create_file 6 read.files }

abbrev compacted : VersionSet
compacted = log_and_apply compact compacting

abbrev released : VersionSet
released = record compacted { files = unref_file 5 compacted.files }

abbrev reading : State
reading = record { owned = 5 ∷ []; readers = 1 ∷ []; set = read }

abbrev replaced : State
replaced = record { owned = 6 ∷ []; readers = 1 ∷ []; set = released }

until_reading : Steps (opened no_files) reading
unfolding log_and_apply append_version ref_version create_file change count
until_reading =
    step (step (step start (creates 5 refl refl)) (applies flush (λ f here. here)))
      (sets_version 1 refl)

until_replaced : Steps reading replaced
unfolding log_and_apply append_version ref_version unref_version create_file unref_file change count
    ref_files ref_file unref_files kept_files files_of delete_version is_member sort_newest
    insert_newest
until_replaced =
    step (step (step start (creates 6 refl refl)) (applies compact (λ f here. ground arith)))
      (disowns 5 (6 ∷ []) [])

until_end : Steps (opened no_files) replaced
unfolding log_and_apply append_version ref_version unref_version create_file unref_file change count
    ref_files ref_file unref_files kept_files files_of delete_version is_member sort_newest
    insert_newest
until_end =
    step
      (step (step until_reading (creates 6 refl refl)) (applies compact (λ f here. ground arith)))
      (disowns 5 (6 ∷ []) [])

held_files_exist_example : (0 < released.files.refs 5) × (count 5 released.files.removed ≡ 0)
unfolding log_and_apply append_version ref_version unref_version create_file unref_file change count
    ref_files ref_file unref_files kept_files files_of delete_version is_member sort_newest
    insert_newest
held_files_exist_example = held_files_exist replaced 1 5 until_end (omega arith) (omega arith)

snapshot_stable_example : files_of 1 released.versions ≡ files_of 1 read.versions
unfolding log_and_apply append_version ref_version unref_version create_file unref_file change count
    ref_files ref_file unref_files kept_files files_of delete_version is_member sort_newest
    insert_newest
snapshot_stable_example =
    snapshot_stable reading replaced 1 until_reading (omega arith) until_replaced (omega arith)

log_and_apply_files_example :
    let after = log_and_apply compact compacting in
    let now = current_files after.current after.versions in
    ((f : ℕ)
      → count f now ≡ (
          if is_member f (5 ∷ [])
          then 0
          else count f (current_files compacting.current compacting.versions) + count f (6 ∷ [])))
    × NewestFirst now
log_and_apply_files_example = log_and_apply_files compact compacting

abbrev ended : State
ended = record { owned = 6 ∷ []; readers = []; set = unref_version 1 released }

close_versions_empty_example :
    let after = close_versions (unref_version 1 released) in
    (after.versions ≡ []) × ((f : ℕ) → after.files.refs f ≡ count f (6 ∷ []))
close_versions_empty_example = close_versions_empty ended (step until_end (leaves 1 [] [])) refl
