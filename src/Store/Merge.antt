-- ===== src/Store/Merge.antt =====
-- src/property_delta_store.cpp: MergeChain in its two critical sections, with the merge callback
-- between them, and the worker, MergeAllForBaseFiles and MergeAllPersistent. The result of the
-- callback is an argument: a replacement column, or nothing.
use rich_graph.Base.{
  ℕ, ◌+◌, ◌-◌, ◌%◌, ◌^◌, Bool, true, false, Option, none, some, List, [], ◌∷◌, length, take, drop,
  is_empty, ltb, leb, ◌==◌, ◌&&◌, ◌||◌, not, if◌then◌else◌, eq_bytes,
}
use rich_graph.Delta.{PropertyDeltaTarget}
use rich_graph.Delta.File.{PropertyDeltaFile}
use rich_graph.Manifest.Append.{Manifest, AppendIo, append_remove}
use rich_graph.Manifest.Recover
use rich_graph.Store.{
  StoreError, no_merge_callback, merge_failed, manifest_failed, chain_changed, chain_prefix_changed,
  chain_busy, Result, ok, err, Chain, PropertyDeltaStore, chain_at, schedule_if, with_chain,
  record_background_error, contains_id,
}
use rich_graph.Store.View.{PropertyDeltaReadView, MappedPropertyFile}
use rich_graph.Store.Name.{base_name}
use rich_graph.Store.Attach.{remove_file}

-- The first critical section: there is nothing to do, or a batch is captured.
pub data Begun : Type 0 where
  refused : StoreError → PropertyDeltaStore → Begun
  skipped : PropertyDeltaStore → Begun
  captured : PropertyDeltaReadView → List PropertyDeltaFile → ℕ → PropertyDeltaStore → Begun

unfoldable pub begin_merge : PropertyDeltaTarget → Bool → PropertyDeltaStore → Begun
begin_merge target merge_all s =
    let c = chain_at target s in
    let deltas = c.read_view.deltas in
    if not s.has_merge_callback
    then refused no_merge_callback s
    else if not c.target_is_persistent
        || (is_empty deltas || (not merge_all && ltb (length deltas) s.merge_threshold))
    then skipped (with_chain target (record c { merge_scheduled_or_running = false }) s)
    else captured c.read_view (take (if merge_all then length deltas else s.merge_threshold) deltas)
        s.next_file_generation
        (record s { next_file_generation = (s.next_file_generation + 1) % 2 ^ 64 })

unfoldable pub file_names : List PropertyDeltaFile → List (List ℕ)
file_names [] = []
file_names (f ∷ files) = base_name f.path ∷ file_names files

-- Files are compared as pointers; a path is given to one file only.
unfoldable pub has_prefix : List PropertyDeltaFile → List PropertyDeltaFile → Bool
has_prefix deltas [] = true
has_prefix [] (b ∷ batch) = false
has_prefix (d ∷ deltas) (b ∷ batch) = eq_bytes d.path b.path && has_prefix deltas batch

-- MarkObsolete of the batch: the files are unlinked with their last references.
unfoldable pub remove_batch :
    List PropertyDeltaFile → List (List ℕ × List ℕ) → List (List ℕ × List ℕ)
remove_batch [] files = files
remove_batch (b ∷ batch) files = remove_batch batch (remove_file (base_name b.path) files)

-- The second critical section.
unfoldable pub publish_merge :
    PropertyDeltaTarget
    → Bool
    → List PropertyDeltaFile
    → ℕ
    → MappedPropertyFile
    → PropertyDeltaStore
    → Result × PropertyDeltaStore
publish_merge target merge_all batch generation merged_base s =
    let c = chain_at target s in
    let deltas = c.read_view.deltas in
    let again =
      not merge_all
      && (c.target_is_persistent && leb s.merge_threshold (length deltas - length batch)) in
    let next : PropertyDeltaReadView = record {
      merged_base = some merged_base;
      deltas = drop (length batch) deltas;
      generation = generation;
    } in
    let s' : PropertyDeltaStore =
      with_chain target (record c { read_view = next; merge_scheduled_or_running = again }) s in
    if ltb (length deltas) (length batch)
    then (err chain_changed, s)
    else if not (has_prefix deltas batch)
    then (err chain_prefix_changed, s)
    else (
      ok,
      schedule_if again target (record s' {
        merges_completed = s.merges_completed + 1;
        directory = remove_batch batch s.directory;
      }),
    )

abbrev pub merge_removed :
    PropertyDeltaTarget
    → Bool
    → List PropertyDeltaFile
    → ℕ
    → MappedPropertyFile
    → PropertyDeltaStore
    → Recover.Result (Unit {0}) × Manifest
    → Result × PropertyDeltaStore
merge_removed target merge_all batch generation merged_base s (Recover.err e, m) =
    (err (manifest_failed e), record s { manifest = m })
merge_removed target merge_all batch generation merged_base s (Recover.ok t, m) =
    publish_merge target merge_all batch generation merged_base (record s { manifest = m })

-- From the return of the callback on.
unfoldable pub finish_merge :
    PropertyDeltaTarget
    → Bool
    → List PropertyDeltaFile
    → ℕ
    → Option MappedPropertyFile
    → AppendIo
    → PropertyDeltaStore
    → Result × PropertyDeltaStore
finish_merge target merge_all batch generation none io s = (err merge_failed, s)
finish_merge target merge_all batch generation (some merged_base) io s =
    merge_removed target merge_all batch generation merged_base s
      (append_remove (file_names batch) io s.manifest)

-- A whole MergeChain with nothing between its parts.
abbrev pub merge_begun :
    PropertyDeltaTarget
    → Bool
    → (PropertyDeltaReadView → List PropertyDeltaFile → ℕ → Option MappedPropertyFile)
    → AppendIo
    → Begun
    → Result × PropertyDeltaStore
merge_begun target merge_all callback io (refused e s) = (err e, s)
merge_begun target merge_all callback io (skipped s) = (ok, s)
merge_begun target merge_all callback io (captured view batch generation s) =
    finish_merge target merge_all batch generation (callback view batch generation) io s

unfoldable pub merge_chain :
    PropertyDeltaTarget
    → Bool
    → (PropertyDeltaReadView → List PropertyDeltaFile → ℕ → Option MappedPropertyFile)
    → AppendIo
    → PropertyDeltaStore
    → Result × PropertyDeltaStore
merge_chain target merge_all callback io s =
    merge_begun target merge_all callback io (begin_merge target merge_all s)

-- A chain that has no merge any more.
abbrev pub clear_flag : PropertyDeltaTarget → PropertyDeltaStore → PropertyDeltaStore
clear_flag target s =
    with_chain target (record (chain_at target s) { merge_scheduled_or_running = false }) s

-- WorkerMain: the job that it takes, and what it does when MergeChain has returned.
abbrev pub take_first :
    List PropertyDeltaTarget
    → PropertyDeltaStore
    → Option (PropertyDeltaTarget × PropertyDeltaStore)
take_first [] s = none
take_first (target ∷ jobs) s =
    some (target, record s { jobs = jobs; running_jobs = s.running_jobs + 1 })

unfoldable pub take_job : PropertyDeltaStore → Option (PropertyDeltaTarget × PropertyDeltaStore)
take_job s = take_first s.jobs s

unfoldable pub finish_job : PropertyDeltaTarget → Result × PropertyDeltaStore → PropertyDeltaStore
finish_job target (ok, s) = record s { running_jobs = s.running_jobs - 1 }
finish_job target (err e, s) =
    let failed : PropertyDeltaStore =
      clear_flag target
        (record_background_error e (record s { merge_failures = s.merge_failures + 1 })) in
    record failed { running_jobs = s.running_jobs - 1 }

-- What WaitForIdle waits for, and what it returns then.
abbrev pub is_idle : PropertyDeltaStore → Bool
is_idle s = is_empty s.jobs && s.running_jobs == 0

-- One round of the loops of MergeAllForBaseFiles and MergeAllPersistent, on a chain to be merged.
abbrev pub after_merge :
    PropertyDeltaTarget
    → (PropertyDeltaStore → Result × PropertyDeltaStore)
    → Result × PropertyDeltaStore
    → Result × PropertyDeltaStore
after_merge target next (ok, s) = next s
after_merge target next (err e, s) = (err e, clear_flag target s)

unfoldable pub merge_each :
    (PropertyDeltaTarget
      → PropertyDeltaReadView
      → List PropertyDeltaFile
      → ℕ
      → Option MappedPropertyFile)
    → (PropertyDeltaTarget → AppendIo)
    → (PropertyDeltaStore → PropertyDeltaTarget → Bool)
    → List PropertyDeltaTarget
    → PropertyDeltaStore
    → Result × PropertyDeltaStore
merge_each callback io needs_merge [] s = (ok, s)
merge_each callback io needs_merge (target ∷ targets) s =
    let c = chain_at target s in
    let busy = with_chain target (record c { merge_scheduled_or_running = true }) s in
    let next = merge_each callback io needs_merge targets in
    if not (needs_merge s target)
    then next s
    else if c.merge_scheduled_or_running
    then (err chain_busy, s)
    else after_merge target next (merge_chain target true (callback target) (io target) busy)

unfoldable pub targets_of : List (PropertyDeltaTarget × Chain) → List PropertyDeltaTarget
targets_of [] = []
targets_of ((t, c) ∷ chains) = t ∷ targets_of chains

unfoldable pub selected_targets : List ℕ → List PropertyDeltaTarget → List PropertyDeltaTarget
selected_targets ids [] = []
selected_targets ids (t ∷ targets) =
    let rest = selected_targets ids targets in
    if contains_id t.base_file_id ids then t ∷ rest else rest

abbrev pub when_idle :
    Option StoreError
    → (PropertyDeltaStore → Result × PropertyDeltaStore)
    → PropertyDeltaStore
    → Result × PropertyDeltaStore
when_idle none next s = next s
when_idle (some e) next s = (err e, s)

-- Both are called where the store is idle; the first error of the worker is returned.
unfoldable pub merge_all_for_base_files :
    (PropertyDeltaTarget
      → PropertyDeltaReadView
      → List PropertyDeltaFile
      → ℕ
      → Option MappedPropertyFile)
    → (PropertyDeltaTarget → AppendIo)
    → List ℕ
    → PropertyDeltaStore
    → Result × PropertyDeltaStore
merge_all_for_base_files callback io ids s =
    when_idle s.background_error
      (merge_each callback io (λ s target. true) (selected_targets ids (targets_of s.registry))) s

unfoldable pub has_persistent_deltas : PropertyDeltaStore → PropertyDeltaTarget → Bool
has_persistent_deltas s target =
    (chain_at target s).target_is_persistent && not (is_empty (chain_at target s).read_view.deltas)

unfoldable pub merge_all_persistent :
    (PropertyDeltaTarget
      → PropertyDeltaReadView
      → List PropertyDeltaFile
      → ℕ
      → Option MappedPropertyFile)
    → (PropertyDeltaTarget → AppendIo)
    → PropertyDeltaStore
    → Result × PropertyDeltaStore
merge_all_persistent callback io s =
    when_idle s.background_error
      (merge_each callback io has_persistent_deltas (targets_of s.registry)) s
