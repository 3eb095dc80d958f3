-- ===== src/Store/Attach.antt =====
-- src/property_delta_store.cpp: Attach and MarkTargetPersistent. The answers of the operating
-- system to Create and to the appends to the manifest are arguments.
use rich_graph.Base.{
  ℕ, ◌+◌, ◌%◌, ◌^◌, max, Bool, true, Option, none, some, List, [], ◌∷◌, ◌++◌, length, is_empty,
  ◌&&◌, ◌||◌, if◌then◌else◌, eq_bytes,
}
use rich_graph.Delta.{PropertyDeltaTarget, PropertyDeltaRecord}
use rich_graph.Delta.Error.{DeltaError}
use rich_graph.Delta.File.{PropertyDeltaFile}
use rich_graph.Delta.Create.{CreateIo, Directory, create}
use rich_graph.Manifest.{PropertyDeltaManifestEntry}
use rich_graph.Manifest.Recover.{ManifestError}
use rich_graph.Manifest.Append.{Manifest, AppendIo, append_add}
use rich_graph.Store.{
  empty_batch, delta_failed, manifest_failed, Result, ok, err, Chain, PropertyDeltaStore,
  find_chain, chain_at, get_or_create_chain, file_path, schedule_if, with_chain, is_due,
  record_background_error,
}
use rich_graph.Store.View.{PropertyDeltaReadView}
use rich_graph.Store.Name.{delta_file_name, base_name}
use rich_graph.Delta.Error
use rich_graph.Manifest.Recover

unfoldable pub put_file : List ℕ → List ℕ → List (List ℕ × List ℕ) → List (List ℕ × List ℕ)
put_file name content [] = (name, content) ∷ []
put_file name content ((n, c) ∷ files) =
    if eq_bytes n name then (n, content) ∷ files else (n, c) ∷ put_file name content files

unfoldable pub remove_file : List ℕ → List (List ℕ × List ℕ) → List (List ℕ × List ℕ)
remove_file name [] = []
remove_file name ((n, c) ∷ files) =
    let rest = remove_file name files in if eq_bytes n name then rest else (n, c) ∷ rest

unfoldable pub find_file : List ℕ → List (List ℕ × List ℕ) → Option (List ℕ)
find_file name [] = none
find_file name ((n, c) ∷ files) = if eq_bytes n name then some c else find_file name files

-- What Create leaves at the path, put back into the directory.
abbrev pub keep_file : List ℕ → Option (List ℕ) → List (List ℕ × List ℕ) → List (List ℕ × List ℕ)
keep_file name none files = files
keep_file name (some content) files = put_file name content files

abbrev pub entry_of : List ℕ → PropertyDeltaFile → Bool → PropertyDeltaManifestEntry
entry_of name file persistent = record {
  file_name = name;
  metadata = file.metadata;
  target_is_persistent = persistent;
}

-- The view with the file at its end.
abbrev pub view_with : PropertyDeltaFile → ℕ → PropertyDeltaReadView → PropertyDeltaReadView
view_with file generation view = record view {
  deltas = view.deltas ++ (file ∷ []);
  generation = max view.generation generation;
}

-- The critical section after the append to the manifest, and the counters.
unfoldable pub publish_file :
    PropertyDeltaTarget → PropertyDeltaFile → ℕ → PropertyDeltaStore → PropertyDeltaStore
publish_file target file generation s =
    let c = chain_at target s in
    let due = c.target_is_persistent && is_due s c (length c.read_view.deltas + 1) in
    let s' : PropertyDeltaStore =
      with_chain target
        (record c {
          read_view = view_with file generation c.read_view;
          merge_scheduled_or_running = due || c.merge_scheduled_or_running;
        })
        s in
    schedule_if due target (record s' {
      files_created = s.files_created + 1;
      records_written = s.records_written + file.metadata.record_count;
      bytes_written = s.bytes_written + file.metadata.file_bytes;
      maximum_commit_sequence = max s.maximum_commit_sequence file.metadata.max_commit_sequence;
    })

-- With the result of AppendAdd. A file that is marked obsolete is unlinked with its last reference.
abbrev pub attach_appended :
    PropertyDeltaTarget
    → List ℕ
    → PropertyDeltaFile
    → ℕ
    → PropertyDeltaStore
    → Recover.Result (Unit {0}) × Manifest
    → Result × PropertyDeltaStore
attach_appended target name file generation s (Recover.err e, m) =
    (err (manifest_failed e), record s { manifest = m; directory = remove_file name s.directory })
attach_appended target name file generation s (Recover.ok t, m) =
    (ok, publish_file target file generation (record s { manifest = m }))

-- With the result of Create.
abbrev pub attach_created :
    PropertyDeltaTarget
    → List ℕ
    → ℕ
    → AppendIo
    → PropertyDeltaStore
    → Error.Result PropertyDeltaFile × Directory
    → Result × PropertyDeltaStore
attach_created target name generation append_io s (Error.err e, dir) =
    (err (delta_failed e), record s { directory = keep_file name dir.at_path s.directory })
attach_created target name generation append_io s (Error.ok file, dir) =
    let s' : PropertyDeltaStore = record s { directory = keep_file name dir.at_path s.directory } in
    attach_appended target name file generation s' (
      append_add (entry_of name file (chain_at target s).target_is_persistent) append_io s.manifest)

abbrev pub blank_directory : Directory
blank_directory = record { at_path = none; at_temporary = none }

-- A generation is used once, so nothing stands at the path of the new file.
unfoldable pub attach :
    PropertyDeltaTarget
    → List PropertyDeltaRecord
    → Bool
    → CreateIo
    → AppendIo
    → PropertyDeltaStore
    → Result × PropertyDeltaStore
attach target records persistent create_io append_io s =
    let s' = get_or_create_chain target persistent s in
    let name = delta_file_name target s.next_file_generation in
    if is_empty records
    then (err empty_batch, s)
    else attach_created target name s.next_file_generation append_io
        (record s' { next_file_generation = (s.next_file_generation + 1) % 2 ^ 64 })
        (create (file_path s name) target s.next_file_generation records s.durability create_io
          blank_directory)

-- The loop of MarkTargetPersistent; `ios` are the answers to its appends.
abbrev pub next_marked :
    Recover.Result (Unit {0}) × Manifest
    → (Manifest → Option ManifestError × Manifest)
    → Option ManifestError × Manifest
next_marked (Recover.err e, m) next = (some e, m)
next_marked (Recover.ok t, m) next = next m

unfoldable pub mark_files :
    (ℕ → AppendIo) → ℕ → List PropertyDeltaFile → Manifest → Option ManifestError × Manifest
mark_files ios i [] m = (none, m)
mark_files ios i (file ∷ files) m =
    next_marked (append_add (entry_of (base_name file.path) file true) (ios i) m)
      (mark_files ios (i + 1) files)

abbrev pub mark_chain :
    PropertyDeltaTarget
    → Chain
    → PropertyDeltaStore
    → Option ManifestError × Manifest
    → Result × PropertyDeltaStore
mark_chain target c s (some e, m) = (
  err (manifest_failed e),
  record_background_error (manifest_failed e) (record s { manifest = m }),
)
mark_chain target c s (none, m) =
    let due = is_due s c (length c.read_view.deltas) in
    (
      ok,
      schedule_if due target (
          with_chain target
            (record c {
              target_is_persistent = true;
              merge_scheduled_or_running = due || c.merge_scheduled_or_running;
            })
            (record s { manifest = m })),
    )

abbrev pub mark_found :
    PropertyDeltaTarget
    → (ℕ → AppendIo)
    → PropertyDeltaStore
    → Option Chain
    → Result × PropertyDeltaStore
mark_found target ios s none = (ok, s)
mark_found target ios s (some c) = mark_chain target c s (
    if c.target_is_persistent
    then (none, s.manifest)
    else mark_files ios 0 c.read_view.deltas s.manifest)

unfoldable pub mark_target_persistent :
    PropertyDeltaTarget → (ℕ → AppendIo) → PropertyDeltaStore → Result × PropertyDeltaStore
mark_target_persistent target ios s =
    mark_found target ios
      (record s { persistent_base_files = target.base_file_id ∷ s.persistent_base_files })
      (find_chain target s.registry)
