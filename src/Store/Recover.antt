-- ===== src/Store/Recover.antt =====
-- src/property_delta_store.cpp: OpenAndRecover and RemoveOrphanFiles. The contents of the manifest
-- and of the directory are arguments, and so are the answers of the operating system.
use rich_graph.Base.{
  ℕ, ◌+◌, ◌%◌, ◌^◌, max, Bool, true, Option, none, some, List, [], ◌∷◌, ◌++◌, length, is_empty, leb,
  ltb, ◌==◌, ◌&&◌, if◌then◌else◌,
}
use rich_graph.Delta.{PropertyDeltaTarget}
use rich_graph.Delta.Error
use rich_graph.Delta.Error.{DeltaError, open_failed}
use rich_graph.Delta.File.{PropertyDeltaFile, open_and_validate}
use rich_graph.Delta.Create.{DeltaDurability, no_error}
use rich_graph.Manifest.{PropertyDeltaManifestEntry}
use rich_graph.Manifest.Recover
use rich_graph.Manifest.Recover.{ManifestError}
use rich_graph.Manifest.Append.{
  Manifest, OpenIo, open_and_recover, AppendIo, append_add, append_remove,
}
use rich_graph.Store.{
  StoreError, no_threshold, metadata_mismatch, recover_failed, manifest_failed, Chain, chain_at,
  PropertyDeltaStore, get_or_create_chain, with_chain, file_path, schedule_merge,
}
use rich_graph.Store.View.{PropertyDeltaReadView}
use rich_graph.Store.Name.{metadata_matches, is_orphan}
use rich_graph.Store.Attach.{find_file, remove_file}

pub record RecoverIo : Type 0 where
  pub open_manifest : OpenIo
  -- The error of `open`, `fstat` or `mmap` on a file of the directory, if there is one.
  pub open_error : List ℕ → Option DeltaError
  -- Whether the sorted table of a base file is on the disk.
  pub has_table : ℕ → Bool
  pub promote : ℕ → AppendIo
  pub abandon : AppendIo

-- The store and the local variables of the loop over the entries.
pub record Recovered : Type 0 where
  pub store : PropertyDeltaStore
  pub maximum_generation : ℕ
  pub promoted_entries : List PropertyDeltaManifestEntry
  pub abandoned_entries : List (List ℕ)

pub data RecoverResult {ℓ} (A : Type ℓ) : Type ℓ where
  recovered : A → RecoverResult A
  failed : StoreError → RecoverResult A

-- std::sort by file generation, of a list with one more file at its end.
unfoldable pub insert_file : PropertyDeltaFile → List PropertyDeltaFile → List PropertyDeltaFile
insert_file f [] = f ∷ []
insert_file f (g ∷ gs) =
    if ltb f.metadata.file_generation g.metadata.file_generation
    then f ∷ g ∷ gs
    else g ∷ insert_file f gs

-- The file joins the chain of its target.
unfoldable pub recover_file :
    PropertyDeltaManifestEntry → PropertyDeltaFile → PropertyDeltaStore → PropertyDeltaStore
recover_file e file s =
    let target = e.metadata.target in
    let s' = get_or_create_chain target e.target_is_persistent s in
    let c = chain_at target s' in
    let view : PropertyDeltaReadView = record (c.read_view) {
      deltas = insert_file file c.read_view.deltas;
      generation = max c.read_view.generation e.metadata.file_generation;
    } in
    record (with_chain target (record c { read_view = view }) s') {
      maximum_commit_sequence = max s.maximum_commit_sequence e.metadata.max_commit_sequence;
      files_recovered = s.files_recovered + 1;
    }

abbrev pub open_content : List ℕ → Option (List ℕ) → Error.Result PropertyDeltaFile
open_content path none = Error.err open_failed
open_content path (some content) = open_and_validate path content

abbrev pub open_entry :
    RecoverIo → PropertyDeltaStore → PropertyDeltaManifestEntry → Error.Result PropertyDeltaFile
open_entry io s e =
    no_error (io.open_error e.file_name)
      (open_content (file_path s e.file_name) (find_file e.file_name s.directory))

abbrev pub recover_opened :
    PropertyDeltaManifestEntry
    → Error.Result PropertyDeltaFile
    → Recovered
    → RecoverResult Recovered
recover_opened e (Error.err error) r = failed (recover_failed e.file_name error)
recover_opened e (Error.ok file) r =
    if metadata_matches e.metadata file.metadata
    then recovered (record r { store = recover_file e file r.store })
    else failed metadata_mismatch

-- An entry that is not persistent is promoted if its table is on the disk, and abandoned otherwise.
unfoldable pub recover_entry :
    RecoverIo → PropertyDeltaManifestEntry → Recovered → RecoverResult Recovered
recover_entry io e r =
    let seen : Recovered = record r {
      maximum_generation = max r.maximum_generation e.metadata.file_generation;
    } in
    let promoted : PropertyDeltaManifestEntry = record e { target_is_persistent = true } in
    if e.target_is_persistent
    then recover_opened e (open_entry io r.store e) seen
    else if io.has_table e.metadata.target.base_file_id
    then recover_opened promoted (open_entry io r.store promoted)
        (record seen { promoted_entries = r.promoted_entries ++ (promoted ∷ []) })
    else recovered (record seen { abandoned_entries = r.abandoned_entries ++ (e.file_name ∷ []) })

abbrev pub and_then :
    RecoverResult Recovered → (Recovered → RecoverResult Recovered) → RecoverResult Recovered
and_then (recovered r) next = next r
and_then (failed e) next = failed e

unfoldable pub recover_entries :
    RecoverIo → List PropertyDeltaManifestEntry → Recovered → RecoverResult Recovered
recover_entries io [] r = recovered r
recover_entries io (e ∷ entries) r = and_then (recover_entry io e r) (recover_entries io entries)

abbrev pub next_promoted :
    Recover.Result (Unit {0}) × Manifest
    → (Manifest → RecoverResult Manifest)
    → RecoverResult Manifest
next_promoted (Recover.err e, m) next = failed (manifest_failed e)
next_promoted (Recover.ok t, m) next = next m

unfoldable pub promote_all :
    (ℕ → AppendIo) → ℕ → List PropertyDeltaManifestEntry → Manifest → RecoverResult Manifest
promote_all ios i [] m = recovered m
promote_all ios i (e ∷ entries) m =
    next_promoted (append_add e (ios i) m) (promote_all ios (i + 1) entries)

unfoldable pub remove_files : List (List ℕ) → List (List ℕ × List ℕ) → List (List ℕ × List ℕ)
remove_files [] files = files
remove_files (name ∷ names) files = remove_files names (remove_file name files)

unfoldable pub remove_orphan_files :
    List PropertyDeltaManifestEntry → List (List ℕ × List ℕ) → List (List ℕ × List ℕ)
remove_orphan_files active [] = []
remove_orphan_files active ((n, c) ∷ files) =
    let rest = remove_orphan_files active files in
    if is_orphan active n then rest else (n, c) ∷ rest

-- The last loop: a chain at the threshold gets its first merge.
unfoldable pub schedule_chains :
    List (PropertyDeltaTarget × Chain) → PropertyDeltaStore → PropertyDeltaStore
schedule_chains [] s = s
schedule_chains ((t, c) ∷ chains) s =
    let due =
      s.has_merge_callback
      && (c.target_is_persistent && leb s.merge_threshold (length c.read_view.deltas)) in
    let s' : PropertyDeltaStore =
      schedule_merge t (with_chain t (record c { merge_scheduled_or_running = true }) s) in
    schedule_chains chains (if due then s' else s)

-- Behind the loop over the entries, with the manifest that the promotions leave.
abbrev pub start_store : Recovered → Manifest → PropertyDeltaStore
start_store r m =
    let s : PropertyDeltaStore = record (r.store) {
      manifest = m;
      next_file_generation = (r.maximum_generation + 1) % 2 ^ 64;
      directory =
          remove_orphan_files m.active_entries (remove_files r.abandoned_entries r.store.directory);
    } in
    schedule_chains s.registry s

abbrev pub abandoned :
    Recovered → Recover.Result (Unit {0}) × Manifest → RecoverResult PropertyDeltaStore
abandoned r (Recover.err e, m) = failed (manifest_failed e)
abandoned r (Recover.ok t, m) = recovered (start_store r m)

abbrev pub after_promotion :
    RecoverIo → Recovered → RecoverResult Manifest → RecoverResult PropertyDeltaStore
after_promotion io r (failed e) = failed e
after_promotion io r (recovered m) =
    if is_empty r.abandoned_entries
    then recovered (start_store r m)
    else abandoned r (append_remove r.abandoned_entries io.abandon m)

abbrev pub after_entries : RecoverIo → RecoverResult Recovered → RecoverResult PropertyDeltaStore
after_entries io (failed e) = failed e
after_entries io (recovered r) =
    after_promotion io r (promote_all io.promote 0 r.promoted_entries r.store.manifest)

abbrev pub empty_store :
    List ℕ → ℕ → DeltaDurability → Bool → List (List ℕ × List ℕ) → Manifest → PropertyDeltaStore
empty_store path threshold durability has_callback files m = record {
  directory_path = path;
  merge_threshold = threshold;
  has_merge_callback = has_callback;
  durability = durability;
  manifest = m;
  registry = [];
  next_file_generation = 1;
  maximum_commit_sequence = 0;
  persistent_base_files = [];
  jobs = [];
  running_jobs = 0;
  background_error = none;
  files_created = 0;
  files_recovered = 0;
  records_written = 0;
  bytes_written = 0;
  merges_started = 0;
  merges_completed = 0;
  merge_failures = 0;
  directory = files;
}

abbrev pub begin_recovery : PropertyDeltaStore → Recovered
begin_recovery s = record {
  store = s;
  maximum_generation = 0;
  promoted_entries = [];
  abandoned_entries = [];
}

abbrev pub after_manifest :
    RecoverIo
    → (Manifest → PropertyDeltaStore)
    → Recover.Result Manifest
    → RecoverResult PropertyDeltaStore
after_manifest io empty (Recover.err e) = failed (manifest_failed e)
after_manifest io empty (Recover.ok m) =
    after_entries io (recover_entries io m.active_entries (begin_recovery (empty m)))

unfoldable pub recover_store :
    RecoverIo
    → List ℕ
    → ℕ
    → DeltaDurability
    → Bool
    → List (List ℕ × List ℕ)
    → List ℕ
    → RecoverResult PropertyDeltaStore
recover_store io path threshold durability has_callback files log =
    if threshold == 0
    then failed no_threshold
    else after_manifest io (empty_store path threshold durability has_callback files)
        (open_and_recover durability io.open_manifest log)
