-- ===== src/Store.antt =====
-- core/property_delta_store.h and src/property_delta_store.cpp: the state of the property delta
-- store. The 64 buckets of the registry are one association list. A chain is reached by its target,
-- since it is never taken out of the registry; its view is never null once it is there. The files
-- of the directory are a list of names with contents.
pub mod View
pub mod Name
pub mod Attach
pub mod Merge
pub mod Recover
pub mod Registry
pub mod Visible
pub mod Apart
pub mod Overlay
pub mod Published
pub mod Jobs
pub mod Flight
pub mod Merging
pub mod Restart
pub mod Waiting
pub mod Steps
use rich_graph.Base.{
  ℕ, ◌+◌, ◌%◌, ◌^◌, max, Bool, true, false, Option, none, some, List, [], ◌∷◌, ◌++◌, length,
  is_empty, ◌==◌, leb, ◌&&◌, ◌||◌, not, if◌then◌else◌, eq_bytes,
}
use rich_graph.Delta.{PropertyDeltaTarget, target_eq}
use rich_graph.Delta.Error.{DeltaError}
use rich_graph.Delta.Create.{DeltaDurability}
use rich_graph.Manifest.Recover.{ManifestError}
use rich_graph.Manifest.Append.{Manifest}
use rich_graph.Store.View.{PropertyDeltaReadView}

-- The messages of SetError.
pub data StoreError : Type 0 where
  no_threshold empty_batch no_merge_callback merge_failed : StoreError
  chain_changed chain_prefix_changed metadata_mismatch chain_busy : StoreError
  delta_failed : DeltaError → StoreError
  manifest_failed : ManifestError → StoreError
  recover_failed : List ℕ → DeltaError → StoreError

pub data Result : Type 0 where
  ok : Result
  err : StoreError → Result

pub record Chain : Type 0 where
  pub read_view : PropertyDeltaReadView
  pub target_is_persistent : Bool
  pub merge_scheduled_or_running : Bool

-- `directory_path` is not empty and has no slash at its end.
pub record PropertyDeltaStore : Type 0 where
  pub directory_path : List ℕ
  pub merge_threshold : ℕ
  pub has_merge_callback : Bool
  pub durability : DeltaDurability
  pub manifest : Manifest
  pub registry : List (PropertyDeltaTarget × Chain)
  pub next_file_generation : ℕ
  pub maximum_commit_sequence : ℕ
  pub persistent_base_files : List ℕ
  pub jobs : List PropertyDeltaTarget
  pub running_jobs : ℕ
  pub background_error : Option StoreError
  pub files_created : ℕ
  pub files_recovered : ℕ
  pub records_written : ℕ
  pub bytes_written : ℕ
  pub merges_started : ℕ
  pub merges_completed : ℕ
  pub merge_failures : ℕ
  pub directory : List (List ℕ × List ℕ)

abbrev pub empty_view : PropertyDeltaReadView
empty_view = record { merged_base = none; deltas = []; generation = 0 }

abbrev pub fresh_chain : Chain
fresh_chain = record {
  read_view = empty_view;
  target_is_persistent = false;
  merge_scheduled_or_running = false;
}

unfoldable pub find_chain : PropertyDeltaTarget → List (PropertyDeltaTarget × Chain) → Option Chain
find_chain target [] = none
find_chain target ((t, c) ∷ chains) =
    if target_eq t target then some c else find_chain target chains

unfoldable pub set_chain :
    PropertyDeltaTarget
    → Chain
    → List (PropertyDeltaTarget × Chain)
    → List (PropertyDeltaTarget × Chain)
set_chain target c [] = (target, c) ∷ []
set_chain target c ((t, d) ∷ chains) =
    if target_eq t target then (t, c) ∷ chains else (t, d) ∷ set_chain target c chains

abbrev pub chain_or_fresh : Option Chain → Chain
chain_or_fresh none = fresh_chain
chain_or_fresh (some c) = c

-- The chain of a target, or the one that GetOrCreateChain makes for it.
abbrev pub chain_at : PropertyDeltaTarget → PropertyDeltaStore → Chain
chain_at target s = chain_or_fresh (find_chain target s.registry)

unfoldable pub contains_id : ℕ → List ℕ → Bool
contains_id id [] = false
contains_id id (i ∷ ids) = i == id || contains_id id ids

-- The store with the chain in its registry.
unfoldable pub get_or_create_chain :
    PropertyDeltaTarget → Bool → PropertyDeltaStore → PropertyDeltaStore
get_or_create_chain target persistent s =
    let c = chain_at target s in
    let known = persistent || contains_id target.base_file_id s.persistent_base_files in
    record s {
      registry =
          set_chain target (record c { target_is_persistent = known || c.target_is_persistent })
            s.registry;
    }

abbrev pub view_of : Option Chain → Option PropertyDeltaReadView
view_of none = none
view_of (some c) = some c.read_view

unfoldable pub read_view : PropertyDeltaTarget → PropertyDeltaStore → Option PropertyDeltaReadView
read_view target s = view_of (find_chain target s.registry)

abbrev pub file_path : PropertyDeltaStore → List ℕ → List ℕ
file_path s name = s.directory_path ++ (b'/' ∷ name)

unfoldable pub schedule_merge : PropertyDeltaTarget → PropertyDeltaStore → PropertyDeltaStore
schedule_merge target s = record s {
  jobs = s.jobs ++ (target ∷ []);
  merges_started = s.merges_started + 1;
}

-- `if (schedule) ScheduleMerge(…)`.
abbrev pub schedule_if : Bool → PropertyDeltaTarget → PropertyDeltaStore → PropertyDeltaStore
schedule_if true target s = schedule_merge target s
schedule_if false target s = s

abbrev pub with_chain : PropertyDeltaTarget → Chain → PropertyDeltaStore → PropertyDeltaStore
with_chain target c s = record s { registry = set_chain target c s.registry }

-- The test that a chain is due for a merge, at a length.
abbrev pub is_due : PropertyDeltaStore → Chain → ℕ → Bool
is_due s c size =
    s.has_merge_callback && (not c.merge_scheduled_or_running && leb s.merge_threshold size)

abbrev pub first_error : Option StoreError → StoreError → Option StoreError
first_error none e = some e
first_error (some old) e = some old

-- RecordBackgroundError keeps the first error.
abbrev pub record_background_error : StoreError → PropertyDeltaStore → PropertyDeltaStore
record_background_error e s = record s { background_error = first_error s.background_error e }
