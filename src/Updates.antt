-- ===== src/Updates.antt =====
-- core/property_update_manager.h and src/property_update_manager.cpp: the data of the property
-- update manager and the map of pending values. The 64 buckets of the map, each the part of one
-- hash, are one association list here.
pub mod Manager
pub mod Start
pub mod Worker
pub mod Pending
pub mod Submission
pub mod Calls
pub mod Steps
pub mod Reach
pub mod Queues
pub mod Taken
pub mod Sound
pub mod Turns
pub mod Handoff
pub mod Overtaken
use rich_graph.Base.{
  ℕ, ◌+◌, Bool, true, false, Option, none, some, List, [], ◌∷◌, ◌==◌, leb, ◌&&◌, ◌||◌, not,
  if◌then◌else◌, ℤ, pos, eq_ℤ,
}
use rich_graph.Delta.{
  PropertyObjectKind, kind_code, direction, PropertyDeltaTarget, PropertyDeltaRecord,
}

pub record BufferedPropertyUpdate : Type 0 where
  pub target : PropertyDeltaTarget
  pub entry : PropertyDeltaRecord
  pub target_is_persistent : Bool

pub record PendingKey : Type 0 where
  pub kind : PropertyObjectKind
  pub shard_id : ℕ
  pub property_id : ℕ
  pub src : ℕ
  pub dst : ℕ
  pub is_out : Bool
  pub edge_type : ℕ

pub record PendingValue : Type 0 where
  pub base_sequence : ℤ
  pub commit_sequence : ℕ
  pub value : List ℕ

abbrev pub key_eq : PendingKey → PendingKey → Bool
key_eq a b =
    kind_code a.kind == kind_code b.kind
    && (a.shard_id == b.shard_id
        && (a.property_id == b.property_id
            && (a.src == b.src
                && (a.dst == b.dst
                    && (direction a.is_out == direction b.is_out && a.edge_type == b.edge_type)))))

abbrev pub make_pending_key : BufferedPropertyUpdate → PendingKey
make_pending_key u = record {
  kind = u.target.kind;
  shard_id = u.target.shard_id;
  property_id = u.target.property_id;
  src = u.entry.src;
  dst = u.entry.dst;
  is_out = u.entry.is_out;
  edge_type = u.entry.edge_type;
}

unfoldable pub find : PendingKey → List (PendingKey × PendingValue) → Option PendingValue
find key [] = none
find key ((k, v) ∷ pending) = if key_eq k key then some v else find key pending

-- `values[key] = v`.
unfoldable pub assign :
    PendingKey → PendingValue → List (PendingKey × PendingValue) → List (PendingKey × PendingValue)
assign key v [] = (key, v) ∷ []
assign key v ((k, w) ∷ pending) =
    if key_eq k key then (k, v) ∷ pending else (k, w) ∷ assign key v pending

unfoldable pub erase :
    PendingKey → List (PendingKey × PendingValue) → List (PendingKey × PendingValue)
erase key [] = []
erase key ((k, v) ∷ pending) =
    if key_eq k key then erase key pending else (k, v) ∷ erase key pending

abbrev pub pending_value : PropertyDeltaRecord → PendingValue
pending_value r = record {
  base_sequence = r.base_sequence;
  commit_sequence = r.commit_sequence;
  value = r.value;
}

-- A key that `values[key]` makes has the commit sequence 0, which no record is below.
abbrev pub publish_over :
    Option PendingValue
    → BufferedPropertyUpdate
    → List (PendingKey × PendingValue)
    → List (PendingKey × PendingValue)
publish_over none u pending = assign (make_pending_key u) (pending_value u.entry) pending
publish_over (some v) u pending =
    if leb v.commit_sequence u.entry.commit_sequence
    then assign (make_pending_key u) (pending_value u.entry) pending
    else pending

unfoldable pub publish_pending :
    BufferedPropertyUpdate → List (PendingKey × PendingValue) → List (PendingKey × PendingValue)
publish_pending u pending = publish_over (find (make_pending_key u) pending) u pending

abbrev pub retire_found :
    Option PendingValue
    → BufferedPropertyUpdate
    → List (PendingKey × PendingValue)
    → List (PendingKey × PendingValue)
retire_found none u pending = pending
retire_found (some v) u pending =
    if v.commit_sequence == u.entry.commit_sequence
    then erase (make_pending_key u) pending
    else pending

-- One round of the loop of RetirePending.
unfoldable pub retire_one :
    BufferedPropertyUpdate → List (PendingKey × PendingValue) → List (PendingKey × PendingValue)
retire_one u pending = retire_found (find (make_pending_key u) pending) u pending

-- The value and the commit sequence that a caller gets.
abbrev pub found_value : Option PendingValue → Option (List ℕ × ℕ)
found_value none = none
found_value (some v) = some (v.value, v.commit_sequence)

unfoldable pub lookup_latest : PendingKey → List (PendingKey × PendingValue) → Option (List ℕ × ℕ)
lookup_latest key pending = found_value (find key pending)

abbrev pub exact_value : ℤ → Option PendingValue → Option (List ℕ × ℕ)
exact_value base_sequence none = none
exact_value base_sequence (some v) =
    if eq_ℤ v.base_sequence base_sequence then some (v.value, v.commit_sequence) else none

unfoldable pub lookup_exact :
    PendingKey → ℤ → List (PendingKey × PendingValue) → Option (List ℕ × ℕ)
lookup_exact key base_sequence pending = exact_value base_sequence (find key pending)

pub record BufferedPropertySnapshotEntry : Type 0 where
  pub dst : ℕ
  pub base_sequence : ℤ
  pub commit_sequence : ℕ
  pub value : List ℕ

-- The `dst` of the key asked for is not compared.
unfoldable pub snapshot_for_source :
    PendingKey → List (PendingKey × PendingValue) → List BufferedPropertySnapshotEntry
snapshot_for_source source [] = []
snapshot_for_source source ((k, v) ∷ pending) =
    let rest = snapshot_for_source source pending in
    if key_eq (record k { dst = source.dst }) source
    then record {
      dst = k.dst;
      base_sequence = v.base_sequence;
      commit_sequence = v.commit_sequence;
      value = v.value;
    }
      ∷ rest
    else rest
