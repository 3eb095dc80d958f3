-- ===== src/Delta.antt =====
-- core/property_delta.h: the data that a property delta is made of. A 64-bit field is a number
-- here; `InRange` below says which numbers fit the fields.
pub mod Order
pub mod Error
pub mod Build
pub mod Image
pub mod File
pub mod Newest
pub mod Codec
pub mod Kept
pub mod Layout
pub mod Create
pub mod Accept
pub mod Reopen
pub mod RoundTrip
pub mod Sorted
pub mod Bisect
pub mod Ranks
pub mod Search
use rich_graph.Base.{
  ℕ, ◌<◌, ◌^◌, ℤ, pos_part, neg_part, ◌≤◌, Bool, true, false, List, length, ◌==◌, ◌&&◌,
}

pub data PropertyObjectKind : Type 0 where
  node : PropertyObjectKind
  edge : PropertyObjectKind

-- The value of the enumerator.
abbrev pub kind_code : PropertyObjectKind → ℕ
kind_code node = 1
kind_code edge = 2

pub record PropertyDeltaTarget : Type 0 where
  pub kind : PropertyObjectKind
  pub shard_id : ℕ
  pub base_file_id : ℕ
  pub base_generation : ℕ
  pub property_id : ℕ

-- `operator==` of PropertyDeltaTarget.
abbrev pub target_eq : PropertyDeltaTarget → PropertyDeltaTarget → Bool
target_eq a b =
    kind_code a.kind == kind_code b.kind
    && (a.shard_id == b.shard_id
        && (a.base_file_id == b.base_file_id
            && (a.base_generation == b.base_generation && a.property_id == b.property_id)))

pub record PropertyDeltaRecord : Type 0 where
  pub src : ℕ
  pub dst : ℕ
  pub base_sequence : ℤ
  pub commit_sequence : ℕ
  pub is_out : Bool
  pub edge_type : ℕ
  pub value : List ℕ

-- The fields that a lookup names: all but the version and the value.
pub record LogicalKey : Type 0 where
  pub src : ℕ
  pub dst : ℕ
  pub base_sequence : ℤ
  pub is_out : Bool
  pub edge_type : ℕ

pub record PropertyDeltaFileMetadata : Type 0 where
  pub target : PropertyDeltaTarget
  pub file_generation : ℕ
  pub record_count : ℕ
  pub file_bytes : ℕ
  pub min_commit_sequence : ℕ
  pub max_commit_sequence : ℕ
  pub payload_checksum : ℕ

-- DeltaDiskRecord of src/property_delta.cpp, without its reserved field, which is written as 0 and
-- never read.
pub record DeltaDiskRecord : Type 0 where
  pub src : ℕ
  pub dst : ℕ
  pub base_sequence : ℤ
  pub commit_sequence : ℕ
  pub value_offset : ℕ
  pub value_length : ℕ
  pub edge_type : ℕ
  pub is_out : ℕ

abbrev pub direction : Bool → ℕ
direction true = 1
direction false = 0
