-- ===== src/Delta/File.antt =====
-- src/property_delta.cpp: PropertyDeltaFile. An open file is its mapping, the offsets and the
-- metadata; the descriptor and the unlinking in the destructor are not modelled.
use rich_graph.Base.{
  ℕ, zero, suc, ◌+◌, ◌-◌, ◌*◌, ◌/◌, ◌%◌, ◌^◌, Bool, true, false, not, Option, none, some, List, [],
  drop, take, length, ◌==◌, ltb, leb, ◌&&◌, ◌||◌, if◌then◌else◌, eq_bytes, is_lt, is_eq,
}
use rich_graph.Fnv.{extend_checksum, fnv_offset}
use rich_graph.Delta.{
  PropertyObjectKind, node, edge, PropertyDeltaRecord, LogicalKey, PropertyDeltaFileMetadata,
  DeltaDiskRecord,
}
use rich_graph.Delta.Order.{record_less, compare_disk_logical_key}
use rich_graph.Delta.Image.{
  DeltaDiskHeader, magic_bytes, format_version, header_size, record_size, decode_header,
  header_checksum, load_disk_record, disk_record_to_record, is_valid_object_kind,
}
use rich_graph.Delta.Error.{
  Result, ok, err, ◌>>◌, DeltaError, shorter_than_header, invalid_header, header_checksum_mismatch,
  record_bounds_overflow, value_bounds_overflow, invalid_bounds, payload_checksum_mismatch,
  value_out_of_bounds, not_sorted,
}

pub record PropertyDeltaFile : Type 0 where
  pub path : List ℕ
  pub mapping : List ℕ
  pub records_offset : ℕ
  pub values_offset : ℕ
  pub metadata : PropertyDeltaFileMetadata

-- A test that SetError and `return false` follow.
abbrev pub refuse_if : Bool → DeltaError → Result (Unit {0})
refuse_if true e = err e
refuse_if false e = ok tt

abbrev pub max_u64 : ℕ
max_u64 = 2 ^ 64 - 1

-- Sums of uint64_t wrap.
abbrev pub wrap64 : ℕ → ℕ
wrap64 n = n % 2 ^ 64

-- The two records that the sortedness test compares carry no value.
abbrev pub key_record : DeltaDiskRecord → PropertyDeltaRecord
key_record d = record {
  src = d.src;
  dst = d.dst;
  base_sequence = d.base_sequence;
  commit_sequence = d.commit_sequence;
  is_out = not (d.is_out == 0);
  edge_type = d.edge_type;
  value = [];
}

abbrev pub value_outside : DeltaDiskRecord → ℕ → Bool
value_outside d values_bytes =
    ltb values_bytes d.value_offset || ltb (values_bytes - d.value_offset) d.value_length

-- `for (i = 0; i < record_count; ++i)`: `left` is the number of rounds to go.
unfoldable pub check_records : List ℕ → DeltaDiskHeader → ℕ → ℕ → Result (Unit {0})
check_records mapping h zero i = ok tt
check_records mapping h (suc left) i =
    let rest = check_records mapping h left (i + 1) in
    let current = load_disk_record mapping h.records_offset i in
    if value_outside current h.values_bytes
    then err value_out_of_bounds
    else if not (i == 0)
        && record_less (key_record current)
            (key_record (load_disk_record mapping h.records_offset (i - 1)))
    then err not_sorted
    else rest

abbrev pub object_kind : ℕ → PropertyObjectKind
object_kind raw = if raw == 1 then node else edge

abbrev pub metadata_of : DeltaDiskHeader → ℕ → PropertyDeltaFileMetadata
metadata_of h size = record {
  target = record {
    kind = object_kind h.object_kind;
    shard_id = h.shard_id;
    base_file_id = h.base_file_id;
    base_generation = h.base_generation;
    property_id = h.property_id;
  };
  file_generation = h.file_generation;
  record_count = h.record_count;
  file_bytes = size;
  min_commit_sequence = h.min_commit_sequence;
  max_commit_sequence = h.max_commit_sequence;
  payload_checksum = h.payload_checksum;
}

abbrev pub header_refused : DeltaDiskHeader → Bool
header_refused h =
    not (eq_bytes h.magic magic_bytes)
    || (not (h.version == format_version)
        || (not (h.header_bytes == header_size) || not (is_valid_object_kind h.object_kind)))

abbrev pub bounds_refused : DeltaDiskHeader → ℕ → Bool
bounds_refused h size =
    let records_end = wrap64 (h.records_offset + h.record_count * record_size) in
    not (h.records_offset == header_size)
    || (not (h.values_offset == records_end)
        || (ltb size records_end || not (wrap64 (h.values_offset + h.values_bytes) == size)))

-- The checksum over all that follows the header.
abbrev pub mapped_checksum : DeltaDiskHeader → List ℕ → ℕ
mapped_checksum h mapping =
    if ltb h.records_offset (length mapping)
    then extend_checksum fnv_offset (drop h.records_offset mapping)
    else fnv_offset

-- OpenAndValidate, from the file's bytes on: `open`, `fstat` and `mmap` have succeeded.
unfoldable pub open_and_validate : List ℕ → List ℕ → Result PropertyDeltaFile
open_and_validate path mapping = do
  refuse_if (ltb (length mapping) header_size) shorter_than_header
  let h = decode_header mapping
  refuse_if (header_refused h) invalid_header
  refuse_if (not (header_checksum h == h.header_checksum)) header_checksum_mismatch
  refuse_if (ltb ((max_u64 - h.records_offset) / record_size) h.record_count) record_bounds_overflow
  refuse_if (ltb (max_u64 - h.values_offset) h.values_bytes) value_bounds_overflow
  refuse_if (bounds_refused h (length mapping)) invalid_bounds
  refuse_if (not (mapped_checksum h mapping == h.payload_checksum)) payload_checksum_mismatch
  check_records mapping h h.record_count 0
  ok (record {
    path = path;
    mapping = mapping;
    records_offset = h.records_offset;
    values_offset = h.values_offset;
    metadata = metadata_of h (length mapping);
  })

-- `while (low < high)` with the midpoint test: both searches of Lookup have this loop.
unfoldable pub bisect : ℕ → (ℕ → Bool) → ℕ → ℕ → ℕ
bisect zero test low high = low
bisect (suc fuel) test low high =
    let middle = low + (high - low) / 2 in
    let rest =
      bisect fuel test (if test middle then middle + 1 else low)
        (if test middle then high else middle) in
    if ltb low high then rest else low

abbrev pub selected_value : PropertyDeltaFile → DeltaDiskRecord → Option (List ℕ × ℕ)
selected_value file selected =
    let begin = wrap64 (file.values_offset + selected.value_offset) in
    if ltb (length file.mapping) (wrap64 (begin + selected.value_length))
    then none
    else some (take selected.value_length (drop begin file.mapping), selected.commit_sequence)

module _ (file : PropertyDeltaFile) (key : LogicalKey) (read_sequence : ℕ) where
  abbrev pub load : ℕ → DeltaDiskRecord
  load i = load_disk_record file.mapping file.records_offset i

  abbrev pub before_key : ℕ → Bool
  before_key i = is_lt (compare_disk_logical_key (load i) key)

  abbrev pub before_version : ℕ → Bool
  before_version i =
      is_lt (compare_disk_logical_key (load i) key)
      || (is_eq (compare_disk_logical_key (load i) key)
          && leb (load i).commit_sequence read_sequence)

  abbrev pub select : ℕ → Option (List ℕ × ℕ)
  select low =
      let selected = load (low - 1) in
      if not (is_eq (compare_disk_logical_key selected key))
        || ltb read_sequence selected.commit_sequence
      then none
      else selected_value file selected

  abbrev pub lookup_from : ℕ → Option (List ℕ × ℕ)
  lookup_from first =
      let count = file.metadata.record_count in
      let low = bisect (count - first) before_version first count in
      if first == count
      then none
      else if not (is_eq (compare_disk_logical_key (load first) key))
      then none
      else if low == first
      then none
      else select low

  -- Lookup with both output pointers set: the value found and its commit sequence.
  unfoldable pub lookup : Option (List ℕ × ℕ)
  unfolding bisect
  lookup =
      let count = file.metadata.record_count in
      if count == 0 || ltb read_sequence file.metadata.min_commit_sequence
      then none
      else lookup_from (bisect count before_key 0 count)

-- ForEachRecord: the visitor answers whether to go on, and keeps a state of its own.
unfoldable pub for_each_loop {ℓ} :
    {S : Type ℓ} → PropertyDeltaFile → (PropertyDeltaRecord → S → S × Bool) → ℕ → ℕ → S → S × Bool
for_each_loop file visitor zero i s = (s, true)
for_each_loop file visitor (suc left) i s =
    let disk = load_disk_record file.mapping file.records_offset i in
    let visited = visitor (disk_record_to_record disk file.mapping file.values_offset) s in
    let rest = for_each_loop file visitor left (i + 1) visited.0 in
    if ltb (length file.mapping)
      (wrap64 (wrap64 (file.values_offset + disk.value_offset) + disk.value_length))
    then (s, false)
    else if visited.1
    then rest
    else visited

unfoldable pub for_each_record {ℓ} :
    {S : Type ℓ} → PropertyDeltaFile → (PropertyDeltaRecord → S → S × Bool) → S → S × Bool
unfolding for_each_loop
for_each_record file visitor s = for_each_loop file visitor file.metadata.record_count 0 s
