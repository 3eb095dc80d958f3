-- ===== src/Delta/Image.antt =====
-- src/property_delta.cpp: DeltaDiskHeader and DeltaDiskRecord as bytes, HeaderChecksum,
-- LoadDiskRecord, DiskRecordToRecord, and the bytes that PropertyDeltaFile::Create writes.
use rich_graph.Base.{ℕ, ◌+◌, ◌*◌, Bool, not, List, [], ◌∷◌, ◌++◌, take, drop, length, ◌==◌, ◌||◌}
use rich_graph.Pod.{encode_fields, decode_fields, field, int64_word, word_int64}
use rich_graph.Fnv.{checksum, extend_checksum, fnv_offset}
use rich_graph.Delta.{PropertyDeltaTarget, PropertyDeltaRecord, DeltaDiskRecord, kind_code}
use rich_graph.Delta.Build.{BuildState}

-- "RGDELTA2".
abbrev pub magic_bytes : List ℕ
magic_bytes = b'R' ∷ b'G' ∷ b'D' ∷ b'E' ∷ b'L' ∷ b'T' ∷ b'A' ∷ b'2' ∷ []

abbrev pub format_version : ℕ
format_version = 2

abbrev pub header_size : ℕ
header_size = 120

abbrev pub record_size : ℕ
record_size = 48

pub record DeltaDiskHeader : Type 0 where
  pub magic : List ℕ
  pub version : ℕ
  pub header_bytes : ℕ
  pub object_kind : ℕ
  pub reserved0 : ℕ
  pub shard_id : ℕ
  pub property_id : ℕ
  pub base_file_id : ℕ
  pub reserved1 : ℕ
  pub base_generation : ℕ
  pub file_generation : ℕ
  pub record_count : ℕ
  pub records_offset : ℕ
  pub values_offset : ℕ
  pub values_bytes : ℕ
  pub min_commit_sequence : ℕ
  pub max_commit_sequence : ℕ
  pub payload_checksum : ℕ
  pub header_checksum : ℕ

-- The fields after the magic, each with its width.
abbrev pub header_fields : DeltaDiskHeader → List (ℕ × ℕ)
header_fields h =
    (4, h.version)
    ∷ (4, h.header_bytes)
    ∷ (1, h.object_kind)
    ∷ (7, h.reserved0)
    ∷ (4, h.shard_id)
    ∷ (4, h.property_id)
    ∷ (4, h.base_file_id)
    ∷ (4, h.reserved1)
    ∷ (8, h.base_generation)
    ∷ (8, h.file_generation)
    ∷ (8, h.record_count)
    ∷ (8, h.records_offset)
    ∷ (8, h.values_offset)
    ∷ (8, h.values_bytes)
    ∷ (8, h.min_commit_sequence)
    ∷ (8, h.max_commit_sequence)
    ∷ (8, h.payload_checksum)
    ∷ (8, h.header_checksum)
    ∷ []

abbrev pub header_widths : List ℕ
header_widths = 4 ∷ 4 ∷ 1 ∷ 7 ∷ 4 ∷ 4 ∷ 4 ∷ 4 ∷ 8 ∷ 8 ∷ 8 ∷ 8 ∷ 8 ∷ 8 ∷ 8 ∷ 8 ∷ 8 ∷ 8 ∷ []

unfoldable pub encode_header : DeltaDiskHeader → List ℕ
encode_header h = h.magic ++ encode_fields (header_fields h)

abbrev pub header_of_fields : List ℕ → List ℕ → DeltaDiskHeader
header_of_fields m fs = record {
  magic = m;
  version = field fs 0;
  header_bytes = field fs 1;
  object_kind = field fs 2;
  reserved0 = field fs 3;
  shard_id = field fs 4;
  property_id = field fs 5;
  base_file_id = field fs 6;
  reserved1 = field fs 7;
  base_generation = field fs 8;
  file_generation = field fs 9;
  record_count = field fs 10;
  records_offset = field fs 11;
  values_offset = field fs 12;
  values_bytes = field fs 13;
  min_commit_sequence = field fs 14;
  max_commit_sequence = field fs 15;
  payload_checksum = field fs 16;
  header_checksum = field fs 17;
}

unfoldable pub decode_header : List ℕ → DeltaDiskHeader
decode_header bytes = header_of_fields (take 8 bytes) (decode_fields header_widths (drop 8 bytes))

unfoldable pub header_checksum : DeltaDiskHeader → ℕ
header_checksum h = checksum (encode_header (record h { header_checksum = 0 }))

abbrev pub record_fields : DeltaDiskRecord → List (ℕ × ℕ)
record_fields r =
    (8, r.src)
    ∷ (8, r.dst)
    ∷ (8, int64_word r.base_sequence)
    ∷ (8, r.commit_sequence)
    ∷ (8, r.value_offset)
    ∷ (4, r.value_length)
    ∷ (1, r.edge_type)
    ∷ (1, r.is_out)
    ∷ (2, 0)
    ∷ []

abbrev pub record_widths : List ℕ
record_widths = 8 ∷ 8 ∷ 8 ∷ 8 ∷ 8 ∷ 4 ∷ 1 ∷ 1 ∷ 2 ∷ []

unfoldable pub encode_record : DeltaDiskRecord → List ℕ
encode_record r = encode_fields (record_fields r)

unfoldable pub encode_records : List DeltaDiskRecord → List ℕ
encode_records [] = []
encode_records (r ∷ rs) = encode_record r ++ encode_records rs

abbrev pub record_of_fields : List ℕ → DeltaDiskRecord
record_of_fields fs = record {
  src = field fs 0;
  dst = field fs 1;
  base_sequence = word_int64 (field fs 2);
  commit_sequence = field fs 3;
  value_offset = field fs 4;
  value_length = field fs 5;
  edge_type = field fs 6;
  is_out = field fs 7;
}

unfoldable pub load_disk_record : List ℕ → ℕ → ℕ → DeltaDiskRecord
load_disk_record mapping records_offset index =
    record_of_fields
      (decode_fields record_widths (drop (records_offset + index * record_size) mapping))

unfoldable pub disk_record_to_record : DeltaDiskRecord → List ℕ → ℕ → PropertyDeltaRecord
disk_record_to_record disk mapping values_offset = record {
  src = disk.src;
  dst = disk.dst;
  base_sequence = disk.base_sequence;
  commit_sequence = disk.commit_sequence;
  is_out = not (disk.is_out == 0);
  edge_type = disk.edge_type;
  value = take disk.value_length (drop (values_offset + disk.value_offset) mapping);
}

abbrev pub is_valid_object_kind : ℕ → Bool
is_valid_object_kind raw_kind = raw_kind == 1 || raw_kind == 2

-- The header that Create fills in, its checksum still 0.
abbrev pub fresh_header : PropertyDeltaTarget → ℕ → BuildState → DeltaDiskHeader
fresh_header target file_generation s = record {
  magic = magic_bytes;
  version = format_version;
  header_bytes = header_size;
  object_kind = kind_code target.kind;
  reserved0 = 0;
  shard_id = target.shard_id;
  property_id = target.property_id;
  base_file_id = target.base_file_id;
  reserved1 = 0;
  base_generation = target.base_generation;
  file_generation = file_generation;
  record_count = length s.disk_records;
  records_offset = header_size;
  values_offset = header_size + length s.disk_records * record_size;
  values_bytes = length s.values;
  min_commit_sequence = s.min_commit;
  max_commit_sequence = s.max_commit;
  payload_checksum =
      extend_checksum (extend_checksum fnv_offset (encode_records s.disk_records)) s.values;
  header_checksum = 0;
}

unfoldable pub create_header : PropertyDeltaTarget → ℕ → BuildState → DeltaDiskHeader
create_header target file_generation s =
    let h = fresh_header target file_generation s in
    record h { header_checksum = header_checksum h }

-- What the three calls of WriteAll put into the file.
unfoldable pub create_bytes : PropertyDeltaTarget → ℕ → BuildState → List ℕ
create_bytes target file_generation s =
    encode_header (create_header target file_generation s)
    ++ (encode_records s.disk_records ++ s.values)
