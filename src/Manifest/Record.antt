-- ===== src/Manifest/Record.antt =====
-- src/property_delta_manifest.cpp: ManifestDiskHeader, RecordChecksum, and the bytes of one record.
use rich_graph.Base.{ℕ, List, [], ◌∷◌, ◌++◌, take, drop, length}
use rich_graph.Pod.{encode_fields, decode_fields, field}
use rich_graph.Fnv.{extend_checksum, fnv_offset}

-- "RGMANIF3".
abbrev pub manifest_magic : List ℕ
manifest_magic = b'R' ∷ b'G' ∷ b'M' ∷ b'A' ∷ b'N' ∷ b'I' ∷ b'F' ∷ b'3' ∷ []

abbrev pub manifest_version : ℕ
manifest_version = 3

abbrev pub add_record : ℕ
add_record = 1

abbrev pub remove_record : ℕ
remove_record = 2

abbrev pub header_size : ℕ
header_size = 36

pub record ManifestDiskHeader : Type 0 where
  pub magic : List ℕ
  pub version : ℕ
  pub type_code : ℕ
  pub reserved : ℕ
  pub payload_bytes : ℕ
  pub edit_sequence : ℕ
  pub checksum : ℕ

abbrev pub header_fields : ManifestDiskHeader → List (ℕ × ℕ)
header_fields h =
    (4, h.version)
    ∷ (1, h.type_code)
    ∷ (3, h.reserved)
    ∷ (4, h.payload_bytes)
    ∷ (8, h.edit_sequence)
    ∷ (8, h.checksum)
    ∷ []

abbrev pub header_widths : List ℕ
header_widths = 4 ∷ 1 ∷ 3 ∷ 4 ∷ 8 ∷ 8 ∷ []

unfoldable pub encode_header : ManifestDiskHeader → List ℕ
encode_header h = h.magic ++ encode_fields (header_fields h)

abbrev pub header_of_fields : List ℕ → List ℕ → ManifestDiskHeader
header_of_fields m fs = record {
  magic = m;
  version = field fs 0;
  type_code = field fs 1;
  reserved = field fs 2;
  payload_bytes = field fs 3;
  edit_sequence = field fs 4;
  checksum = field fs 5;
}

unfoldable pub decode_header : List ℕ → ManifestDiskHeader
decode_header bytes = header_of_fields (take 8 bytes) (decode_fields header_widths (drop 8 bytes))

unfoldable pub record_checksum : ManifestDiskHeader → List ℕ → ℕ
record_checksum h payload =
    extend_checksum (extend_checksum fnv_offset (encode_header (record h { checksum = 0 }))) payload

abbrev pub fresh_header : ℕ → ℕ → List ℕ → ManifestDiskHeader
fresh_header type_code edit_sequence payload = record {
  magic = manifest_magic;
  version = manifest_version;
  type_code = type_code;
  reserved = 0;
  payload_bytes = length payload;
  edit_sequence = edit_sequence;
  checksum = 0;
}

unfoldable pub record_header : ℕ → ℕ → List ℕ → ManifestDiskHeader
record_header type_code edit_sequence payload =
    let h = fresh_header type_code edit_sequence payload in
    record h { checksum = record_checksum h payload }

-- What AppendRecord hands to WriteAll.
unfoldable pub record_bytes : ℕ → ℕ → List ℕ → List ℕ
record_bytes type_code edit_sequence payload =
    encode_header (record_header type_code edit_sequence payload) ++ payload
