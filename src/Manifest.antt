-- ===== src/Manifest.antt =====
-- core/property_delta_manifest.h and the payloads of src/property_delta_manifest.cpp: EncodeAdd,
-- DecodeAdd, EncodeRemove, DecodeRemove, ValidFileName, ApplyAdd and ApplyRemove.
pub mod Record
pub mod Recover
pub mod Append
pub mod Codec
pub mod Atomic
pub mod Fuel
pub mod Retry
pub mod Removal
pub mod Replay
pub mod Reopen
use rich_graph.Base.{
  ℕ, zero, suc, ◌+◌, ◌-◌, Bool, true, false, not, Option, none, some, List, [], ◌∷◌, ◌++◌, take,
  drop, length, is_empty, ◌==◌, ltb, ◌&&◌, ◌||◌, if◌then◌else◌, eq_bytes,
}
use rich_graph.Pod.{encode_le, decode_le, encode_fields, decode_fields, field}
use rich_graph.Delta.{PropertyDeltaFileMetadata, kind_code}
use rich_graph.Delta.Image.{is_valid_object_kind}
use rich_graph.Delta.File.{object_kind}

pub record PropertyDeltaManifestEntry : Type 0 where
  pub file_name : List ℕ
  pub metadata : PropertyDeltaFileMetadata
  pub target_is_persistent : Bool

-- std::filesystem::path on POSIX: what stands behind the last slash, and whether one comes first.
unfoldable pub filename_from : List ℕ → List ℕ → List ℕ
filename_from name [] = name
filename_from name (c ∷ cs) = filename_from (if c == b'/' then [] else name ++ (c ∷ [])) cs

abbrev pub is_absolute : List ℕ → Bool
is_absolute [] = false
is_absolute (c ∷ cs) = c == b'/'

unfoldable pub valid_file_name : List ℕ → Bool
unfolding filename_from
valid_file_name name =
    not (is_empty name)
    && (not (is_absolute name)
        && (eq_bytes (filename_from [] name) name
            && (not (eq_bytes name (b'.' ∷ [])) && not (eq_bytes name (b'.' ∷ b'.' ∷ [])))))

abbrev pub bool_byte : Bool → ℕ
bool_byte true = 1
bool_byte false = 0

-- ManifestAddPayload, field by field.
abbrev pub add_fields : PropertyDeltaManifestEntry → List (ℕ × ℕ)
add_fields e =
    let m = e.metadata in
    (1, kind_code m.target.kind)
    ∷ (1, bool_byte e.target_is_persistent)
    ∷ (2, 0)
    ∷ (4, m.target.shard_id)
    ∷ (4, m.target.property_id)
    ∷ (4, m.target.base_file_id)
    ∷ (8, m.target.base_generation)
    ∷ (8, m.file_generation)
    ∷ (8, m.record_count)
    ∷ (8, m.file_bytes)
    ∷ (8, m.min_commit_sequence)
    ∷ (8, m.max_commit_sequence)
    ∷ (8, m.payload_checksum)
    ∷ (4, length e.file_name)
    ∷ []

abbrev pub add_widths : List ℕ
add_widths = 1 ∷ 1 ∷ 2 ∷ 4 ∷ 4 ∷ 4 ∷ 8 ∷ 8 ∷ 8 ∷ 8 ∷ 8 ∷ 8 ∷ 8 ∷ 4 ∷ []

abbrev pub add_size : ℕ
add_size = 76

unfoldable pub encode_add : PropertyDeltaManifestEntry → List ℕ
encode_add e = encode_fields (add_fields e) ++ e.file_name

abbrev pub entry_of_fields : List ℕ → List ℕ → PropertyDeltaManifestEntry
entry_of_fields fs name = record {
  file_name = name;
  metadata = record {
    target = record {
      kind = object_kind (field fs 0);
      shard_id = field fs 3;
      base_file_id = field fs 5;
      base_generation = field fs 6;
      property_id = field fs 4;
    };
    file_generation = field fs 7;
    record_count = field fs 8;
    file_bytes = field fs 9;
    min_commit_sequence = field fs 10;
    max_commit_sequence = field fs 11;
    payload_checksum = field fs 12;
  };
  target_is_persistent = not (field fs 1 == 0);
}

unfoldable pub decode_add : List ℕ → Option PropertyDeltaManifestEntry
decode_add payload =
    let fs = decode_fields add_widths payload in
    let name = take (field fs 13) (drop add_size payload) in
    if ltb (length payload) add_size
    then none
    else if not (is_valid_object_kind (field fs 0))
        || (ltb 1 (field fs 1) || not (field fs 13 == length payload - add_size))
    then none
    else if valid_file_name name
    then some (entry_of_fields fs name)
    else none

unfoldable pub encode_names : List (List ℕ) → List ℕ
encode_names [] = []
encode_names (name ∷ names) = encode_le 4 (length name) ++ (name ++ encode_names names)

unfoldable pub encode_remove : List (List ℕ) → List ℕ
encode_remove file_names = encode_le 4 (length file_names) ++ encode_names file_names

-- ConsumePod of a uint32_t, over the bytes from the offset on.
unfoldable pub consume_u32 : List ℕ → Option (ℕ × List ℕ)
consume_u32 rest = if ltb (length rest) 4 then none else some (decode_le (take 4 rest), drop 4 rest)

-- What follows the length of a name: its bytes and its test.
abbrev pub take_name : Option (ℕ × List ℕ) → Option (List ℕ × List ℕ)
take_name none = none
take_name (some (size, rest)) =
    if ltb (length rest) size
    then none
    else if valid_file_name (take size rest)
    then some (take size rest, drop size rest)
    else none

unfoldable pub consume_name : List ℕ → Option (List ℕ × List ℕ)
consume_name rest = take_name (consume_u32 rest)

abbrev pub put_name : List ℕ → Option (List (List ℕ)) → Option (List (List ℕ))
put_name name none = none
put_name name (some names) = some (name ∷ names)

-- `next` reads the names that follow, from the bytes that this one leaves.
abbrev pub with_name :
    Option (List ℕ × List ℕ) → (List ℕ → Option (List (List ℕ))) → Option (List (List ℕ))
with_name none next = none
with_name (some (name, rest)) next = put_name name (next rest)

unfoldable pub decode_names : ℕ → List ℕ → Option (List (List ℕ))
decode_names zero rest = if is_empty rest then some [] else none
decode_names (suc count) rest = with_name (consume_name rest) (decode_names count)

abbrev pub all_names : Option (ℕ × List ℕ) → Option (List (List ℕ))
all_names none = none
all_names (some (count, rest)) = decode_names count rest

unfoldable pub decode_remove : List ℕ → Option (List (List ℕ))
decode_remove payload = all_names (consume_u32 payload)

-- The first entry of the name is replaced, or the entry comes last.
unfoldable pub apply_add :
    List PropertyDeltaManifestEntry → PropertyDeltaManifestEntry → List PropertyDeltaManifestEntry
apply_add [] entry = entry ∷ []
apply_add (item ∷ active) entry =
    if eq_bytes item.file_name entry.file_name
    then entry ∷ active
    else item ∷ apply_add active entry

unfoldable pub contains_name : List (List ℕ) → List ℕ → Bool
contains_name [] name = false
contains_name (n ∷ ns) name = eq_bytes n name || contains_name ns name

unfoldable pub apply_remove :
    List PropertyDeltaManifestEntry → List (List ℕ) → List PropertyDeltaManifestEntry
unfolding contains_name
apply_remove [] file_names = []
apply_remove (item ∷ active) file_names =
    if contains_name file_names item.file_name
    then apply_remove active file_names
    else item ∷ apply_remove active file_names
