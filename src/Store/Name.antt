-- ===== src/Store/Name.antt =====
-- src/property_delta_store.cpp: DeltaFileName, BaseName, MetadataMatches, and the names that
-- RemoveOrphanFiles deletes.
use rich_graph.Base.{
  ℕ, zero, suc, ◌+◌, ◌/◌, ◌%◌, Bool, false, List, [], ◌∷◌, ◌++◌, ◌==◌, ltb, ◌&&◌, ◌||◌, not,
  if◌then◌else◌, eq_bytes, take, length, is_empty,
}
use rich_graph.Delta.{
  PropertyObjectKind, node, edge, PropertyDeltaTarget, target_eq, PropertyDeltaFileMetadata,
}
use rich_graph.Manifest.{filename_from, PropertyDeltaManifestEntry}

-- std::to_string, on fuel: the digits from the last one on, in front of `rest`.
unfoldable pub digits_before : ℕ → ℕ → List ℕ → List ℕ
digits_before zero n rest = rest
digits_before (suc fuel) n rest =
    let digit = b'0' + n % 10 in
    let more = digits_before fuel (n / 10) (digit ∷ rest) in if ltb n 10 then digit ∷ rest else more

-- A number has no more digits than its value has units, and one at least.
unfoldable pub decimal : ℕ → List ℕ
decimal n = digits_before (suc n) n []

abbrev pub kind_letter : PropertyObjectKind → ℕ
kind_letter node = b'n'
kind_letter edge = b'e'

abbrev pub delta_prefix : List ℕ
delta_prefix = b'd' ∷ b'e' ∷ b'l' ∷ b't' ∷ b'a' ∷ b'-' ∷ []

abbrev pub delta_extension : List ℕ
delta_extension = b'.' ∷ b'r' ∷ b'g' ∷ b'd' ∷ []

-- A field of a name: a dash, its letter, its number, and what follows.
abbrev pub name_field : ℕ → ℕ → List ℕ → List ℕ
name_field letter n rest = b'-' ∷ letter ∷ (decimal n ++ rest)

unfoldable pub delta_file_name : PropertyDeltaTarget → ℕ → List ℕ
delta_file_name target generation =
    delta_prefix
    ++ (kind_letter target.kind
        ∷ name_field b's' target.shard_id (
            name_field b'f' target.base_file_id (
              name_field b'b' target.base_generation
                (name_field b'p' target.property_id (name_field b'g' generation delta_extension)))))

unfoldable pub base_name : List ℕ → List ℕ
base_name path = filename_from [] path

unfoldable pub metadata_matches : PropertyDeltaFileMetadata → PropertyDeltaFileMetadata → Bool
metadata_matches expected actual =
    target_eq expected.target actual.target
    && (expected.file_generation == actual.file_generation
        && (expected.record_count == actual.record_count
            && (expected.file_bytes == actual.file_bytes
                && (expected.min_commit_sequence == actual.min_commit_sequence
                    && (expected.max_commit_sequence == actual.max_commit_sequence
                        && expected.payload_checksum == actual.payload_checksum)))))

abbrev pub starts_with : List ℕ → List ℕ → Bool
starts_with prefix name = eq_bytes (take (length prefix) name) prefix

-- `name.find(part) != npos`.
unfoldable pub has_part : List ℕ → List ℕ → Bool
has_part part [] = is_empty part
has_part part (c ∷ cs) = starts_with part (c ∷ cs) || has_part part cs

abbrev pub temporary_part : List ℕ
temporary_part = b'.' ∷ b't' ∷ b'm' ∷ b'p' ∷ b'.' ∷ []

unfoldable pub is_active_name : List PropertyDeltaManifestEntry → List ℕ → Bool
is_active_name [] name = false
is_active_name (e ∷ active) name = eq_bytes e.file_name name || is_active_name active name

unfoldable pub is_orphan : List PropertyDeltaManifestEntry → List ℕ → Bool
is_orphan active name =
    (starts_with delta_prefix name
      && has_part delta_extension name
      && not (is_active_name active name))
    || has_part temporary_part name
