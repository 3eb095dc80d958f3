-- ===== src/Manifest/Codec.antt =====
-- src/property_delta_manifest.cpp: EncodeAdd, DecodeAdd, EncodeRemove, DecodeRemove and the header of
-- a record, read back.
use rich_graph.Base.{
  ℕ, ◌+◌, ◌-◌, ◌^◌, ◌≤◌, ◌<◌, Bool, true, false, not, some, List, [], ◌∷◌, ◌++◌, take, drop, length,
  All, ◌≡◌, refl, sym, ap, arith, append_assoc, take_append, drop_append, length-append, ◌==◌, ltb,
}
use rich_graph.Pod.{encode_fields, decode_fields, encode_le, values}
use rich_graph.Pod.Laws.{
  Fits, length-encode_fields, decode_fields-encode_fields, length-encode_le, decode_le-encode_le,
}
use rich_graph.Fnv.{extend_checksum, fnv_offset}
use rich_graph.Delta.{PropertyObjectKind, node, edge, kind_code}
use rich_graph.Delta.Image.{is_valid_object_kind}
use rich_graph.Delta.File.{object_kind}
use rich_graph.Delta.Codec.{extend_checksum-lt}
use rich_graph.Delta.Reopen.{TargetInRange}
use rich_graph.Manifest.{
  PropertyDeltaManifestEntry, valid_file_name, bool_byte, add_fields, add_widths, encode_add,
  decode_add, entry_of_fields, encode_names, encode_remove, consume_u32, consume_name, decode_names,
  decode_remove,
}
use rich_graph.Manifest.Record.{
  ManifestDiskHeader, header_fields, encode_header, decode_header, record_checksum, fresh_header,
  record_header, record_bytes,
}

-- The members of an entry hold what their C++ types hold, and the name is one that AppendAdd takes.
pub record EntryInRange (e : PropertyDeltaManifestEntry) : Type 0 where
  pub target : TargetInRange e.metadata.target
  pub file_generation : e.metadata.file_generation < 2 ^ 64
  pub record_count : e.metadata.record_count < 2 ^ 64
  pub file_bytes : e.metadata.file_bytes < 2 ^ 64
  pub min_commit_sequence : e.metadata.min_commit_sequence < 2 ^ 64
  pub max_commit_sequence : e.metadata.max_commit_sequence < 2 ^ 64
  pub payload_checksum : e.metadata.payload_checksum < 2 ^ 64
  pub name_length : length e.file_name < 2 ^ 32
  pub valid_name : valid_file_name e.file_name ≡ true

kind_code-lt : (k : PropertyObjectKind) → kind_code k < 256
kind_code-lt node = omega arith
kind_code-lt edge = omega arith

bool_byte-le : (b : Bool) → bool_byte b ≤ 1
bool_byte-le true = omega arith
bool_byte-le false = omega arith

add_fields-Fits : (e : PropertyDeltaManifestEntry) → EntryInRange e → Fits (add_fields e)
add_fields-Fits e r =
    let t = r.target in
    let k = kind_code-lt e.metadata.target.kind in
    let b = bool_byte-le e.target_is_persistent in
    omega (
      arith, k, b, t.shard_id, t.property_id, t.base_file_id, t.base_generation, r.file_generation,
      r.record_count, r.file_bytes, r.min_commit_sequence, r.max_commit_sequence,
      r.payload_checksum, r.name_length,
    )

kind_back : (k : PropertyObjectKind) → object_kind (kind_code k) ≡ k
kind_back node = refl
kind_back edge = refl

kind_valid : (k : PropertyObjectKind) → is_valid_object_kind (kind_code k) ≡ true
kind_valid node = refl
kind_valid edge = refl

bool_back : (b : Bool) → not (bool_byte b == 0) ≡ b
bool_back true = refl
bool_back false = refl

bool_valid : (b : Bool) → ltb 1 (bool_byte b) ≡ false
bool_valid true = refl
bool_valid false = refl

pub length-encode_add :
    (e : PropertyDeltaManifestEntry) → length (encode_add e) ≡ 76 + length e.file_name
unfolding encode_add
length-encode_add e = omega (
  arith,
  length-append (encode_fields (add_fields e)) e.file_name,
  length-encode_fields (add_fields e),
)

length-add_fields : (e : PropertyDeltaManifestEntry) → length (encode_fields (add_fields e)) ≡ 76
length-add_fields e = length-encode_fields (add_fields e)

entry_back :
    (e : PropertyDeltaManifestEntry) → entry_of_fields (values (add_fields e)) e.file_name ≡ e
entry_back e = simp (kind_back e.metadata.target.kind, bool_back e.target_is_persistent)

pub take-length : (xs : List ℕ) → take (length xs) xs ≡ xs
take-length [] = refl
take-length (x ∷ xs) = ap (◌∷◌ x) (take-length xs)

size_tests : (n k : ℕ) → n ≡ 76 + k → (ltb n 76 ≡ false) × ((k == n - 76) ≡ true)
size_tests n k e = (ground arith, ground arith)

decode_add_parts :
    (e : PropertyDeltaManifestEntry) (payload : List ℕ)
    → valid_file_name e.file_name ≡ true
    → decode_fields add_widths payload ≡ values (add_fields e)
    → drop 76 payload ≡ e.file_name
    → length payload ≡ 76 + length e.file_name
    → decode_add payload ≡ some e
unfolding decode_add
decode_add_parts e payload v fs name size =
    simp
      (
        fs,
        name,
        take-length e.file_name,
        v,
        kind_valid e.metadata.target.kind,
        bool_valid e.target_is_persistent,
        entry_back e,
      )
      (rw
        (
          (size_tests (length payload) (length e.file_name) size).0,
          (size_tests (length payload) (length e.file_name) size).1,
        )
        refl)

-- DecodeAdd reads back the entry that EncodeAdd wrote, for an entry whose fields and name are in
-- range.
pub decode_add-encode_add :
    (e : PropertyDeltaManifestEntry) → EntryInRange e → decode_add (encode_add e) ≡ some e
unfolding encode_add
decode_add-encode_add e r =
    let fields = encode_fields (add_fields e) in
    let size = length-add_fields e in
    decode_add_parts e (fields ++ e.file_name) r.valid_name
      (decode_fields-encode_fields (add_fields e) e.file_name (add_fields-Fits e r))
      (drop_append fields e.file_name 76 (sym size))
      (omega (arith, length-append fields e.file_name))

abbrev pub NameInRange : List ℕ → Type 0
NameInRange name = (length name < 2 ^ 32) × (valid_file_name name ≡ true)

consume_u32-encode_le :
    (v : ℕ) (rest : List ℕ) → v < 2 ^ 32 → consume_u32 (encode_le 4 v ++ rest) ≡ some (v, rest)
unfolding consume_u32
consume_u32-encode_le v rest h =
    let size = length-encode_le 4 v in
    simp
      (
        take_append (encode_le 4 v) rest 4 (sym size),
        drop_append (encode_le 4 v) rest 4 (sym size),
        decode_le-encode_le 4 v (omega arith),
      )
      (ground (arith, length-append (encode_le 4 v) rest))

consume_name-encode_names :
    (name rest : List ℕ)
    → NameInRange name
    → consume_name (encode_le 4 (length name) ++ (name ++ rest)) ≡ some (name, rest)
unfolding consume_name
consume_name-encode_names name rest h =
    simp
      (
        consume_u32-encode_le (length name) (name ++ rest) h.0,
        take_append name rest (length name) refl,
        drop_append name rest (length name) refl,
        h.1,
      )
      (ground (arith, length-append name rest))

decode_names-encode_names :
    (names : List (List ℕ))
    → All NameInRange names
    → decode_names (length names) (encode_names names) ≡ some names
unfolding decode_names encode_names
decode_names-encode_names [] h = refl
decode_names-encode_names (name ∷ names) h =
    simp
      (consume_name-encode_names name (encode_names names) h.0, decode_names-encode_names names h.1)

-- DecodeRemove reads back the names that EncodeRemove wrote, for fewer than 2 ^ 32 names in range.
pub decode_remove-encode_remove :
    (names : List (List ℕ))
    → length names < 2 ^ 32
    → All NameInRange names
    → decode_remove (encode_remove names) ≡ some names
unfolding decode_remove encode_remove
decode_remove-encode_remove names h k =
    simp (
      consume_u32-encode_le (length names) (encode_names names) h,
      decode_names-encode_names names k,
    )

-- The header of a record that AppendRecord builds.
pub length-header_bytes :
    (h : ManifestDiskHeader) → length h.magic ≡ 8 → length (encode_header h) ≡ 36
unfolding encode_header
length-header_bytes h m = omega (
  arith,
  length-append h.magic (encode_fields (header_fields h)),
  length-encode_fields (header_fields h),
)

header_back :
    (h : ManifestDiskHeader) (rest : List ℕ)
    → length h.magic ≡ 8
    → Fits (header_fields h)
    → decode_header (encode_header h ++ rest) ≡ h
unfolding decode_header encode_header
header_back h rest m fits =
    let fields = encode_fields (header_fields h) in
    simp (
      append_assoc,
      take_append h.magic (fields ++ rest) 8 (sym m),
      drop_append h.magic (fields ++ rest) 8 (sym m),
      decode_fields-encode_fields (header_fields h) rest fits,
    )

record_checksum-lt :
    (h : ManifestDiskHeader) (payload : List ℕ) → record_checksum h payload < 2 ^ 64
unfolding record_checksum
record_checksum-lt h payload =
    let blank = encode_header (record h { checksum = 0 }) in
    extend_checksum-lt (extend_checksum fnv_offset blank) payload
      (extend_checksum-lt fnv_offset blank (omega arith))

pub decode_header-record_header :
    (type_code edit_sequence : ℕ) (payload rest : List ℕ)
    → type_code < 256
    → edit_sequence < 2 ^ 64
    → length payload < 2 ^ 32
    → decode_header (encode_header (record_header type_code edit_sequence payload) ++ rest)
      ≡ record_header type_code edit_sequence payload
unfolding record_header
decode_header-record_header type_code edit_sequence payload rest t e p =
    let h = fresh_header type_code edit_sequence payload in
    let c = record_checksum-lt h payload in
    header_back (record_header type_code edit_sequence payload) rest refl
      (omega (arith, c, t, e, p))

pub length-record_bytes :
    (type_code edit_sequence : ℕ) (payload : List ℕ)
    → length (record_bytes type_code edit_sequence payload) ≡ 36 + length payload
unfolding record_bytes record_header
length-record_bytes type_code edit_sequence payload =
    let h = record_header type_code edit_sequence payload in
    omega (arith, length-append (encode_header h) payload, length-header_bytes h refl)
