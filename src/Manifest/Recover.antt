-- ===== src/Manifest/Recover.antt =====
-- src/property_delta_manifest.cpp: the loop of OpenAndRecover over the manifest's bytes.
-- `readable` tells whether ReadAllAt at an offset returns true.
use rich_graph.Base.{
  ℕ, zero, suc, ◌+◌, ◌^◌, Bool, not, Option, none, some, List, [], take, drop, length, is_empty,
  ◌==◌, ltb, leb, ◌&&◌, ◌||◌, if◌then◌else◌, eq_bytes,
}
use rich_graph.Manifest.{
  PropertyDeltaManifestEntry, decode_add, decode_remove, apply_add, apply_remove,
}
use rich_graph.Manifest.Record.{
  ManifestDiskHeader, manifest_magic, manifest_version, add_record, remove_record, header_size,
  decode_header, record_checksum,
}

-- The messages of SetError.
pub data ManifestError : Type 0 where
  create_directory_failed open_failed fstat_failed : ManifestError
  invalid_header checksum_mismatch sequence_not_increasing : ManifestError
  invalid_add_payload invalid_remove_payload : ManifestError
  truncate_failed fdatasync_repaired_failed : ManifestError
  payload_too_long write_failed fdatasync_failed not_a_basename invalid_remove_name : ManifestError

pub data Result {ℓ} (A : Type ℓ) : Type ℓ where
  ok : A → Result A
  err : ManifestError → Result A

-- The variables of the loop. Where its test is made `offset` and `valid_end` are equal.
pub record Recovery : Type 0 where
  pub offset : ℕ
  pub last_sequence : ℕ
  pub active_entries : List PropertyDeltaManifestEntry

-- A round leaves the loop, by `break` or by `return false`, or goes on with the bytes that follow.
pub data Round : Type 0 where
  leave : Result Recovery → Round
  go_on : List ℕ → Recovery → Round

abbrev pub header_refused : ManifestDiskHeader → Bool
header_refused h =
    not (eq_bytes h.magic manifest_magic)
    || (not (h.version == manifest_version)
        || ((not (h.type_code == add_record) && not (h.type_code == remove_record))
            || ltb (2 ^ 30) h.payload_bytes))

abbrev pub added :
    List PropertyDeltaManifestEntry
    → Option PropertyDeltaManifestEntry
    → Result (List PropertyDeltaManifestEntry)
added active none = err invalid_add_payload
added active (some entry) = ok (apply_add active entry)

abbrev pub removed :
    List PropertyDeltaManifestEntry
    → Option (List (List ℕ))
    → Result (List PropertyDeltaManifestEntry)
removed active none = err invalid_remove_payload
removed active (some names) = ok (apply_remove active names)

-- The edit that the payload stands for.
unfoldable pub apply_edit :
    ℕ → List ℕ → List PropertyDeltaManifestEntry → Result (List PropertyDeltaManifestEntry)
apply_edit type_code payload active =
    if type_code == add_record
    then added active (decode_add payload)
    else removed active (decode_remove payload)

abbrev pub after_edit :
    ManifestDiskHeader → List ℕ → Recovery → Result (List PropertyDeltaManifestEntry) → Round
after_edit h rest s (err e) = leave (err e)
after_edit h rest s (ok active) = go_on (drop (header_size + h.payload_bytes) rest) (record {
  offset = s.offset + (header_size + h.payload_bytes);
  last_sequence = h.edit_sequence;
  active_entries = active;
})

-- What follows once the header and the payload are there.
unfoldable pub check_record : ManifestDiskHeader → List ℕ → List ℕ → Recovery → Round
check_record h payload rest s =
    if not (record_checksum h payload == h.checksum)
    then if header_size + h.payload_bytes == length rest
      then leave (ok s)
      else leave (err checksum_mismatch)
    else if leb h.edit_sequence s.last_sequence
    then leave (err sequence_not_increasing)
    else after_edit h rest s (apply_edit h.type_code payload s.active_entries)

unfoldable pub round : (ℕ → Bool) → List ℕ → Recovery → Round
round readable rest s =
    let h = decode_header rest in
    let payload = take h.payload_bytes (drop header_size rest) in
    if is_empty rest
    then leave (ok s)
    else if ltb (length rest) header_size
    then leave (ok s)
    else if not (readable s.offset)
    then leave (ok s)
    else if header_refused h
    then leave (err invalid_header)
    else if ltb (length rest) (header_size + h.payload_bytes)
    then leave (ok s)
    else if not (h.payload_bytes == 0) && not (readable (s.offset + header_size))
    then leave (ok s)
    else check_record h payload rest s

abbrev pub after_round : Round → (List ℕ → Recovery → Result Recovery) → Result Recovery
after_round (leave r) next = r
after_round (go_on rest s) next = next rest s

-- Each round that goes on takes 36 bytes at least, so as much fuel as bytes is enough.
unfoldable pub recover_loop : ℕ → (ℕ → Bool) → List ℕ → Recovery → Result Recovery
recover_loop zero readable rest s = ok s
recover_loop (suc fuel) readable rest s =
    after_round (round readable rest s) (recover_loop fuel readable)

abbrev pub start : Recovery
start = record { offset = 0; last_sequence = 0; active_entries = [] }

unfoldable pub recover : (ℕ → Bool) → List ℕ → Recovery → Result Recovery
unfolding recover_loop
recover readable rest s = recover_loop (length rest) readable rest s
