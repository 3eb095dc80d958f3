-- ===== src/Manifest/Append.antt =====
-- src/property_delta_manifest.cpp: OpenAndRecover, AppendRecord, AppendAdd and AppendRemove. The
-- answers of the operating system are arguments; `log` is the contents of the manifest file.
use rich_graph.Base.{
  ℕ, ◌+◌, ◌-◌, ◌%◌, ◌^◌, Bool, false, not, List, [], ◌∷◌, ◌++◌, take, length, is_empty, ◌==◌, ltb,
  ◌&&◌, ◌||◌, if◌then◌else◌,
}
use rich_graph.Io.{WriteReturn, done, Written, write_all}
use rich_graph.Delta.Create.{DeltaDurability, is_crash_safe}
use rich_graph.Manifest.{
  PropertyDeltaManifestEntry, valid_file_name, encode_add, encode_remove, apply_add, apply_remove,
}
use rich_graph.Manifest.Record.{add_record, remove_record, record_bytes}
use rich_graph.Manifest.Recover.{
  Result, ok, err, Recovery, start, recover, create_directory_failed, open_failed, fstat_failed,
  truncate_failed, fdatasync_repaired_failed, payload_too_long, write_failed, fdatasync_failed,
  not_a_basename, invalid_remove_name,
}

pub record Manifest : Type 0 where
  pub durability : DeltaDurability
  pub next_edit_sequence : ℕ
  pub active_entries : List PropertyDeltaManifestEntry
  pub log : List ℕ

pub record OpenIo : Type 0 where
  pub creates_directories : Bool
  pub opens : Bool
  pub fstats : Bool
  pub readable : ℕ → Bool
  pub truncates : Bool
  pub fdatasyncs : Bool

-- From the end of the loop on.
abbrev pub repair : DeltaDurability → OpenIo → List ℕ → Result Recovery → Result Manifest
repair durability io log (err e) = err e
repair durability io log (ok s) =
    let opened : Manifest = record {
      durability = durability;
      next_edit_sequence = (s.last_sequence + 1) % 2 ^ 64;
      active_entries = s.active_entries;
      log = take s.offset log;
    } in
    if s.offset == length log
    then ok opened
    else if not io.truncates
    then err truncate_failed
    else if is_crash_safe durability && not io.fdatasyncs
    then err fdatasync_repaired_failed
    else ok opened

unfoldable pub open_and_recover : DeltaDurability → OpenIo → List ℕ → Result Manifest
open_and_recover durability io log =
    if not io.creates_directories
    then err create_directory_failed
    else if not io.opens
    then err open_failed
    else if not io.fstats
    then err fstat_failed
    else repair durability io log (recover io.readable log start)

pub record AppendIo : Type 0 where
  pub writes : List WriteReturn
  pub fdatasyncs : Bool

-- The manifest after the call beside the result: what was written stays in the file.
abbrev pub finish_append : Manifest → AppendIo → Written → Result (Unit {0}) × Manifest
finish_append m io w =
    let m' : Manifest = record m { log = m.log ++ w.bytes } in
    elim w.status [
      | done ↦
          if is_crash_safe m.durability && not io.fdatasyncs
          then (err fdatasync_failed, m')
          else (ok tt, record m' { next_edit_sequence = (m.next_edit_sequence + 1) % 2 ^ 64 })
      | _ ↦ (err write_failed, m')
    ]

unfoldable pub append_record : ℕ → List ℕ → AppendIo → Manifest → Result (Unit {0}) × Manifest
append_record type_code payload io m =
    if ltb (2 ^ 32 - 1) (length payload)
    then (err payload_too_long, m)
    else finish_append m io
        (write_all io.writes (record_bytes type_code m.next_edit_sequence payload))

abbrev pub set_active :
    List PropertyDeltaManifestEntry → Result (Unit {0}) × Manifest → Result (Unit {0}) × Manifest
set_active active (err e, m) = (err e, m)
set_active active (ok t, m) = (ok t, record m { active_entries = active })

unfoldable pub append_add :
    PropertyDeltaManifestEntry → AppendIo → Manifest → Result (Unit {0}) × Manifest
append_add entry io m =
    if not (valid_file_name entry.file_name)
    then (err not_a_basename, m)
    else set_active (apply_add m.active_entries entry)
        (append_record add_record (encode_add entry) io m)

unfoldable pub any_invalid : List (List ℕ) → Bool
any_invalid [] = false
any_invalid (name ∷ names) =
    (not (valid_file_name name) || ltb (2 ^ 32 - 1) (length name)) || any_invalid names

unfoldable pub append_remove : List (List ℕ) → AppendIo → Manifest → Result (Unit {0}) × Manifest
append_remove file_names io m =
    if is_empty file_names
    then (ok tt, m)
    else if ltb (2 ^ 32 - 1) (length file_names) || any_invalid file_names
    then (err invalid_remove_name, m)
    else set_active (apply_remove m.active_entries file_names)
        (append_record remove_record (encode_remove file_names) io m)
