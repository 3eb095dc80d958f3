-- ===== src/Tests/Manifests.antt =====
-- src/property_delta_manifest.cpp: the theorems at a manifest of one entry.
use rich_graph.Base.{
  ◌+◌, ◌^◌, ◌<◌, ◌≤◌, true, false, some, [], ◌∷◌, take, length, All, eq_bytes, ◌≡◌, refl, arith,
  ◌⊎◌,
}
use rich_graph.Io.{interrupted, wrote, failed, write_all}
use rich_graph.Pod.{encode_le, encode_fields}
use rich_graph.Delta.Create.{process_crash_safe}
use rich_graph.Manifest.{
  PropertyDeltaManifestEntry, valid_file_name, encode_add, decode_add, encode_names, encode_remove,
  decode_remove, apply_add, apply_remove,
}
use rich_graph.Manifest.Record.{add_record, record_bytes, encode_header, record_header}
use rich_graph.Manifest.Codec.{
  EntryInRange, NameInRange, decode_add-encode_add, decode_remove-encode_remove,
}
use rich_graph.Manifest.Recover.{
  ok, err, start, recover_loop, fdatasync_failed, sequence_not_increasing,
}
use rich_graph.Manifest.Append.{
  Manifest, OpenIo, open_and_recover, AppendIo, append_record, any_invalid, append_add,
  append_remove,
}
use rich_graph.Manifest.Fuel.{always, recover_loop_fuel}
use rich_graph.Manifest.Reopen.{IsConsistent, Opens, open-cut_record}
use rich_graph.Manifest.Atomic.{append_add_atomic, append_add_reopens, add-Edit, add_applies}
use rich_graph.Manifest.Removal.{append_remove_atomic, append_remove_reopens}
use rich_graph.Manifest.Retry.{append_add_after_failed_sync}
use rich_graph.Tests.Data.{target, path}
use rich_graph.Tests.DeltaFiles.{target_fits}

abbrev entry : PropertyDeltaManifestEntry
entry = record {
  file_name = path;
  metadata = record {
    target = target;
    file_generation = 1;
    record_count = 3;
    file_bytes = 267;
    min_commit_sequence = 5;
    max_commit_sequence = 8;
    payload_checksum = 12345;
  };
  target_is_persistent = false;
}

path_valid : valid_file_name path ≡ true
unfolding valid_file_name eq_bytes
path_valid = refl

entry_fits : EntryInRange entry
entry_fits = record {
  target = target_fits;
  file_generation = omega arith;
  record_count = omega arith;
  file_bytes = omega arith;
  min_commit_sequence = omega arith;
  max_commit_sequence = omega arith;
  payload_checksum = omega arith;
  name_length = omega arith;
  valid_name = path_valid;
}

abbrev pub fresh : Manifest
fresh = record {
  durability = process_crash_safe;
  next_edit_sequence = 1;
  active_entries = [];
  log = [];
}

fresh-IsConsistent : IsConsistent fresh
fresh-IsConsistent = record { positive = omega arith; fits = omega arith; replays = λ tail. refl }

-- A record of 113 bytes, in two writes.
abbrev good_append : AppendIo
good_append = record { writes = wrote 40 ∷ interrupted ∷ wrote 73 ∷ []; fdatasyncs = true }

abbrev broken_append : AppendIo
broken_append = record { writes = wrote 40 ∷ failed ∷ []; fdatasyncs = true }

abbrev unsynced_append : AppendIo
unsynced_append = record { writes = wrote 113 ∷ []; fdatasyncs = false }

abbrev pub good_open : OpenIo
good_open = record {
  creates_directories = true;
  opens = true;
  fstats = true;
  readable = always;
  truncates = true;
  fdatasyncs = true;
}

good_open-Opens : Opens good_open
good_open-Opens = record {
  creates_directories = refl;
  opens = refl;
  fstats = refl;
  readable = refl;
  truncates = refl;
  fdatasyncs = refl;
}

appended : (append_add entry good_append fresh).0 ≡ ok tt
unfolding append_add valid_file_name eq_bytes append_record encode_add encode_fields write_all
    record_bytes encode_header record_header
appended = refl

name_fits : All NameInRange (path ∷ [])
name_fits = ((omega arith, path_valid), tt)

decode_add-encode_add_example : decode_add (encode_add entry) ≡ some entry
decode_add-encode_add_example = decode_add-encode_add entry entry_fits

decode_remove-encode_remove_example : decode_remove (encode_remove (path ∷ [])) ≡ some (path ∷ [])
decode_remove-encode_remove_example =
    decode_remove-encode_remove (path ∷ []) (omega arith) name_fits

append_add_atomic_example :
    (r : Manifest) × (open_and_recover process_crash_safe good_open
        (append_add entry broken_append fresh).1.log
      ≡ ok r)
    × ((r.active_entries ≡ []) ⊎ (r.active_entries ≡ apply_add [] entry))
append_add_atomic_example =
    append_add_atomic entry fresh broken_append good_open fresh-IsConsistent entry_fits
      (omega arith) (omega arith) good_open-Opens

append_add_reopens_example :
    ((append_add entry good_append fresh).1.active_entries ≡ apply_add [] entry)
    × (open_and_recover process_crash_safe good_open (append_add entry good_append fresh).1.log
        ≡ ok (append_add entry good_append fresh).1)
    × IsConsistent (append_add entry good_append fresh).1
append_add_reopens_example =
    append_add_reopens entry fresh good_append good_open fresh-IsConsistent entry_fits (omega arith)
      (omega arith) good_open-Opens appended

-- The manifest with its entry, and the file without its fdatasync.
abbrev one_entry : Manifest
one_entry = (append_add entry good_append fresh).1

one_entry-IsConsistent : IsConsistent one_entry
one_entry-IsConsistent =
    (append_add_reopens entry fresh good_append good_open fresh-IsConsistent entry_fits
      (omega arith) (omega arith) good_open-Opens appended).2

removal_fits : length (encode_remove (path ∷ [])) ≤ 2 ^ 30
unfolding encode_remove encode_names encode_le
removal_fits = omega arith

room : one_entry.next_edit_sequence + 1 < 2 ^ 64
unfolding append_add valid_file_name eq_bytes append_record encode_add encode_fields write_all
    record_bytes encode_header record_header
room = omega arith

-- A record of 45 bytes.
abbrev good_removal : AppendIo
good_removal = record { writes = wrote 45 ∷ []; fdatasyncs = true }

append_remove_atomic_example :
    (r : Manifest) × (open_and_recover one_entry.durability good_open
        (append_remove (path ∷ []) broken_append one_entry).1.log
      ≡ ok r)
    × ((r.active_entries ≡ one_entry.active_entries)
        ⊎ (r.active_entries ≡ apply_remove one_entry.active_entries (path ∷ [])))
append_remove_atomic_example =
    append_remove_atomic (path ∷ []) one_entry broken_append good_open one_entry-IsConsistent
      (λ e. cc) (omega arith) name_fits removal_fits room good_open-Opens

removed : (append_remove (path ∷ []) good_removal one_entry).0 ≡ ok tt
unfolding append_remove any_invalid valid_file_name eq_bytes append_record encode_remove encode_le
    encode_names write_all record_bytes encode_header record_header encode_fields append_add
    encode_add
removed = refl

append_remove_reopens_example :
    ((append_remove (path ∷ []) good_removal one_entry).1.active_entries
      ≡ apply_remove one_entry.active_entries (path ∷ []))
    × (open_and_recover one_entry.durability good_open
          (append_remove (path ∷ []) good_removal one_entry).1.log
        ≡ ok (append_remove (path ∷ []) good_removal one_entry).1)
    × IsConsistent (append_remove (path ∷ []) good_removal one_entry).1
append_remove_reopens_example =
    append_remove_reopens (path ∷ []) one_entry good_removal good_open one_entry-IsConsistent
      (λ e. cc) (omega arith) name_fits removal_fits room good_open-Opens removed

unsynced : (append_add entry unsynced_append fresh).0 ≡ err fdatasync_failed
unfolding append_add valid_file_name eq_bytes append_record encode_add encode_fields write_all
    record_bytes encode_header record_header
unsynced = refl

retried : (append_add entry good_append (append_add entry unsynced_append fresh).1).0 ≡ ok tt
unfolding append_add valid_file_name eq_bytes append_record encode_add encode_fields write_all
    record_bytes encode_header record_header
retried = refl

append_add_after_failed_sync_example :
    open_and_recover process_crash_safe good_open
      (append_add entry good_append (append_add entry unsynced_append fresh).1).1.log
    ≡ err sequence_not_increasing
append_add_after_failed_sync_example =
    append_add_after_failed_sync entry entry fresh unsynced_append good_append good_open
      fresh-IsConsistent entry_fits entry_fits (omega arith) (omega arith) (omega arith)
      good_open-Opens unsynced retried

recover_loop_fuel_example :
    recover_loop 3 always (1 ∷ 2 ∷ []) start ≡ recover_loop 2 always (1 ∷ 2 ∷ []) start
recover_loop_fuel_example =
    recover_loop_fuel always 3 2 (1 ∷ 2 ∷ []) start (omega arith) (omega arith)

open-cut_record_example :
    open_and_recover process_crash_safe good_open
      (take 50 (record_bytes add_record 1 (encode_add entry)))
    ≡ ok fresh
unfolding encode_add encode_fields
open-cut_record_example =
    open-cut_record add_record (encode_add entry) fresh (apply_add [] entry) fresh-IsConsistent
      (add-Edit entry fresh fresh-IsConsistent (omega arith)) (add_applies entry [] entry_fits) 50
      good_open (omega arith) good_open-Opens
