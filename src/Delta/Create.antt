-- ===== src/Delta/Create.antt =====
-- src/property_delta.cpp: PropertyDeltaFile::Create. The answers of the operating system are the
-- record `CreateIo`; the directory is what stands at the path and at the temporary name.
use rich_graph.Base.{
  ℕ, Bool, true, false, not, Option, none, some, List, [], ◌∷◌, ◌++◌, is_empty, ◌==◌, ◌&&◌,
  if◌then◌else◌,
}
use rich_graph.Io.{WriteReturn, done, write_all}
use rich_graph.Delta.{PropertyDeltaTarget, PropertyDeltaRecord}
use rich_graph.Delta.Error.{
  Result, ok, err, DeltaError, empty_delta, invalid_file_id, open_failed, write_failed,
  fdatasync_failed, close_failed, rename_failed, sync_failed,
}
use rich_graph.Delta.Build.{stable_sort, deduplicate, build, build_start, BuildState}
use rich_graph.Delta.Image.{encode_header, encode_records, create_header}
use rich_graph.Delta.File.{PropertyDeltaFile, open_and_validate}

pub data DeltaDurability : Type 0 where
  not_durable process_crash_safe : DeltaDurability

abbrev pub is_crash_safe : DeltaDurability → Bool
is_crash_safe not_durable = false
is_crash_safe process_crash_safe = true

-- INVALID_File_ID.
abbrev pub invalid_id : ℕ
invalid_id = 2147483647

-- The records in memory, up to the header.
unfoldable pub create_state : PropertyDeltaTarget → List PropertyDeltaRecord → Result BuildState
create_state target records =
    if is_empty records
    then err empty_delta
    else if target.base_file_id == invalid_id
    then err invalid_file_id
    else build (deduplicate (stable_sort records)) build_start

-- Whether each call succeeds; `writes` is what the kernel answers to `write`, call after call.
-- `reopen` is the error of `open`, `fstat` or `mmap` in Open, if there is one.
pub record CreateIo : Type 0 where
  pub opens : Bool
  pub writes : List WriteReturn
  pub fdatasyncs : Bool
  pub closes : Bool
  pub renames : Bool
  pub syncs_directory : Bool
  pub reopen : Option DeltaError

pub record Directory : Type 0 where
  pub at_path : Option (List ℕ)
  pub at_temporary : Option (List ℕ)

-- `WriteAll(a) && WriteAll(b) && …`: the calls share the kernel's answers, and stop at a failure.
unfoldable pub write_parts : List WriteReturn → List (List ℕ) → Bool × List ℕ
write_parts answers [] = (true, [])
write_parts answers (part ∷ parts) =
    let w = write_all answers part in
    let rest = write_parts w.answers parts in
    elim w.status [ done ↦ (rest.0, w.bytes ++ rest.1) | _ ↦ (false, w.bytes) ]

abbrev pub no_error : Option DeltaError → Result PropertyDeltaFile → Result PropertyDeltaFile
no_error none r = r
no_error (some e) r = err e

-- From the first write to the return: `written` tells whether the writes went through.
unfoldable pub publish :
    List ℕ
    → DeltaDurability
    → CreateIo
    → Directory
    → Bool × List ℕ
    → Result PropertyDeltaFile × Directory
publish path durability io dir (written, content) =
    let dropped : Directory = record dir { at_temporary = none } in
    let renamed : Directory = record { at_path = some content; at_temporary = none } in
    if not written
    then (err write_failed, dropped)
    else if is_crash_safe durability && not io.fdatasyncs
    then (err fdatasync_failed, dropped)
    else if not io.closes
    then (err close_failed, dropped)
    else if not io.renames
    then (err rename_failed, dropped)
    else if is_crash_safe durability && not io.syncs_directory
    then (err sync_failed, renamed)
    else (no_error io.reopen (open_and_validate path content), renamed)

abbrev pub create_from :
    List ℕ
    → PropertyDeltaTarget
    → ℕ
    → DeltaDurability
    → CreateIo
    → Directory
    → Result BuildState
    → Result PropertyDeltaFile × Directory
create_from path target file_generation durability io dir (err e) = (err e, dir)
create_from path target file_generation durability io dir (ok s) =
    if not io.opens
    then (err open_failed, dir)
    else publish path durability io dir (
        write_parts io.writes (
          encode_header (create_header target file_generation s)
          ∷ encode_records s.disk_records
          ∷ s.values
          ∷ []))

-- Returns the open file or the error, and the directory as it is left.
unfoldable pub create :
    List ℕ
    → PropertyDeltaTarget
    → ℕ
    → List PropertyDeltaRecord
    → DeltaDurability
    → CreateIo
    → Directory
    → Result PropertyDeltaFile × Directory
create path target file_generation records durability io dir =
    create_from path target file_generation durability io dir (create_state target records)
