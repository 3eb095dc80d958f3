-- ===== src/Manifest/Retry.antt =====
-- src/property_delta_manifest.cpp: AppendAdd after an AppendAdd whose fdatasync failed. The member
-- next_edit_sequence_ is raised behind the fdatasync, and the record is in the file before it.
use rich_graph.Base.{
  ℕ, ◌+◌, ◌-◌, ◌^◌, ◌≤◌, ◌<◌, List, ◌++◌, length, ◌≡◌, refl, ◌∙◌, arith, append_assoc,
}
use rich_graph.Io.{write_all-done}
use rich_graph.Delta.Create.{DeltaDurability}
use rich_graph.Manifest.{PropertyDeltaManifestEntry, encode_add, apply_add}
use rich_graph.Manifest.Record.{add_record, record_bytes}
use rich_graph.Manifest.Codec.{EntryInRange}
use rich_graph.Manifest.Fuel.{always, recover_go_on, recover_leave}
use rich_graph.Manifest.Replay.{round-record_bytes}
use rich_graph.Manifest.Recover.{ManifestError, ok, err, start, recover, sequence_not_increasing}
use rich_graph.Manifest.Append.{
  Manifest, OpenIo, open_and_recover, AppendIo, append_record, set_active, append_add,
}
use rich_graph.Manifest.Reopen.{state_of, IsConsistent, Opens}
pub use rich_graph.Manifest.Atomic.{append_record_ok, add-Edit, add_applies}
use rich_graph.Manifest.Recover.{fdatasync_failed}
use rich_graph.Manifest.Replay.{round-stale_record}

append_record_unsynced :
    (type_code : ℕ) (payload : List ℕ) (io : AppendIo) (m : Manifest)
    (active : List PropertyDeltaManifestEntry)
    → (set_active active (append_record type_code payload io m)).0 ≡ err fdatasync_failed
    → (set_active active (append_record type_code payload io m)).1
      ≡ record m { log = m.log ++ record_bytes type_code m.next_edit_sequence payload }
unfolding append_record
append_record_unsynced type_code payload io m active e =
    ground (arith, write_all-done io.writes (record_bytes type_code m.next_edit_sequence payload))

open_refused :
    (durability : DeltaDurability) (io : OpenIo) (log : List ℕ) (e : ManifestError)
    → Opens io
    → recover always log start ≡ err e
    → open_and_recover durability io log ≡ err e
unfolding open_and_recover
open_refused durability io log e o r =
    rw (o.creates_directories, o.opens, o.fstats, o.readable, r) refl

module _ (e1 e2 : PropertyDeltaManifestEntry) (m : Manifest) (io1 io2 : AppendIo)
    (reopening : OpenIo) (consistent : IsConsistent m) (in_range1 : EntryInRange e1)
    (in_range2 : EntryInRange e2) (name_fits1 : length e1.file_name ≤ 2 ^ 30 - 76)
    (name_fits2 : length e2.file_name ≤ 2 ^ 30 - 76) (room : m.next_edit_sequence + 1 < 2 ^ 64)
    (opens : Opens reopening) where
  twice :
      recover always
        ((m.log ++ record_bytes add_record m.next_edit_sequence (encode_add e1))
          ++ record_bytes add_record m.next_edit_sequence (encode_add e2))
        start
      ≡ err sequence_not_increasing
  twice =
      let first = record_bytes add_record m.next_edit_sequence (encode_add e1) in
      let second = record_bytes add_record m.next_edit_sequence (encode_add e2) in
      rw append_assoc (
        consistent.replays (first ++ second)
        ∙ recover_go_on always (first ++ second) second (state_of m) _ (
            round-record_bytes add_record m.next_edit_sequence (encode_add e1) (state_of m)
              (add-Edit e1 m consistent name_fits1) (apply_add m.active_entries e1) second
              (add_applies e1 m.active_entries in_range1))
        ∙ recover_leave always second _ _ (
            round-stale_record add_record m.next_edit_sequence (encode_add e2) (state_of m)
              (add-Edit e2 m consistent name_fits2) _ (omega arith)))

  -- From a consistent manifest, with entries in range whose records recovery takes, room for a
  -- sequence and an opening whose system calls succeed, if AppendAdd fails at its fdatasync and a
  -- second AppendAdd on the same object returns true, then opening the file fails because two
  -- records have the same edit sequence.
  pub append_add_after_failed_sync :
      (append_add e1 io1 m).0 ≡ err fdatasync_failed
      → (append_add e2 io2 (append_add e1 io1 m).1).0 ≡ ok tt
      → open_and_recover m.durability reopening (append_add e2 io2 (append_add e1 io1 m).1).1.log
        ≡ err sequence_not_increasing
  unfolding append_add
  append_add_after_failed_sync =
      rw (in_range1.valid_name, in_range2.valid_name)
        (λ h.
          let m1 = append_record_unsynced add_record (encode_add e1) io1 m _ h in
          rw m1 (λ k.
            rw
              (append_record_ok add_record (encode_add e2) io2
                (record m {
                  log = m.log ++ record_bytes add_record m.next_edit_sequence (encode_add e1);
                })
                _ room k)
              (open_refused m.durability reopening _ sequence_not_increasing opens twice)))
