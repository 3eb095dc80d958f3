-- ===== src/Manifest/Atomic.antt =====
-- src/property_delta_manifest.cpp: AppendAdd and AppendRemove, followed by OpenAndRecover of the file
-- that they leave, whatever the calls to the operating system return.
use rich_graph.Base.{
  ℕ, ◌+◌, ◌-◌, ◌^◌, ◌≤◌, ◌<◌, List, [], ◌∷◌, ◌++◌, take, length, ◌≡◌, refl, sym, ap, ◌∙◌, ◌⊎◌, inl,
  inr, arith, append-nil, take_append, length-append,
}
use rich_graph.Io.{write_all, write_all-done}
use rich_graph.Manifest.{PropertyDeltaManifestEntry, encode_add, apply_add}
use rich_graph.Manifest.Record.{add_record, record_bytes}
use rich_graph.Manifest.Codec.{
  EntryInRange, decode_add-encode_add, length-record_bytes, length-encode_add,
}
use rich_graph.Manifest.Replay.{Edit}
use rich_graph.Manifest.Recover.{Result, ok, err, apply_edit}
use rich_graph.Manifest.Append.{
  Manifest, OpenIo, open_and_recover, AppendIo, append_record, set_active, append_add,
}
use rich_graph.Manifest.Reopen.{
  state_of, IsConsistent, Opens, edited, edited-IsConsistent, open-cut_record,
  open_and_recover-IsConsistent,
}
use rich_graph.Io.{write_all-Prefix}

pub set_active-log :
    (active : List PropertyDeltaManifestEntry) (r : Result (Unit {0}) × Manifest)
    → (set_active active r).1.log ≡ r.1.log
set_active-log active (err e, m) = refl
set_active-log active (ok t, m) = refl

pub append_record-log :
    (type_code : ℕ) (payload : List ℕ) (io : AppendIo) (m : Manifest)
    → length payload < 2 ^ 32
    → (append_record type_code payload io m).1.log
      ≡ m.log ++ (write_all io.writes (record_bytes type_code m.next_edit_sequence payload)).bytes
unfolding append_record
append_record-log type_code payload io m l = ground arith

pub append_record_ok :
    (type_code : ℕ) (payload : List ℕ) (io : AppendIo) (m : Manifest)
    (active : List PropertyDeltaManifestEntry)
    → m.next_edit_sequence + 1 < 2 ^ 64
    → (set_active active (append_record type_code payload io m)).0 ≡ ok tt
    → (set_active active (append_record type_code payload io m)).1
      ≡ edited type_code payload m active
unfolding append_record
append_record_ok type_code payload io m active l e =
    ground (arith, write_all-done io.writes (record_bytes type_code m.next_edit_sequence payload))

module _ (type_code : ℕ) (payload : List ℕ) (m : Manifest)
    (active : List PropertyDeltaManifestEntry) (io : AppendIo) (reopening : OpenIo)
    (consistent : IsConsistent m) (edit : Edit type_code m.next_edit_sequence payload (state_of m))
    (applies : apply_edit type_code payload m.active_entries ≡ ok active)
    (room : m.next_edit_sequence + 1 < 2 ^ 64) (opens : Opens reopening) where
  open_prefix :
      (written rest : List ℕ)
      → written ++ rest ≡ record_bytes type_code m.next_edit_sequence payload
      → (open_and_recover m.durability reopening (m.log ++ written) ≡ ok m)
        ⊎ (open_and_recover m.durability reopening (m.log ++ written)
            ≡ ok (edited type_code payload m active))
  open_prefix written [] whole = inr (
      ap (λ w. open_and_recover m.durability reopening (m.log ++ w))
        (sym (append-nil written) ∙ whole)
      ∙ open_and_recover-IsConsistent (edited type_code payload m active) reopening
          (edited-IsConsistent type_code payload m active consistent edit applies room) opens)
  open_prefix written (b ∷ bs) whole =
      let total = length-append written (b ∷ bs) in
      let same = ap length whole in
      let size = length-record_bytes type_code m.next_edit_sequence payload in
      inl (
        ap (λ w. open_and_recover m.durability reopening (m.log ++ w))
          (sym (take_append written (b ∷ bs) (length written) refl)
            ∙ ap (take (length written)) whole)
        ∙ open-cut_record type_code payload m active consistent edit applies (length written)
            reopening (omega (arith, total, same, size)) opens)

  -- The members before the call or those after the edit.
  pub append_atomic :
      (open_and_recover m.durability reopening
          (set_active active (append_record type_code payload io m)).1.log
        ≡ ok m)
      ⊎ (open_and_recover m.durability reopening
            (set_active active (append_record type_code payload io m)).1.log
          ≡ ok (edited type_code payload m active))
  append_atomic =
      let cut = write_all-Prefix io.writes (record_bytes type_code m.next_edit_sequence payload) in
      rw
        (
          set_active-log active (append_record type_code payload io m),
          append_record-log type_code payload io m (omega (arith, edit.payload_fits)),
        )
        (open_prefix _ cut.rest cut.splits)

-- An entry that AppendAdd takes, with a record that recovery takes.
pub add-Edit :
    (e : PropertyDeltaManifestEntry) (m : Manifest)
    → IsConsistent m
    → length e.file_name ≤ 2 ^ 30 - 76
    → Edit add_record m.next_edit_sequence (encode_add e) (state_of m)
add-Edit e m c l = record {
  type_known = inl refl;
  later = omega (arith, c.positive);
  sequence_fits = c.fits;
  payload_fits = omega (arith, length-encode_add e, l);
}

pub add_applies :
    (e : PropertyDeltaManifestEntry) (active : List PropertyDeltaManifestEntry)
    → EntryInRange e
    → apply_edit add_record (encode_add e) active ≡ ok (apply_add active e)
unfolding apply_edit
add_applies e active r = rw (decode_add-encode_add e r) refl

module _ (e : PropertyDeltaManifestEntry) (m : Manifest) (io : AppendIo) (reopening : OpenIo)
    (consistent : IsConsistent m) (in_range : EntryInRange e)
    (name_fits : length e.file_name ≤ 2 ^ 30 - 76) (room : m.next_edit_sequence + 1 < 2 ^ 64)
    (opens : Opens reopening) where
  -- For a consistent manifest with room for a sequence, an entry in range whose record recovery
  -- takes, and an opening whose system calls succeed, whatever the writes and the fdatasync of
  -- AppendAdd return, opening the file that it leaves gives the active entries before the call or
  -- those with the entry added.
  pub append_add_atomic :
      (r : Manifest) × (open_and_recover m.durability reopening (append_add e io m).1.log ≡ ok r)
      × ((r.active_entries ≡ m.active_entries) ⊎ (r.active_entries ≡ apply_add m.active_entries e))
  unfolding append_add
  append_add_atomic =
      let active = apply_add m.active_entries e in
      rw in_range.valid_name
        (elim (append_atomic add_record (encode_add e) m active io reopening consistent
          (add-Edit e m consistent name_fits) (add_applies e m.active_entries in_range) room
          opens) [
            | inl before ↦ (m, before, inl refl)
            | inr there ↦ (edited add_record (encode_add e) m active, there, inr refl)
          ])

  -- For a consistent manifest with room for a sequence, an entry in range whose record recovery
  -- takes, and an opening whose system calls succeed, when AppendAdd returns true the active
  -- entries are those of ApplyAdd, opening the file gives the same manifest, and the manifest is
  -- consistent again.
  pub append_add_reopens :
      (append_add e io m).0 ≡ ok tt
      → ((append_add e io m).1.active_entries ≡ apply_add m.active_entries e)
        × (open_and_recover m.durability reopening (append_add e io m).1.log
            ≡ ok (append_add e io m).1)
        × IsConsistent (append_add e io m).1
  unfolding append_add
  append_add_reopens = rw in_range.valid_name (λ h.
      let active = apply_add m.active_entries e in
      let next =
        edited-IsConsistent add_record (encode_add e) m active consistent
          (add-Edit e m consistent name_fits) (add_applies e m.active_entries in_range) room in
      rw (append_record_ok add_record (encode_add e) io m active room h)
        (refl, open_and_recover-IsConsistent _ reopening next opens, next))
