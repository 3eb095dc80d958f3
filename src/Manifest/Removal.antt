-- ===== src/Manifest/Removal.antt =====
-- src/property_delta_manifest.cpp: AppendRemove, followed by OpenAndRecover of the file that it leaves.
use rich_graph.Base.{
  ℕ, ◌+◌, ◌^◌, ◌≤◌, ◌<◌, false, List, [], ◌∷◌, length, All, ◌≡◌, ◌≢◌, refl, ◌⊎◌, inl, inr, arith,
}
use rich_graph.Manifest.{PropertyDeltaManifestEntry, encode_remove, apply_remove}
use rich_graph.Manifest.Record.{remove_record}
use rich_graph.Manifest.Codec.{NameInRange, decode_remove-encode_remove}
use rich_graph.Manifest.Replay.{Edit}
use rich_graph.Manifest.Recover.{ok, apply_edit}
use rich_graph.Manifest.Append.{
  Manifest, OpenIo, open_and_recover, AppendIo, append_record, set_active, any_invalid,
  append_remove,
}
use rich_graph.Manifest.Reopen.{
  state_of, IsConsistent, Opens, edited, edited-IsConsistent, open_and_recover-IsConsistent,
}
use rich_graph.Manifest.Atomic.{append_atomic, append_record_ok}

none_invalid : (names : List (List ℕ)) → All NameInRange names → any_invalid names ≡ false
unfolding any_invalid
none_invalid [] h = refl
none_invalid (name ∷ names) h =
    let rest = none_invalid names h.1 in
    let valid = h.0.1 in let fits = h.0.0 in rw (valid, rest) (ground arith)

remove-Edit :
    (names : List (List ℕ)) (m : Manifest)
    → IsConsistent m
    → length (encode_remove names) ≤ 2 ^ 30
    → Edit remove_record m.next_edit_sequence (encode_remove names) (state_of m)
remove-Edit names m c l = record {
  type_known = inr refl;
  later = omega (arith, c.positive);
  sequence_fits = c.fits;
  payload_fits = l;
}

remove_applies :
    (names : List (List ℕ)) (active : List PropertyDeltaManifestEntry)
    → length names < 2 ^ 32
    → All NameInRange names
    → apply_edit remove_record (encode_remove names) active ≡ ok (apply_remove active names)
unfolding apply_edit
remove_applies names active l h = rw (decode_remove-encode_remove names l h) refl

remove_taken :
    (names : List (List ℕ)) (io : AppendIo) (m : Manifest)
    → names ≢ []
    → length names < 2 ^ 32
    → All NameInRange names
    → append_remove names io m
      ≡ set_active
          (apply_remove m.active_entries names)
          (append_record remove_record (encode_remove names) io m)
unfolding append_remove
remove_taken [] io m n l h = absurd (n refl)
remove_taken (name ∷ names) io m n l h = rw (none_invalid (name ∷ names) h) (ground arith)

module _ (names : List (List ℕ)) (m : Manifest) (io : AppendIo) (reopening : OpenIo)
    (consistent : IsConsistent m) (some_name : names ≢ []) (count_fits : length names < 2 ^ 32)
    (names_fit : All NameInRange names) (payload_fits : length (encode_remove names) ≤ 2 ^ 30)
    (room : m.next_edit_sequence + 1 < 2 ^ 64) (opens : Opens reopening) where
  -- For a consistent manifest with room for a sequence, some names in range whose record recovery
  -- takes, and an opening whose system calls succeed, whatever the writes and the fdatasync of
  -- AppendRemove return, opening the file that it leaves gives the active entries before the call
  -- or those with the names removed.
  pub append_remove_atomic :
      (r : Manifest) × (open_and_recover m.durability reopening (append_remove names io m).1.log
        ≡ ok r)
      × ((r.active_entries ≡ m.active_entries)
          ⊎ (r.active_entries ≡ apply_remove m.active_entries names))
  append_remove_atomic =
      let active = apply_remove m.active_entries names in
      rw (remove_taken names io m some_name count_fits names_fit)
        (elim (append_atomic remove_record (encode_remove names) m active io reopening consistent
          (remove-Edit names m consistent payload_fits)
          (remove_applies names m.active_entries count_fits names_fit) room opens) [
            | inl before ↦ (m, before, inl refl)
            | inr there ↦ (edited remove_record (encode_remove names) m active, there, inr refl)
          ])

  -- For a consistent manifest with room for a sequence, some names in range whose record recovery
  -- takes, and an opening whose system calls succeed, when AppendRemove returns true the active
  -- entries are those of ApplyRemove, opening the file gives the same manifest, and the manifest
  -- is consistent again.
  pub append_remove_reopens :
      (append_remove names io m).0 ≡ ok tt
      → ((append_remove names io m).1.active_entries ≡ apply_remove m.active_entries names)
        × (open_and_recover m.durability reopening (append_remove names io m).1.log
            ≡ ok (append_remove names io m).1)
        × IsConsistent (append_remove names io m).1
  append_remove_reopens = rw (remove_taken names io m some_name count_fits names_fit) (λ h.
      let active = apply_remove m.active_entries names in
      let next =
        edited-IsConsistent remove_record (encode_remove names) m active consistent
          (remove-Edit names m consistent payload_fits)
          (remove_applies names m.active_entries count_fits names_fit) room in
      rw (append_record_ok remove_record (encode_remove names) io m active room h)
        (refl, open_and_recover-IsConsistent _ reopening next opens, next))
