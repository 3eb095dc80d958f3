-- ===== src/Manifest/Replay.antt =====
-- src/property_delta_manifest.cpp: what the loop of OpenAndRecover makes of a record that AppendRecord
-- wrote, whole or cut.
use rich_graph.Base.{
  ℕ, zero, suc, ◌+◌, ◌-◌, ◌^◌, ◌≤◌, ◌<◌, false, List, [], ◌∷◌, ◌++◌, take, drop, length, ◌≡◌, refl,
  sym, ap, ◌⊎◌, inl, inr, arith, append_assoc, take_append, drop_append, drop_add, length-append,
  length-take, ltb, eq_bytes_refl, Bool-cases,
}
use rich_graph.Manifest.{PropertyDeltaManifestEntry}
use rich_graph.Manifest.Record.{
  ManifestDiskHeader, manifest_magic, encode_header, decode_header, record_checksum, record_header,
  record_bytes, add_record, remove_record,
}
use rich_graph.Manifest.Codec.{take-length, decode_header-record_header, length-header_bytes}
use rich_graph.Manifest.Fuel.{always}
use rich_graph.Manifest.Recover.{
  sequence_not_increasing, ok, err, Recovery, leave, go_on, header_refused, apply_edit, after_edit,
  check_record, round,
}

take_over : (xs ys : List ℕ) (m n : ℕ) → n ≡ length xs + m → take n (xs ++ ys) ≡ xs ++ take m ys
take_over [] ys m n e = ap (λ k. take k ys) (omega arith)
take_over (x ∷ xs) ys m zero e = absurd (omega arith)
take_over (x ∷ xs) ys m (suc n) e = ap (◌∷◌ x) (take_over xs ys m n (omega arith))

-- A header that is taken, with its payload there.
round_checks :
    (h : ManifestDiskHeader) (rest : List ℕ) (s : Recovery)
    → decode_header rest ≡ h
    → header_refused h ≡ false
    → 36 + h.payload_bytes ≤ length rest
    → round always rest s ≡ check_record h (take h.payload_bytes (drop 36 rest)) rest s
unfolding round
round_checks h [] s e k l = absurd (omega arith)
round_checks h (b ∷ bs) s e k l = rw (e, k) (ground arith)

lt_or_ge : (m n : ℕ) → (m < n) ⊎ (n ≤ m)
lt_or_ge m n = elim (Bool-cases (ltb m n)) [
  | inl e ↦ inl (ground arith)
  | inr e ↦ inr (ground arith)
]

-- A header that is taken, with its payload cut.
round_cut :
    (h : ManifestDiskHeader) (rest : List ℕ) (s : Recovery)
    → decode_header rest ≡ h
    → header_refused h ≡ false
    → length rest < 36 + h.payload_bytes
    → round always rest s ≡ leave (ok s)
unfolding round
round_cut h [] s e k l = refl
round_cut h (b ∷ bs) s e k l = rw (e, k) (ground arith)

round_short : (rest : List ℕ) (s : Recovery) → length rest < 36 → round always rest s ≡ leave (ok s)
unfolding round
round_short [] s l = refl
round_short (b ∷ bs) s l = ground arith

check_record_stale :
    (h : ManifestDiskHeader) (payload rest : List ℕ) (s : Recovery)
    → record_checksum h payload ≡ h.checksum
    → h.edit_sequence ≤ s.last_sequence
    → check_record h payload rest s ≡ leave (err sequence_not_increasing)
unfolding check_record
check_record_stale h payload rest s e l = ground arith

check_record_passes :
    (h : ManifestDiskHeader) (payload rest : List ℕ) (s : Recovery)
    → record_checksum h payload ≡ h.checksum
    → s.last_sequence < h.edit_sequence
    → check_record h payload rest s
      ≡ after_edit h rest s (apply_edit h.type_code payload s.active_entries)
unfolding check_record
check_record_passes h payload rest s e l = ground arith

-- The edit that a record stands for, with a type and a payload that OpenAndRecover takes and a
-- sequence behind those before it. AppendRecord takes longer payloads too.
pub record Edit (type_code edit_sequence : ℕ) (payload : List ℕ) (s : Recovery) : Type 0 where
  pub type_known : (type_code ≡ add_record) ⊎ (type_code ≡ remove_record)
  pub later : s.last_sequence < edit_sequence
  pub sequence_fits : edit_sequence < 2 ^ 64
  pub payload_fits : length payload ≤ 2 ^ 30

module _ (type_code edit_sequence : ℕ) (payload : List ℕ) (s : Recovery)
    (edit : Edit type_code edit_sequence payload s) where
  code_lt : type_code < 256
  code_lt = omega (arith, edit.type_known)

  header_kept :
      (rest : List ℕ)
      → decode_header (encode_header (record_header type_code edit_sequence payload) ++ rest)
        ≡ record_header type_code edit_sequence payload
  header_kept rest =
      decode_header-record_header type_code edit_sequence payload rest code_lt edit.sequence_fits
        (omega (arith, edit.payload_fits))

  not_refused : header_refused (record_header type_code edit_sequence payload) ≡ false
  unfolding record_header
  not_refused = ground (arith, edit.type_known, eq_bytes_refl manifest_magic)

  passes :
      (rest : List ℕ)
      → check_record (record_header type_code edit_sequence payload) payload rest s
        ≡ after_edit
            (record_header type_code edit_sequence payload)
            rest
            s
            (apply_edit type_code payload s.active_entries)
  unfolding record_header
  passes rest =
      check_record_passes (record_header type_code edit_sequence payload) payload rest s
        (unfold record_checksum in refl) edit.later

  header_bytes : List ℕ
  header_bytes = encode_header (record_header type_code edit_sequence payload)

  size : length (encode_header (record_header type_code edit_sequence payload)) ≡ 36
  unfolding record_header
  size = length-header_bytes (record_header type_code edit_sequence payload) refl

  payload_size : (record_header type_code edit_sequence payload).payload_bytes ≡ length payload
  unfolding record_header
  payload_size = refl

  -- The edit applied: the round goes on behind the record.
  pub round-record_bytes :
      (active : List PropertyDeltaManifestEntry) (tail : List ℕ)
      → apply_edit type_code payload s.active_entries ≡ ok active
      → round always (record_bytes type_code edit_sequence payload ++ tail) s
        ≡ go_on tail (record {
          offset = s.offset + (36 + length payload);
          last_sequence = edit_sequence;
          active_entries = active;
        })
  unfolding record_bytes
  round-record_bytes active tail e =
      let h = record_header type_code edit_sequence payload in
      let head = encode_header h in
      let rest = head ++ (payload ++ tail) in
      let l1 = length-append head (payload ++ tail) in
      let l2 = length-append payload tail in
      let cut : take h.payload_bytes (drop 36 rest) ≡ payload =
        rw (drop_append head (payload ++ tail) 36 (sym size))
          (take_append payload tail h.payload_bytes payload_size) in
      let behind : drop (36 + h.payload_bytes) rest ≡ tail =
        rw (drop_add 36 h.payload_bytes rest, drop_append head (payload ++ tail) 36 (sym size))
          (drop_append payload tail h.payload_bytes payload_size) in
      rw
        (
          append_assoc,
          round_checks h rest s (header_kept (payload ++ tail)) not_refused
              (omega (arith, l1, l2, size, payload_size)),
          cut,
          passes rest,
          e,
        )
        (unfold record_header in ap (λ t. go_on t _) behind)

  -- A record cut at the end of the file leaves the loop with what was there before it.
  pub round-cut_record :
      (n : ℕ)
      → n < 36 + length payload
      → round always (take n (record_bytes type_code edit_sequence payload)) s ≡ leave (ok s)
  unfolding record_bytes
  round-cut_record n l =
      let h = record_header type_code edit_sequence payload in
      let head = encode_header h in
      let m1 = length-take n (head ++ payload) in
      elim (lt_or_ge n 36) [
        | inl short ↦ round_short (take n (head ++ payload)) s (omega (arith, m1))
        | inr long ↦ rw (take_over head payload (n - 36) n (omega (arith, size, long))) (
            round_cut h (head ++ take (n - 36) payload) s (header_kept (take (n - 36) payload))
              not_refused
              (omega (
                arith,
                length-append head (take (n - 36) payload),
                length-take (n - 36) payload,
                size,
                payload_size,
                l,
                long,
              )))
      ]

  -- A record whose sequence is not later than the last one.
  pub round-stale_record :
      (late : Recovery)
      → edit_sequence ≤ late.last_sequence
      → round always (record_bytes type_code edit_sequence payload) late
        ≡ leave (err sequence_not_increasing)
  unfolding record_bytes
  round-stale_record late l =
      let h = record_header type_code edit_sequence payload in
      let head = encode_header h in
      let rest = head ++ payload in
      let l1 = length-append head payload in
      let cut : take h.payload_bytes (drop 36 rest) ≡ payload =
        rw (drop_append head payload 36 (sym size), payload_size) (take-length payload) in
      rw
        (
          round_checks h rest late (header_kept payload) not_refused
              (omega (arith, l1, size, payload_size)),
          cut,
        )
        (check_record_stale h payload rest late (unfold record_header record_checksum in refl)
          (unfold record_header in l))
