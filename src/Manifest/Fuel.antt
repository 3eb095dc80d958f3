-- ===== src/Manifest/Fuel.antt =====
-- src/property_delta_manifest.cpp: the loop of OpenAndRecover takes every round that the bytes give.
use rich_graph.Base.{
  ℕ, zero, suc, ◌+◌, ◌≤◌, ◌<◌, Bool, true, List, [], ◌∷◌, take, drop, length, ◌≡◌, refl, arith,
  length-drop,
}
use rich_graph.Manifest.{PropertyDeltaManifestEntry}
use rich_graph.Manifest.Record.{ManifestDiskHeader, decode_header, header_size}
use rich_graph.Manifest.Recover.{
  Result, ok, err, Recovery, Round, leave, go_on, apply_edit, after_edit, check_record, round,
  after_round, recover_loop, recover,
}

-- Every call of ReadAllAt returns true.
abbrev pub always : ℕ → Bool
always offset = true

after_edit_shrinks :
    (h : ManifestDiskHeader) (rest rest' : List ℕ) (s s' : Recovery)
    (r : Result (List PropertyDeltaManifestEntry))
    → after_edit h rest s r ≡ go_on rest' s'
    → 36 ≤ length rest
    → length rest' < length rest
after_edit_shrinks h rest rest' s s' (err e) k l = cc
after_edit_shrinks h rest rest' s s' (ok active) k l =
    ground (arith, length-drop (header_size + h.payload_bytes) rest)

check_record_shrinks :
    (h : ManifestDiskHeader) (payload rest rest' : List ℕ) (s s' : Recovery)
    → check_record h payload rest s ≡ go_on rest' s'
    → 36 ≤ length rest
    → length rest' < length rest
unfolding check_record
check_record_shrinks h payload rest rest' s s' k l =
    ground (
      arith,
      after_edit_shrinks h rest rest' s s' (apply_edit h.type_code payload s.active_entries),
    )

round_shrinks :
    (readable : ℕ → Bool) (rest rest' : List ℕ) (s s' : Recovery)
    → round readable rest s ≡ go_on rest' s'
    → length rest' < length rest
unfolding round
round_shrinks readable rest rest' s s' k =
    let h = decode_header rest in
    ground
      (arith, check_record_shrinks h (take h.payload_bytes (drop header_size rest)) rest rest' s s')

after_round_same :
    (r : Round) (f g : List ℕ → Recovery → Result Recovery)
    → ((rest : List ℕ) (s : Recovery) → r ≡ go_on rest s → f rest s ≡ g rest s)
    → after_round r f ≡ after_round r g
after_round_same (leave r) f g h = refl
after_round_same (go_on rest s) f g h = h rest s refl

-- The loop of OpenAndRecover gives the same result for any two amounts of fuel that are not below
-- the number of bytes left.
pub recover_loop_fuel :
    (readable : ℕ → Bool) (f g : ℕ) (rest : List ℕ) (s : Recovery)
    → length rest ≤ f
    → length rest ≤ g
    → recover_loop f readable rest s ≡ recover_loop g readable rest s
unfolding recover_loop
recover_loop_fuel readable zero zero rest s h k = refl
recover_loop_fuel readable zero (suc g) [] s h k = unfold round in refl
recover_loop_fuel readable zero (suc g) (b ∷ bs) s h k = absurd (omega arith)
recover_loop_fuel readable (suc f) zero [] s h k = unfold round in refl
recover_loop_fuel readable (suc f) zero (b ∷ bs) s h k = absurd (omega arith)
recover_loop_fuel readable (suc f) (suc g) rest s h k =
    after_round_same (round readable rest s) (recover_loop f readable) (recover_loop g readable)
      (λ rest' s' e.
        let l = round_shrinks readable rest rest' s s' e in
        recover_loop_fuel readable f g rest' s' (omega (arith, l, h)) (omega (arith, l, k)))

-- A round that goes on: the rest is recovered from the state that it leaves.
pub recover_go_on :
    (readable : ℕ → Bool) (rest rest' : List ℕ) (s s' : Recovery)
    → round readable rest s ≡ go_on rest' s'
    → recover readable rest s ≡ recover readable rest' s'
unfolding recover
recover_go_on readable [] rest' s s' e =
    absurd (omega (arith, round_shrinks readable [] rest' s s' e))
recover_go_on readable (b ∷ bs) rest' s s' e =
    unfold recover_loop in
    let l = round_shrinks readable (b ∷ bs) rest' s s' e in
    rw e (
      recover_loop_fuel readable (length bs) (length rest') rest' s' (omega (arith, l))
        (omega arith))

pub recover_leave :
    (readable : ℕ → Bool) (rest : List ℕ) (s : Recovery) (r : Result Recovery)
    → round readable rest s ≡ leave r
    → recover readable rest s ≡ r
unfolding recover recover_loop round
recover_leave readable [] s r e = cc
recover_leave readable (b ∷ bs) s r e = rw e refl
