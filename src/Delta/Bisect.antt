-- ===== src/Delta/Bisect.antt =====
-- The loop of both searches ends at the border between the indices that pass its test and those
-- that do not.
use rich_graph.Base.{
  ℕ, zero, suc, ◌+◌, ◌-◌, ◌/◌, ◌≤◌, ◌<◌, Bool, true, false, ◌≡◌, ltb, arith, inl, inr, Bool-cases,
}
use rich_graph.Delta.File.{bisect}

-- `p` is the border in [low, high).
pub record Splits (test : ℕ → Bool) (low high p : ℕ) : Type 0 where
  pub above : low ≤ p
  pub within : p ≤ high
  pub passes : (i : ℕ) → low ≤ i → i < p → test i ≡ true
  pub fails : (i : ℕ) → p ≤ i → i < high → test i ≡ false

module _ (test : ℕ → Bool) where
  abbrev pub Falls : ℕ → ℕ → Type 0
  Falls low high = (i j : ℕ) → low ≤ i → i ≤ j → j < high → test j ≡ true → test i ≡ true

  upper-Splits :
      (low high middle p : ℕ)
      → Falls low high
      → low ≤ middle
      → middle < high
      → test middle ≡ true
      → Splits test (middle + 1) high p
      → Splits test low high p
  upper-Splits low high middle p mono a b t s = record {
    above = omega arith;
    within = s.within;
    passes = λ i l h. elim (Bool-cases (ltb middle i)) [
      | inl e ↦ s.passes i (ground arith) h
      | inr e ↦ mono i middle l (ground arith) b t
    ];
    fails = s.fails;
  }

  lower-Splits :
      (low high middle p : ℕ)
      → Falls low high
      → low ≤ middle
      → middle < high
      → test middle ≡ false
      → Splits test low middle p
      → Splits test low high p
  lower-Splits low high middle p mono a b t s = record {
    above = s.above;
    within = omega arith;
    passes = s.passes;
    fails = λ i l h. elim (Bool-cases (ltb i middle)) [
      | inl e ↦ s.fails i l (ground arith)
      | inr e ↦ elim (Bool-cases (test i)) [
        | inl bad ↦ ground (arith, mono middle i a)
        | inr good ↦ good
      ]
    ];
  }

  -- For a test that falls from true to false on a range and with fuel for its length, the binary
  -- search of Lookup ends at the border between the indices that pass the test and those that do
  -- not.
  pub bisect-Splits :
      (fuel low high : ℕ)
      → Falls low high
      → low ≤ high
      → high - low ≤ fuel
      → Splits test low high (bisect fuel test low high)
  unfolding bisect
  bisect-Splits zero low high mono h k = record {
    above = omega arith;
    within = h;
    passes = λ i a b. absurd (omega arith);
    fails = λ i a b. absurd (omega arith);
  }
  bisect-Splits (suc fuel) low high mono h k = elim (Bool-cases (ltb low high)) [
    | inr e ↦ rw e (record {
      above = omega arith;
      within = h;
      passes = λ i a b. absurd (omega arith);
      fails = λ i a b. ground arith;
    })
    | inl e ↦
        let middle = low + (high - low) / 2 in
        let inside : middle < high = ground arith in
        elim (Bool-cases (test middle)) [
          | inl t ↦
              rw (e, t)
                (upper-Splits low high middle _ mono (omega arith) inside t (
                  bisect-Splits fuel (middle + 1) high (λ i j a b c. mono i j (omega arith) b c)
                    (omega arith) (omega arith)))
          | inr t ↦
              rw (e, t)
                (lower-Splits low high middle _ mono (omega arith) inside t (
                  bisect-Splits fuel low middle (λ i j a b c. mono i j a b (omega arith))
                    (omega arith) (omega arith)))
        ]
  ]
