-- ===== src/Columns/Slots.antt =====
-- core/fixed_property_layout.h: a value is read back from its slot, and writing a slot leaves the
-- other slots of the column.
use rich_graph.Base.{
  ℕ, zero, suc, ◌+◌, ◌-◌, ◌≤◌, ◌<◌, List, [], ◌∷◌, ◌++◌, length, take, drop, replicate, ◌≡◌, ◌≢◌,
  refl, sym, ap, ◌∙◌, arith, take_append, drop_append, length-append, length-take, length-replicate,
  drop_add, append_assoc, ap₂, Bool-cases, inl, inr, ltb, take-append-drop,
}
use native.Mathlib.Nat.{mul-le-mul_right}
use rich_graph.Columns.{padded_slot, write_slot, trim_trailing_zero, read_slot, slot_offset}

length-padded_slot : (slot_len : ℕ) (src : List ℕ) → length (padded_slot slot_len src) ≡ slot_len
unfolding padded_slot
length-padded_slot slot_len src = omega (
  arith,
  length-append (take slot_len src) (replicate (slot_len - length src) 0),
  length-take slot_len src,
  length-replicate {A = ℕ} (slot_len - length src) 0,
)

trim_zeros : (n : ℕ) → trim_trailing_zero (replicate n 0) ≡ []
unfolding trim_trailing_zero
trim_zeros zero = refl
trim_zeros (suc n) = rw (trim_zeros n) refl

-- Zeros behind a value are taken away with those that it ends in.
trim_padding :
    (cs : List ℕ) (n : ℕ) → trim_trailing_zero (cs ++ replicate n 0) ≡ trim_trailing_zero cs
unfolding trim_trailing_zero
trim_padding [] n = trim_zeros n
trim_padding (c ∷ cs) n = rw (trim_padding cs n) refl

take_slot :
    (n : ℕ) (xs ys zs : List ℕ) (at : ℕ)
    → at ≡ length xs
    → n ≡ length ys
    → take n (drop at (xs ++ (ys ++ zs))) ≡ ys
take_slot n xs ys zs at e k = rw (drop_append xs (ys ++ zs) at e) (take_append ys zs n k)

window_left :
    (xs ys : List ℕ) (i n : ℕ) → i + n ≤ length xs → take n (drop i (xs ++ ys)) ≡ take n (drop i xs)
window_left [] ys zero zero h = refl
window_left [] ys zero (suc n) h = absurd (omega arith)
window_left [] ys (suc i) n h = absurd (omega arith)
window_left (x ∷ xs) ys zero zero h = refl
window_left (x ∷ xs) ys zero (suc n) h = ap (◌∷◌ x) (window_left xs ys zero n (omega arith))
window_left (x ∷ xs) ys (suc i) n h = window_left xs ys i n (omega arith)

drop_past : (xs ys : List ℕ) (i : ℕ) → drop (length xs + i) (xs ++ ys) ≡ drop i ys
drop_past xs ys i =
    drop_add (length xs) i (xs ++ ys) ∙ ap (drop i) (drop_append xs ys (length xs) refl)

-- What stands before or behind a range that is replaced by another of its length.
window_before :
    (column slot : List ℕ) (at next i n : ℕ)
    → i + n ≤ at
    → at ≤ length column
    → take n (drop i (take at column ++ (slot ++ drop next column))) ≡ take n (drop i column)
window_before column slot at next i n h k =
    let inside : i + n ≤ length (take at column) = omega (arith, length-take at column) in
    window_left (take at column) (slot ++ drop next column) i n inside
    ∙ sym (window_left (take at column) (drop at column) i n inside)
    ∙ ap (λ c. take n (drop i c)) (take-append-drop at column)

drop_behind :
    (column slot : List ℕ) (at i : ℕ)
    → at + length slot ≤ i
    → at ≤ length column
    → drop i (take at column ++ (slot ++ drop (at + length slot) column)) ≡ drop i column
drop_behind column slot at i h k =
    let front = take at column ++ slot in
    let size : length front ≡ at + length slot =
      omega (arith, length-append (take at column) slot, length-take at column) in
    let rest = i - (at + length slot) in
    ap₂ drop {x = i} {y = length front + rest} (omega (arith, size))
      (sym (append_assoc (take at column) slot (drop (at + length slot) column)))
    ∙ drop_past front (drop (at + length slot) column) rest
    ∙ sym (drop_add (at + length slot) rest column)
    ∙ ap (λ j. drop j column) (omega arith)

slots_apart :
    (a b slot_len : ℕ) → a < b → slot_offset a slot_len + slot_len ≤ slot_offset b slot_len
slots_apart a b slot_len h = omega (arith, mul-le-mul_right {m = suc a} {n = b} slot_len h)

module _ (ordinal slot_len : ℕ) (src column : List ℕ)
    (inside : slot_offset ordinal slot_len + slot_len ≤ length column) where
  read_slot-write_slot :
      let at = slot_offset ordinal slot_len in
      read_slot at slot_len (write_slot at slot_len src column)
      ≡ trim_trailing_zero (take slot_len src)
  unfolding read_slot write_slot padded_slot
  read_slot-write_slot =
      let at = slot_offset ordinal slot_len in
      ap trim_trailing_zero (
        take_slot slot_len (take at column) (padded_slot slot_len src) (drop (at + slot_len) column)
          at (omega (arith, length-take at column, inside)) (sym (length-padded_slot slot_len src)))
      ∙ trim_padding (take slot_len src) (slot_len - length src)

  write_slot_other :
      (other : ℕ)
      → other ≢ ordinal
      → let at = slot_offset ordinal slot_len in
        read_slot (slot_offset other slot_len) slot_len (write_slot at slot_len src column)
        ≡ read_slot (slot_offset other slot_len) slot_len column
  unfolding read_slot write_slot
  write_slot_other other n =
      let at = slot_offset ordinal slot_len in
      let slot = padded_slot slot_len src in
      let size = length-padded_slot slot_len src in
      elim (Bool-cases (ltb other ordinal)) [
        | inl e ↦ ap trim_trailing_zero (
            window_before column slot at (at + slot_len) (slot_offset other slot_len) slot_len
              (slots_apart other ordinal slot_len (ground (arith, e))) (omega (arith, inside)))
        | inr e ↦
            let apart = slots_apart ordinal other slot_len (ground (arith, e, n)) in
            ap (λ cs. trim_trailing_zero (take slot_len cs))
              (ap
                  (λ k.
                    drop (slot_offset other slot_len)
                      (take at column ++ (slot ++ drop (at + k) column)))
                  (sym size)
                ∙ drop_behind column slot at (slot_offset other slot_len)
                    (omega (arith, apart, size)) (omega (arith, inside)))
      ]

  -- For a slot that lies in the column, what is read from it after a value was written there is
  -- the value as far as it fits, without the zeros at its end, and what is read from every other
  -- slot is as before.
  pub write_slot_lem :
      let at = slot_offset ordinal slot_len in
      let after = write_slot at slot_len src column in
      (read_slot at slot_len after ≡ trim_trailing_zero (take slot_len src))
      × ((other : ℕ)
          → other ≢ ordinal
          → read_slot (slot_offset other slot_len) slot_len after
            ≡ read_slot (slot_offset other slot_len) slot_len column)
  write_slot_lem = (read_slot-write_slot, write_slot_other)
