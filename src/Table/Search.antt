-- ===== src/Table/Search.antt =====
-- src/SSTable.cpp: what the searches in a sorted index find.
use rich_graph.Base.{
  ℕ, zero, suc, ◌+◌, ◌-◌, ◌/◌, ◌≤◌, ◌<◌, true, false, Option, none, some, ◌==◌, ltb, leb, ◌≡◌, ◌≢◌,
  refl, arith, List, ◌*◌, length, Bool-cases, inl, inr,
}
use rich_graph.Delta.File.{bisect}
use rich_graph.Delta.Bisect.{Splits, bisect-Splits}
use rich_graph.Table.{find_from, get, int_max, index_key, bad_mid, low_bound_from, low_bound}

-- What an answer of the search says of the range.
abbrev pub Found : (ℕ → ℕ) → ℕ → ℕ → ℕ → Option ℕ → Type 0
Found keys key start stop none = (i : ℕ) → start ≤ i → i < stop → keys i ≢ key
Found keys key start stop (some m) = (start ≤ m) × (m < stop) × (keys m ≡ key)

module _ (keys : ℕ → ℕ) (key : ℕ) where
  abbrev pub Sorted : ℕ → ℕ → Type 0
  Sorted start stop = (i j : ℕ) → start ≤ i → i ≤ j → j < stop → keys i ≤ keys j

  -- The answer for one side of a position whose key is another one.
  upper-Found :
      (start mid stop : ℕ) (o : Option ℕ)
      → Sorted start stop
      → start ≤ mid
      → mid < stop
      → keys mid < key
      → Found keys key (mid + 1) stop o
      → Found keys key start stop o
  upper-Found start mid stop none sorted a b less h = λ i c d e. elim (Bool-cases (ltb mid i)) [
    | inl after ↦ h i (ground (arith, after)) d e
    | inr before ↦
        let le = sorted i mid c (ground (arith, before)) b in absurd (omega (arith, le, less, e))
  ]
  upper-Found start mid stop (some m) sorted a b less (c, d, e) = (omega (arith, a, c), d, e)

  lower-Found :
      (start mid stop : ℕ) (o : Option ℕ)
      → Sorted start stop
      → start ≤ mid
      → mid < stop
      → key < keys mid
      → Found keys key start mid o
      → Found keys key start stop o
  lower-Found start mid stop none sorted a b more h = λ i c d e. elim (Bool-cases (ltb i mid)) [
    | inl before ↦ h i c (ground (arith, before)) e
    | inr after ↦
        let le = sorted mid i a (ground (arith, after)) d in absurd (omega (arith, le, more, e))
  ]
  lower-Found start mid stop (some m) sorted a b more (c, d, e) = (c, omega (arith, b, d), e)

  find_from-Found :
      (fuel start stop : ℕ)
      → Sorted start stop
      → stop - start ≤ fuel
      → Found keys key start stop (find_from fuel keys key start stop)
  unfolding find_from
  find_from-Found zero start stop sorted enough = λ i a b e. absurd (omega arith)
  find_from-Found (suc fuel) start stop sorted enough = elim (Bool-cases (ltb start stop)) [
    | inr e ↦ rw e (λ i a b c. ground (arith, a, b, e))
    | inl e ↦
        let mid = start + (stop - 1 - start) / 2 in
        let inside : mid < stop = ground (arith, e) in
        elim (Bool-cases (keys mid == key)) [
          | inl here ↦ rw (e, here) (omega arith, inside, ground (arith, here))
          | inr other ↦ elim (Bool-cases (ltb (keys mid) key)) [
            | inl less ↦
                rw (e, other, less)
                  (upper-Found start mid stop _ sorted (omega arith) inside (ground (arith, less)) (
                    find_from-Found fuel (mid + 1) stop (λ i j a b c. sorted i j (omega arith) b c)
                      (omega arith)))
            | inr more ↦
                rw (e, other, more)
                  (lower-Found start mid stop _ sorted (omega arith) inside
                    (ground (arith, more, other))
                    (find_from-Found fuel start mid (λ i j a b c. sorted i j a b (omega arith))
                      (omega arith)))
          ]
        ]
  ]

  -- In an index whose keys are sorted, get answers with a position of the key, or with none when
  -- no position has it.
  pub get-Found : (size : ℕ) → Sorted 0 size → Found keys key 0 size (get keys size key)
  unfolding get
  get-Found size sorted = find_from-Found size 0 size sorted (omega arith)

-- An index in bytes that holds the range, where no position overflows an int.
module _ (index_buf : List ℕ) (key : ℕ) where
  low_bound_from-bisect :
      (fuel start last : ℕ)
      → last * 12 ≤ int_max
      → last * 12 ≤ length index_buf
      → low_bound_from fuel index_buf key start last
        ≡ some (bisect fuel (λ i. ltb (index_key index_buf i) key) start last)
  unfolding low_bound_from bisect
  low_bound_from-bisect zero start last fits inside = refl
  low_bound_from-bisect (suc fuel) start last fits inside = elim (Bool-cases (ltb start last)) [
    | inr e ↦ rw e refl
    | inl e ↦
        let mid = start + (last - start) / 2 in
        let same : (start + last) / 2 ≡ mid = ground (arith, e) in
        let less_last : start < last = ground (arith, e) in
        let good : bad_mid index_buf (start + last) mid ≡ false =
          ground (arith, less_last, fits, inside) in
        elim (Bool-cases (ltb (index_key index_buf mid) key)) [
          | inl less ↦
              let no : leb key (index_key index_buf mid) ≡ false = ground (arith, less) in
              rw (e, same, good, no, less) (low_bound_from-bisect fuel (mid + 1) last fits inside)
          | inr more ↦
              let yes : leb key (index_key index_buf mid) ≡ true = ground (arith, more) in
              rw (e, same, good, yes, more)
                (low_bound_from-bisect fuel start mid (omega arith) (omega arith))
        ]
  ]

  -- In the bytes of an index that hold the range, when the keys of the range are sorted and twelve
  -- times its end is an int, low_bound computes no int that overflows and reads no key behind the
  -- bytes, and answers with the border between the positions whose keys are less than the key and
  -- those whose keys are not.
  pub low_bound-Splits :
      (start last : ℕ)
      → Sorted (index_key index_buf) key start last
      → start ≤ last
      → last * 12 ≤ int_max
      → last * 12 ≤ length index_buf
      → (r : ℕ) × (low_bound key start last index_buf ≡ some r)
        × Splits (λ i. ltb (index_key index_buf i) key) start last r
  unfolding low_bound
  low_bound-Splits start last sorted h fits inside = (
    _,
    low_bound_from-bisect (last - start) start last fits inside,
    bisect-Splits (λ i. ltb (index_key index_buf i) key) (last - start) start last
        (λ i j a b c less. ground (arith, sorted i j a b c, less)) h (omega arith),
  )
