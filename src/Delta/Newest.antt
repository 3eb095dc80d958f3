-- ===== src/Delta/Newest.antt =====
-- What a lookup promises, said of the records alone: of the versions of a key that a reader may
-- see, the one with the largest commit sequence, and the last submitted of those. Sorting and
-- removing repeated versions leave this answer as it is.
use rich_graph.Base.{
  ℕ, Bool, true, Option, none, some, List, [], ◌∷◌, ◌≡◌, refl, ap, ltb, leb, ◌==◌, eq_ℤ, ◌&&◌,
  if◌then◌else◌, arith, inl, inr, Bool-cases, ◌∙◌, sym,
}
use rich_graph.Delta.{PropertyDeltaRecord, LogicalKey, direction}
use rich_graph.Delta.Order.{record_less, same_version}
use rich_graph.Delta.Build.{insert, stable_sort, dedup_from, deduplicate}

unfoldable pub has_key : LogicalKey → PropertyDeltaRecord → Bool
has_key k r =
    r.src == k.src
    && (r.dst == k.dst
        && (direction r.is_out == direction k.is_out
            && (r.edge_type == k.edge_type && eq_ℤ r.base_sequence k.base_sequence)))

unfoldable pub is_visible : LogicalKey → ℕ → PropertyDeltaRecord → Bool
unfolding has_key
is_visible k read_sequence r = has_key k r && leb r.commit_sequence read_sequence

-- The better of a record and the best of those that come after it.
unfoldable pub pick :
    LogicalKey → ℕ → PropertyDeltaRecord → Option PropertyDeltaRecord → Option PropertyDeltaRecord
unfolding is_visible
pick k read_sequence x none = if is_visible k read_sequence x then some x else none
pick k read_sequence x (some y) =
    if is_visible k read_sequence x && ltb y.commit_sequence x.commit_sequence
    then some x
    else some y

unfoldable pub newest : LogicalKey → ℕ → List PropertyDeltaRecord → Option PropertyDeltaRecord
unfolding pick
newest k read_sequence [] = none
newest k read_sequence (x ∷ xs) = pick k read_sequence x (newest k read_sequence xs)

module _ (k : LogicalKey) (read : ℕ) where
  pick_comm :
      (x y : PropertyDeltaRecord) (o : Option PropertyDeltaRecord)
      → record_less y x ≡ true
      → pick k read y (pick k read x o) ≡ pick k read x (pick k read y o)
  unfolding pick record_less
  pick_comm x y none h = ground arith
  pick_comm x y (some z) h = ground arith

  pick_same :
      (x y : PropertyDeltaRecord) (o : Option PropertyDeltaRecord)
      → same_version x y ≡ true
      → pick k read x (pick k read y o) ≡ pick k read y o
  unfolding pick same_version
  pick_same x y none h = ground arith
  pick_same x y (some z) h = ground arith

  pub newest-insert :
      (x : PropertyDeltaRecord) (ys : List PropertyDeltaRecord)
      → newest k read (insert x ys) ≡ pick k read x (newest k read ys)
  unfolding newest insert
  newest-insert x [] = refl
  newest-insert x (y ∷ ys) = elim (Bool-cases (record_less y x)) [
    | inl less ↦
        rw less (ap (pick k read y) (newest-insert x ys) ∙ pick_comm x y (newest k read ys) less)
    | inr not_less ↦ rw not_less
  ]

  newest-stable_sort :
      (rs : List PropertyDeltaRecord) → newest k read (stable_sort rs) ≡ newest k read rs
  unfolding newest stable_sort
  newest-stable_sort [] = refl
  newest-stable_sort (x ∷ xs) =
      newest-insert x (stable_sort xs) ∙ ap (pick k read x) (newest-stable_sort xs)

  newest-dedup_from :
      (x : PropertyDeltaRecord) (xs : List PropertyDeltaRecord)
      → newest k read (dedup_from x xs) ≡ pick k read x (newest k read xs)
  unfolding newest dedup_from
  newest-dedup_from x [] = refl
  newest-dedup_from x (y ∷ ys) = elim (Bool-cases (same_version x y)) [
    | inl same ↦
        rw (same, dedup_from) (newest-dedup_from y ys ∙ sym (pick_same x y (newest k read ys) same))
    | inr other ↦ rw (other, dedup_from) (ap (pick k read x) (newest-dedup_from y ys))
  ]

  newest-deduplicate_list :
      (xs : List PropertyDeltaRecord) → newest k read (deduplicate xs) ≡ newest k read xs
  unfolding newest deduplicate
  newest-deduplicate_list [] = refl
  newest-deduplicate_list (x ∷ xs) = newest-dedup_from x xs

  -- Sorting the submitted records and dropping repeated versions leaves the answer of every lookup
  -- as it was.
  pub newest-deduplicate :
      (rs : List PropertyDeltaRecord)
      → newest k read (deduplicate (stable_sort rs)) ≡ newest k read rs
  newest-deduplicate rs = newest-deduplicate_list (stable_sort rs) ∙ newest-stable_sort rs
