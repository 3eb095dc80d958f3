-- ===== src/Delta/Kept.antt =====
-- What sorting and the removal of repeated versions keep of the submitted records.
use rich_graph.Base.{
  ℕ, ◌+◌, ◌^◌, ◌≤◌, ◌<◌, List, [], ◌∷◌, length, All, ◌≡◌, refl, arith, Bool-cases, inl, inr,
}
use rich_graph.Pod.Laws.{IsInt64}
use rich_graph.Delta.{PropertyDeltaRecord}
use rich_graph.Delta.Order.{record_less, same_version}
use rich_graph.Delta.Build.{insert, stable_sort, dedup_from, deduplicate}

-- The fields of a record hold the values that it is submitted with.
pub record InRange (r : PropertyDeltaRecord) : Type 0 where
  pub src : r.src < 2 ^ 64
  pub dst : r.dst < 2 ^ 64
  pub base_sequence : IsInt64 r.base_sequence
  pub commit_sequence : r.commit_sequence < 2 ^ 64
  pub edge_type : r.edge_type < 256
  pub value : length r.value < 2 ^ 32

-- The bytes that a list of records takes in the file.
abbrev pub stored_size : List PropertyDeltaRecord → ℕ
stored_size [] = 0
stored_size (r ∷ rs) = 48 + length r.value + stored_size rs

-- Sorting and removing repeated versions keep the ranges and do not grow the file.
pub All-insert {κ} :
    (P : PropertyDeltaRecord → Type κ) (x : PropertyDeltaRecord) (ys : List PropertyDeltaRecord)
    → P x
    → All P ys
    → All P (insert x ys)
unfolding insert
All-insert P x [] h k = (h, tt)
All-insert P x (y ∷ ys) h k = elim (Bool-cases (record_less y x)) [
  | inl e ↦ rw e (k.0, All-insert P x ys h k.1)
  | inr e ↦ rw e (h, k)
]

All-stable_sort {κ} :
    (P : PropertyDeltaRecord → Type κ) (rs : List PropertyDeltaRecord)
    → All P rs
    → All P (stable_sort rs)
unfolding stable_sort
All-stable_sort P [] h = tt
All-stable_sort P (x ∷ xs) h = All-insert P x (stable_sort xs) h.0 (All-stable_sort P xs h.1)

pub All-dedup_from {κ} :
    (P : PropertyDeltaRecord → Type κ) (x : PropertyDeltaRecord) (xs : List PropertyDeltaRecord)
    → P x
    → All P xs
    → All P (dedup_from x xs)
unfolding dedup_from
All-dedup_from P x [] h k = (h, tt)
All-dedup_from P x (y ∷ ys) h k = elim (Bool-cases (same_version x y)) [
  | inl e ↦ rw (e, dedup_from) (All-dedup_from P y ys k.0 k.1)
  | inr e ↦ rw (e, dedup_from) (h, All-dedup_from P y ys k.0 k.1)
]

All-deduplicate {κ} :
    (P : PropertyDeltaRecord → Type κ) (rs : List PropertyDeltaRecord)
    → All P rs
    → All P (deduplicate rs)
unfolding deduplicate
All-deduplicate P [] h = tt
All-deduplicate P (x ∷ xs) h = All-dedup_from P x xs h.0 h.1

abbrev pub written : List PropertyDeltaRecord → List PropertyDeltaRecord
written rs = deduplicate (stable_sort rs)

pub All-written {κ} :
    (P : PropertyDeltaRecord → Type κ) (rs : List PropertyDeltaRecord)
    → All P rs
    → All P (written rs)
All-written P rs h = All-deduplicate P (stable_sort rs) (All-stable_sort P rs h)

stored_size-insert :
    (x : PropertyDeltaRecord) (ys : List PropertyDeltaRecord)
    → stored_size (insert x ys) ≡ stored_size (x ∷ ys)
unfolding insert
stored_size-insert x [] = refl
stored_size-insert x (y ∷ ys) = ground (arith, stored_size-insert x ys)

stored_size-stable_sort :
    (rs : List PropertyDeltaRecord) → stored_size (stable_sort rs) ≡ stored_size rs
unfolding stable_sort
stored_size-stable_sort [] = refl
stored_size-stable_sort (x ∷ xs) =
    omega (arith, stored_size-insert x (stable_sort xs), stored_size-stable_sort xs)

stored_size-dedup_from :
    (x : PropertyDeltaRecord) (xs : List PropertyDeltaRecord)
    → stored_size (dedup_from x xs) ≤ stored_size (x ∷ xs)
unfolding dedup_from
stored_size-dedup_from x [] = omega arith
stored_size-dedup_from x (y ∷ ys) = ground (arith, stored_size-dedup_from y ys)

stored_size-deduplicate :
    (rs : List PropertyDeltaRecord) → stored_size (deduplicate rs) ≤ stored_size rs
unfolding deduplicate
stored_size-deduplicate [] = omega arith
stored_size-deduplicate (x ∷ xs) = stored_size-dedup_from x xs

pub stored_size-written :
    (rs : List PropertyDeltaRecord) → stored_size (written rs) ≤ stored_size rs
stored_size-written rs =
    omega (arith, stored_size-deduplicate (stable_sort rs), stored_size-stable_sort rs)
