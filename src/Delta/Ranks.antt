-- ===== src/Delta/Ranks.antt =====
-- How the versions of a sorted delta stand to a key and to a reader's commit sequence.
use Prim.Native.Nat.{Ordering}
use rich_graph.Base.{
  ℕ, zero, suc, ◌≤◌, ◌<◌, Bool, true, List, [], ◌∷◌, ◌≡◌, refl, sym, ◌∙◌, length, get_or,
  All-get_or, arith, leb, ◌&&◌, ◌||◌, lex, is_le, is_lt, is_eq, lex_refl, lex-flip, lex_trans,
  lex→eq, pos,
}
use rich_graph.Delta.{PropertyDeltaRecord, LogicalKey}
use rich_graph.Delta.Order.{key_list, logical_key}
use rich_graph.Delta.Sorted.{Le, Le_refl, IsSorted}
use rich_graph.Delta.Newest.{has_key, is_visible}

abbrev pub blank : PropertyDeltaRecord
blank = record {
  src = 0;
  dst = 0;
  base_sequence = pos 0;
  commit_sequence = 0;
  is_out = true;
  edge_type = 0;
  value = [];
}

infixl 90 ◌!◌
abbrev pub ◌!◌ : List PropertyDeltaRecord → ℕ → PropertyDeltaRecord
rs ! i = get_or rs i blank

pub IsSorted-at :
    (rs : List PropertyDeltaRecord) (i j : ℕ)
    → IsSorted rs
    → i ≤ j
    → j < length rs
    → Le (rs ! i) (rs ! j)
IsSorted-at [] i j s h k = absurd (omega arith)
IsSorted-at (x ∷ xs) zero zero s h k = Le_refl x
IsSorted-at (x ∷ xs) zero (suc j) s h k = All-get_or (Le x) xs j blank s.0 (omega arith)
IsSorted-at (x ∷ xs) (suc i) zero s h k = absurd (omega arith)
IsSorted-at (x ∷ xs) (suc i) (suc j) s h k = IsSorted-at xs i j s.1 (omega arith) (omega arith)

Le-key :
    (a b : PropertyDeltaRecord)
    → Le a b
    → is_le (lex (key_list (logical_key a)) (key_list (logical_key b))) ≡ true
unfolding lex
Le-key a b h = ground arith

Le-commit :
    (a b : PropertyDeltaRecord)
    → Le a b
    → lex (key_list (logical_key a)) (key_list (logical_key b)) ≡ Ordering.eq
    → a.commit_sequence ≤ b.commit_sequence
unfolding lex
Le-commit a b h e = ground arith

-- The key of a record against the key looked up.
abbrev pub rank : LogicalKey → PropertyDeltaRecord → Ordering
rank k r = lex (key_list (logical_key r)) (key_list k)

-- The test of the second search.
abbrev pub not_newer : LogicalKey → ℕ → PropertyDeltaRecord → Bool
not_newer k read r = is_lt (rank k r) || (is_eq (rank k r) && leb r.commit_sequence read)

has_key-rank : (k : LogicalKey) (r : PropertyDeltaRecord) → has_key k r ≡ is_eq (rank k r)
unfolding has_key lex
has_key-rank k r = ground arith

pub is_visible-rank :
    (k : LogicalKey) (read : ℕ) (r : PropertyDeltaRecord)
    → is_visible k read r ≡ (is_eq (rank k r) && leb r.commit_sequence read)
unfolding is_visible
is_visible-rank k read r = ground (arith, has_key-rank k r)

is_eq→eq : (o : Ordering) → is_eq o ≡ true → o ≡ Ordering.eq
is_eq→eq Ordering.eq h = refl
is_eq→eq Ordering.lt h = ground arith
is_eq→eq Ordering.gt h = ground arith

module _ (k : LogicalKey) (a b : PropertyDeltaRecord) (le : Le a b) where
  pub rank-lt : is_lt (rank k b) ≡ true → is_lt (rank k a) ≡ true
  rank-lt h = ground (
    arith,
    Le-key a b le,
    lex-flip (key_list (logical_key a)) (key_list k),
    lex-flip (key_list (logical_key b)) (key_list k),
    lex_trans (key_list k) (key_list (logical_key a)) (key_list (logical_key b)),
  )

  pub rank-le : is_le (rank k b) ≡ true → is_le (rank k a) ≡ true
  rank-le h =
      lex_trans (key_list (logical_key a)) (key_list (logical_key b)) (key_list k) (Le-key a b le) h

  pub rank-commit :
      is_eq (rank k a) ≡ true → is_eq (rank k b) ≡ true → a.commit_sequence ≤ b.commit_sequence
  rank-commit p q =
      let ea = lex→eq (key_list (logical_key a)) (key_list k) (is_eq→eq _ p) in
      let eb = lex→eq (key_list (logical_key b)) (key_list k) (is_eq→eq _ q) in
      Le-commit a b le (rw (ea ∙ sym eb) (lex_refl (key_list (logical_key b))))

  pub not_newer_falls : (read : ℕ) → not_newer k read b ≡ true → not_newer k read a ≡ true
  not_newer_falls read h = ground (arith, rank-lt, rank-le, rank-commit)
