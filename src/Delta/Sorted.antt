-- ===== src/Delta/Sorted.antt =====
-- The records that Create writes ascend in RecordLess.
use rich_graph.Base.{
  true, false, List, [], ◌∷◌, ◌≡◌, All, arith, inl, inr, Bool-cases, lex, is_le, lex_refl, lex-flip,
  lex_trans,
}
use rich_graph.Delta.{PropertyDeltaRecord}
use rich_graph.Delta.Order.{record_less, same_version, version_list, record_less-lex}
use rich_graph.Delta.Kept.{All-insert, All-dedup_from, written}
use rich_graph.Delta.Build.{insert, stable_sort, dedup_from, deduplicate}

-- `a` is not after `b`.
abbrev pub Le : PropertyDeltaRecord → PropertyDeltaRecord → Type 0
Le a b = is_le (lex (version_list a) (version_list b)) ≡ true

abbrev pub IsSorted : List PropertyDeltaRecord → Type 0
IsSorted [] = Unit {0}
IsSorted (x ∷ xs) = All (Le x) xs × IsSorted xs

pub Le_trans : (a b c : PropertyDeltaRecord) → Le a b → Le b c → Le a c
Le_trans a b c h k = lex_trans (version_list a) (version_list b) (version_list c) h k

pub Le_refl : (a : PropertyDeltaRecord) → Le a a
Le_refl a = ground (arith, lex_refl (version_list a))

-- `RecordLess(y, x)` fails exactly if `x` is not after `y`.
pub record_less-Le : (x y : PropertyDeltaRecord) → record_less y x ≡ false → Le x y
record_less-Le x y h =
    ground (arith, record_less-lex y x, lex-flip (version_list x) (version_list y))

pub Le-record_less : (x y : PropertyDeltaRecord) → Le x y → record_less y x ≡ false
Le-record_less x y h =
    ground (arith, record_less-lex y x, lex-flip (version_list x) (version_list y))

less-Le : (x y : PropertyDeltaRecord) → record_less x y ≡ true → Le x y
less-Le x y h = ground (arith, record_less-lex x y)

All-Le_trans :
    (a b : PropertyDeltaRecord) (ys : List PropertyDeltaRecord)
    → Le a b
    → All (Le b) ys
    → All (Le a) ys
All-Le_trans a b [] h k = tt
All-Le_trans a b (y ∷ ys) h k = (Le_trans a b y h k.0, All-Le_trans a b ys h k.1)

insert-IsSorted :
    (x : PropertyDeltaRecord) (ys : List PropertyDeltaRecord) → IsSorted ys → IsSorted (insert x ys)
unfolding insert
insert-IsSorted x [] s = (tt, tt)
insert-IsSorted x (y ∷ ys) s = elim (Bool-cases (record_less y x)) [
  | inl e ↦ rw e (All-insert (Le y) x ys (less-Le y x e) s.0, insert-IsSorted x ys s.1)
  | inr e ↦ let le = record_less-Le x y e in rw e ((le, All-Le_trans x y ys le s.0), s)
]

pub stable_sort-IsSorted : (rs : List PropertyDeltaRecord) → IsSorted (stable_sort rs)
unfolding stable_sort
stable_sort-IsSorted [] = tt
stable_sort-IsSorted (x ∷ xs) = insert-IsSorted x (stable_sort xs) (stable_sort-IsSorted xs)

dedup_from-IsSorted :
    (x : PropertyDeltaRecord) (xs : List PropertyDeltaRecord)
    → IsSorted (x ∷ xs)
    → IsSorted (dedup_from x xs)
unfolding dedup_from
dedup_from-IsSorted x [] s = s
dedup_from-IsSorted x (y ∷ ys) s = elim (Bool-cases (same_version x y)) [
  | inl e ↦ rw (e, dedup_from) (dedup_from-IsSorted y ys s.1)
  | inr e ↦
      rw (e, dedup_from) (All-dedup_from (Le x) y ys s.0.0 s.0.1, dedup_from-IsSorted y ys s.1)
]

deduplicate-IsSorted : (rs : List PropertyDeltaRecord) → IsSorted rs → IsSorted (deduplicate rs)
unfolding deduplicate
deduplicate-IsSorted [] s = tt
deduplicate-IsSorted (x ∷ xs) s = dedup_from-IsSorted x xs s

-- The records that Create writes are sorted by key and, for one key, by commit sequence.
pub written-IsSorted : (rs : List PropertyDeltaRecord) → IsSorted (written rs)
written-IsSorted rs = deduplicate-IsSorted (stable_sort rs) (stable_sort-IsSorted rs)
