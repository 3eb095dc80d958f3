-- ===== src/Base/Lex.antt =====
-- Lists of integers in lexicographic order: the order that the chains of field comparisons in the
-- C++ code stand for.
use Prim.Native.Nat.{Ordering}
use rich_graph.Base.Int.{ℤ, lt_ℤ, eq_ℤ, eq_ℤ→eq}
use rich_graph.Base.Tests.{if◌then◌else◌}
use mathlib.Core.Path.{◌≡◌, refl}
use mathlib.Core.Bool.{Bool, true, false}
use mathlib.Core.List.{List, [], ◌∷◌}
use native.Mathlib.Omega.{arith}

unfoldable pub lex : List ℤ → List ℤ → Ordering
lex [] [] = Ordering.eq
lex [] (y ∷ ys) = Ordering.lt
lex (x ∷ xs) [] = Ordering.gt
lex (x ∷ xs) (y ∷ ys) =
    if eq_ℤ x y then lex xs ys else if lt_ℤ x y then Ordering.lt else Ordering.gt

-- `is_lt o` is `o < 0` and `is_le o` is `o <= 0`, for a result of -1, 0 or 1.
abbrev pub is_lt : Ordering → Bool
is_lt Ordering.lt = true
is_lt _ = false

abbrev pub is_le : Ordering → Bool
is_le Ordering.gt = false
is_le _ = true

abbrev pub is_eq : Ordering → Bool
is_eq Ordering.eq = true
is_eq _ = false

abbrev pub flip : Ordering → Ordering
flip Ordering.lt = Ordering.gt
flip Ordering.eq = Ordering.eq
flip Ordering.gt = Ordering.lt

pub lex_refl : (a : List ℤ) → lex a a ≡ Ordering.eq
unfolding lex
lex_refl [] = refl
lex_refl (x ∷ xs) = ground (arith, lex_refl xs)

pub lex-flip : (a b : List ℤ) → lex b a ≡ flip (lex a b)
unfolding lex
lex-flip [] [] = refl
lex-flip [] (y ∷ ys) = refl
lex-flip (x ∷ xs) [] = refl
lex-flip (x ∷ xs) (y ∷ ys) = ground (arith, lex-flip xs ys)

pub lex→eq : (a b : List ℤ) → lex a b ≡ Ordering.eq → a ≡ b
unfolding lex
lex→eq [] [] h = refl
lex→eq [] (y ∷ ys) h = ground arith
lex→eq (x ∷ xs) [] h = ground arith
lex→eq (x ∷ xs) (y ∷ ys) h = ground (arith, eq_ℤ→eq x y, lex→eq xs ys)

pub lex_trans :
    (a b c : List ℤ) → is_le (lex a b) ≡ true → is_le (lex b c) ≡ true → is_le (lex a c) ≡ true
unfolding lex
lex_trans [] [] c h k = k
lex_trans [] (y ∷ ys) [] h k = refl
lex_trans [] (y ∷ ys) (z ∷ zs) h k = refl
lex_trans (x ∷ xs) [] c h k = ground arith
lex_trans (x ∷ xs) (y ∷ ys) [] h k = ground arith
lex_trans (x ∷ xs) (y ∷ ys) (z ∷ zs) h k = ground (arith, lex_trans xs ys zs)

-- A strict step on the left makes the chain strict.
pub lex_lt_trans :
    (a b c : List ℤ) → is_lt (lex a b) ≡ true → is_le (lex b c) ≡ true → is_lt (lex a c) ≡ true
unfolding lex
lex_lt_trans [] [] c h k = ground arith
lex_lt_trans [] (y ∷ ys) [] h k = ground arith
lex_lt_trans [] (y ∷ ys) (z ∷ zs) h k = refl
lex_lt_trans (x ∷ xs) [] c h k = ground arith
lex_lt_trans (x ∷ xs) (y ∷ ys) [] h k = ground arith
lex_lt_trans (x ∷ xs) (y ∷ ys) (z ∷ zs) h k = ground (arith, lex_lt_trans xs ys zs)
