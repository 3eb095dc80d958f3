-- ===== src/Pod/Laws.antt =====
-- Packed structs read back as they were written, and have the size that their widths add up to.
use native.Mathlib.Nat.{pow-suc}
use rich_graph.Base.{
  ℕ, zero, suc, ◌+◌, ◌/◌, ◌^◌, ◌≤◌, ◌<◌, List, [], ◌∷◌, ◌++◌, length, ◌≡◌, refl, ap, ℤ, pos, negsuc,
  arith, length-append, take_append, drop_append, append_assoc, pos_part, neg_part,
}
use rich_graph.Pod.{
  encode_le, decode_le, encode_fields, decode_fields, widths, values, int64_word, word_int64,
}

pub length-encode_le : (w v : ℕ) → length (encode_le w v) ≡ w
unfolding encode_le
length-encode_le zero v = refl
length-encode_le (suc w) v = ap suc (length-encode_le w (v / 256))

pub decode_le-encode_le : (w v : ℕ) → v < 256 ^ w → decode_le (encode_le w v) ≡ v
unfolding encode_le decode_le
decode_le-encode_le zero v h = omega arith
decode_le-encode_le (suc w) v h =
    omega (arith, decode_le-encode_le w (v / 256) (omega (arith, pow-suc 256 w)))

abbrev pub sum : List ℕ → ℕ
sum [] = 0
sum (w ∷ ws) = w + sum ws

abbrev pub Fits : List (ℕ × ℕ) → Type 0
Fits [] = Unit {0}
Fits ((w, v) ∷ fs) = (v < 256 ^ w) × Fits fs

pub length-encode_fields : (fs : List (ℕ × ℕ)) → length (encode_fields fs) ≡ sum (widths fs)
unfolding encode_fields
length-encode_fields [] = refl
length-encode_fields ((w, v) ∷ fs) = omega (
  arith,
  length-append (encode_le w v) (encode_fields fs),
  length-encode_le w v,
  length-encode_fields fs,
)

pub decode_fields-encode_fields :
    (fs : List (ℕ × ℕ)) (rest : List ℕ)
    → Fits fs
    → decode_fields (widths fs) (encode_fields fs ++ rest) ≡ values fs
unfolding encode_fields decode_fields
decode_fields-encode_fields [] rest h = refl
decode_fields-encode_fields ((w, v) ∷ fs) rest h = simp (
  append_assoc,
  take_append (encode_le w v) (encode_fields fs ++ rest) w (omega (arith, length-encode_le w v)),
  drop_append (encode_le w v) (encode_fields fs ++ rest) w (omega (arith, length-encode_le w v)),
  decode_le-encode_le w v h.0,
  decode_fields-encode_fields fs rest h.1,
)

-- An int64_t keeps its value through its bit pattern.
abbrev pub IsInt64 : ℤ → Type 0
IsInt64 z = (pos_part z < 2 ^ 63) × (neg_part z ≤ 2 ^ 63)

pub int64_word-lt : (z : ℤ) → IsInt64 z → int64_word z < 2 ^ 64
int64_word-lt (pos n) h = omega arith
int64_word-lt (negsuc n) h = omega arith

pub word_int64-int64_word : (z : ℤ) → IsInt64 z → word_int64 (int64_word z) ≡ z
word_int64-int64_word (pos n) h = ground arith
word_int64-int64_word (negsuc n) h = ground arith
