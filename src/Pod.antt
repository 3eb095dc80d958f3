-- ===== src/Pod.antt =====
-- Packed structs as bytes: what `memcpy` of a `#pragma pack(push, 1)` struct writes and reads on a
-- little-endian machine. A struct is the list of its fields' widths with their values.
pub mod Laws
use rich_graph.Base.{
  ℕ, zero, suc, ◌+◌, ◌-◌, ◌*◌, ◌/◌, ◌%◌, ◌^◌, List, [], ◌∷◌, ◌++◌, take, drop, ltb, if◌then◌else◌,
  ℤ, pos, negsuc,
}

unfoldable pub encode_le : ℕ → ℕ → List ℕ
encode_le zero v = []
encode_le (suc w) v = v % 256 ∷ encode_le w (v / 256)

unfoldable pub decode_le : List ℕ → ℕ
decode_le [] = 0
decode_le (b ∷ bs) = b + 256 * decode_le bs

unfoldable pub encode_fields : List (ℕ × ℕ) → List ℕ
unfolding encode_le
encode_fields [] = []
encode_fields ((w, v) ∷ fs) = encode_le w v ++ encode_fields fs

unfoldable pub decode_fields : List ℕ → List ℕ → List ℕ
unfolding decode_le
decode_fields [] bytes = []
decode_fields (w ∷ ws) bytes = decode_le (take w bytes) ∷ decode_fields ws (drop w bytes)

abbrev pub widths : List (ℕ × ℕ) → List ℕ
widths [] = []
widths ((w, v) ∷ fs) = w ∷ widths fs

abbrev pub values : List (ℕ × ℕ) → List ℕ
values [] = []
values ((w, v) ∷ fs) = v ∷ values fs

-- An int64_t is stored as its two's complement.
abbrev pub int64_word : ℤ → ℕ
int64_word (pos n) = n
int64_word (negsuc n) = 2 ^ 64 - 1 - n

abbrev pub word_int64 : ℕ → ℤ
word_int64 w = if ltb w (2 ^ 63) then pos w else negsuc (2 ^ 64 - 1 - w)

-- The value of a field by its place, 0 where there is none.
abbrev pub field : List ℕ → ℕ → ℕ
field [] i = 0
field (x ∷ xs) zero = x
field (x ∷ xs) (suc i) = field xs i
