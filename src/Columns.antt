-- ===== src/Columns.antt =====
-- core/fixed_property_layout.h: property columns of slots of one width. The thread-local override and
-- the flags are arguments; sub_property_id is an int.
pub mod Slots
use rich_graph.Base.{
  ℕ, zero, suc, ◌+◌, ◌-◌, ◌*◌, ◌/◌, max, Bool, true, false, Option, none, some, List, [], ◌∷◌, ◌++◌,
  length, take, drop, replicate, get_elem?, is_empty, ◌==◌, ◌&&◌, if◌then◌else◌, ℤ, pos, negsuc,
}

-- The constructor of ScopedFixedPropertyLayout: the override while the object lives.
abbrev pub scoped_layout : Option (List ℕ) → Option (List ℕ)
scoped_layout none = none
scoped_layout (some []) = none
scoped_layout (some (l ∷ ls)) = some (l ∷ ls)

abbrev pub active_sub_property_num : Option (List ℕ) → ℕ → ℕ
active_sub_property_num none flag = flag
active_sub_property_num (some []) flag = flag
active_sub_property_num (some (l ∷ ls)) flag = length (l ∷ ls)

-- `property_num` is not negative.
abbrev pub build_uniform_lengths : ℕ → ℕ → List ℕ
build_uniform_lengths property_num fixed_length =
    replicate (max 1 property_num) (max 1 fixed_length)

abbrev pub length_or : Option ℕ → ℕ → ℕ
length_or none flag = max 1 flag
length_or (some l) flag = l

abbrev pub override_lengths : Option (List ℕ) → List ℕ
override_lengths none = []
override_lengths (some ls) = ls

abbrev pub fixed_length : Option (List ℕ) → ℕ → ℤ → ℕ
fixed_length override flag (negsuc n) = max 1 flag
fixed_length override flag (pos id) = length_or (get_elem? (override_lengths override) id) flag

-- An edge body has 16 bytes.
abbrev pub edge_ordinal : ℕ → ℕ
edge_ordinal body_offset = body_offset / 16

abbrev pub slot_offset : ℕ → ℕ → ℕ
slot_offset ordinal slot_len = ordinal * slot_len

-- The memory of a slot: zeros, and the value over them as far as it fits.
unfoldable pub padded_slot : ℕ → List ℕ → List ℕ
padded_slot slot_len src = take slot_len src ++ replicate (slot_len - length src) 0

-- WritePaddedSubPropertySlot into a column, at a slot that lies in it.
unfoldable pub write_slot : ℕ → ℕ → List ℕ → List ℕ → List ℕ
write_slot at slot_len src column =
    take at column ++ (padded_slot slot_len src ++ drop (at + slot_len) column)

-- The zeros at the end are taken away, and no others.
unfoldable pub trim_trailing_zero : List ℕ → List ℕ
trim_trailing_zero [] = []
trim_trailing_zero (c ∷ cs) =
    let rest = trim_trailing_zero cs in if c == 0 && is_empty rest then [] else c ∷ rest

unfoldable pub read_slot : ℕ → ℕ → List ℕ → List ℕ
read_slot at slot_len column = trim_trailing_zero (take slot_len (drop at column))
