-- ===== src/Tests/Tables.antt =====
-- core/graph/edge.h, src/SSTable.cpp, src/graph_db.cpp, core/fixed_property_layout.h and
-- core/property_delta_overlay_iterator.h: the theorems at small inputs.
use rich_graph.Base.{
  Option, none, pos, eq_bytes, if◌then◌else◌, ℕ, ◌+◌, ◌*◌, ◌^◌, true, false, some, List, [], ◌∷◌,
  ◌++◌, ltb, ◌≡◌, ◌≢◌, refl, arith, negsuc, ◌≤◌, ◌<◌, zero, suc,
}
use rich_graph.Delta.Bisect.{Splits}
use rich_graph.Delta.Newest.{newest}
use rich_graph.Edge.{
  EdgeBody, edge_body, body_bytes, dst_of_bytes, seq_of_bytes, marker_of_bytes, get_marker,
  get_is_out, get_edge_type, get_offset, set_marker, set_is_out, set_edge_type, set_offset,
}
use rich_graph.Edge.Laws.{setters_separate}
use rich_graph.Pod.{encode_fields, encode_le, decode_le}
use rich_graph.Edge.Bytes.{stored_edge}
use rich_graph.Table.{get, low_bound, index_key}
use rich_graph.Table.Search.{Found, Sorted, get-Found, low_bound-Splits}
use rich_graph.Columns.{write_slot, read_slot, trim_trailing_zero}
use rich_graph.Columns.Slots.{write_slot_lem}
use rich_graph.Payload.{shard_values, build_shard_property_string, extract_sub_property}
use rich_graph.Payload.Laws.{extract_sub_property-build_shard_property_string}
use rich_graph.Store.Overlay.{
  EdgeIterator, PropertyDeltaOverlayIterator, edge_data, edge_data-newest,
}
use rich_graph.Tests.Data.{old_version, new_version}
use rich_graph.Tests.Views.{view, no_lookups, view-AllHold}

abbrev memory : EdgeBody
memory = record { prop_pointer = 4294967295; dst_low = 1; seq_low = 2; dst_high = 3; seq_high = 4 }

stored_edge_example :
    (e : EdgeBody) × (edge_body (2 ^ 40 + 9) 7 100 true false 3 memory ≡ some e)
    × (dst_of_bytes (body_bytes e ++ (1 ∷ [])) ≡ 2 ^ 40 + 9)
    × (seq_of_bytes (body_bytes e ++ (1 ∷ [])) ≡ 7)
    × (marker_of_bytes (body_bytes e ++ (1 ∷ [])) ≡ true)
stored_edge_example =
    stored_edge (2 ^ 40 + 9) 7 100 3 true false memory (1 ∷ []) (omega arith) (omega arith)
      (omega arith) (omega arith)

setters_separate_example :
    ((get_marker (set_marker false memory) ≡ false)
      × (get_is_out (set_marker false memory) ≡ get_is_out memory)
      × (get_edge_type (set_marker false memory) ≡ get_edge_type memory)
      × (get_offset (set_marker false memory) ≡ get_offset memory))
    × ((get_is_out (set_is_out false memory) ≡ false)
        × (get_marker (set_is_out false memory) ≡ get_marker memory)
        × (get_edge_type (set_is_out false memory) ≡ get_edge_type memory)
        × (get_offset (set_is_out false memory) ≡ get_offset memory))
    × ((get_edge_type (set_edge_type 7 memory) ≡ 7)
        × (get_marker (set_edge_type 7 memory) ≡ get_marker memory)
        × (get_is_out (set_edge_type 7 memory) ≡ get_is_out memory)
        × (get_offset (set_edge_type 7 memory) ≡ get_offset memory))
    × ((get_offset (set_offset 100 memory) ≡ 100)
        × (get_marker (set_offset 100 memory) ≡ get_marker memory)
        × (get_is_out (set_offset 100 memory) ≡ get_is_out memory)
        × (get_edge_type (set_offset 100 memory) ≡ get_edge_type memory))
setters_separate_example =
    setters_separate memory false 7 100 (omega arith) (omega arith) (omega arith)

abbrev keys : ℕ → ℕ
keys i = 3 * i + 1

keys-Sorted : (start stop : ℕ) → Sorted keys 7 start stop
keys-Sorted start stop i j a b c = omega (arith, b)

get-Found_example : Found keys 7 0 10 (get keys 10 7)
get-Found_example = get-Found keys 7 10 (keys-Sorted 0 10)

-- The keys 5 and 9.
abbrev index_buf : List ℕ
index_buf = encode_fields ((8, 5) ∷ (4, 0) ∷ (8, 9) ∷ (4, 16) ∷ [])

index_buf-Sorted : (i j : ℕ) → 0 ≤ i → i ≤ j → j < 2 → index_key index_buf i ≤ index_key index_buf j
unfolding index_key encode_fields encode_le decode_le
index_buf-Sorted zero zero a b c = omega arith
index_buf-Sorted zero (suc zero) a b c = omega arith
index_buf-Sorted (suc zero) (suc zero) a b c = omega arith
index_buf-Sorted (suc i) zero a b c = absurd (omega arith)
index_buf-Sorted i (suc (suc j)) a b c = absurd (omega arith)
index_buf-Sorted (suc (suc i)) (suc zero) a b c = absurd (omega arith)

low_bound-Splits_example :
    (r : ℕ) × (low_bound 7 0 2 index_buf ≡ some r)
    × Splits (λ i. ltb (index_key index_buf i) 7) 0 2 r
unfolding encode_fields encode_le
low_bound-Splits_example =
    low_bound-Splits index_buf 7 0 2 index_buf-Sorted (omega arith) (omega arith) (omega arith)

abbrev column : List ℕ
column = 1 ∷ 2 ∷ 3 ∷ 4 ∷ 5 ∷ 6 ∷ 7 ∷ 8 ∷ []

write_slot_lem_example :
    let after = write_slot 4 4 (65 ∷ 66 ∷ []) column in
    (read_slot 4 4 after ≡ 65 ∷ 66 ∷ [])
    × ((other : ℕ) → other ≢ 1 → read_slot (other * 4) 4 after ≡ read_slot (other * 4) 4 column)
unfolding trim_trailing_zero
write_slot_lem_example = write_slot_lem 1 4 (65 ∷ 66 ∷ []) column (omega arith)

abbrev edge_below : EdgeIterator
edge_below = record {
  valid = true;
  dst_id = 9;
  sequence = negsuc 0;
  is_out = true;
  edge_type = 1;
  edge_data = λ id. 90 ∷ [];
}

abbrev overlay : PropertyDeltaOverlayIterator
overlay = record { src = 7; base = some edge_below; read_view = some view; read_sequence = 9 }

edge_data-newest_example : (edge_data overlay edge_below 0 no_lookups).0 ≡ 66 ∷ 67 ∷ []
unfolding newest
edge_data-newest_example =
    edge_data-newest overlay edge_below view ((old_version ∷ []) ∷ (new_version ∷ []) ∷ []) 0
      no_lookups refl refl view-AllHold

abbrev names : List (List ℕ)
names = (97 ∷ []) ∷ (98 ∷ []) ∷ (99 ∷ []) ∷ []

-- The property `b` is not given.
abbrev incoming : List ℕ → Option (List ℕ)
incoming name = if eq_bytes name (98 ∷ []) then none else some (name ++ (65 ∷ []))

extract_sub_property-build_shard_property_string_example :
    extract_sub_property (build_shard_property_string names incoming) (pos 2) ≡ 99 ∷ 65 ∷ []
unfolding shard_values eq_bytes
extract_sub_property-build_shard_property_string_example =
    extract_sub_property-build_shard_property_string names incoming 2 (99 ∷ [])
      ((refl, (refl, tt)), (tt, ((refl, (refl, tt)), tt))) refl
