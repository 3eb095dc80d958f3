-- ===== src/Tests/Compactions.antt =====
-- src/compaction.cpp: the theorems at a level 0 whose files overlap in a row.
use rich_graph.Base.{ℕ, true, false, some, List, [], ◌∷◌, All, ◌≡◌, refl}
use rich_graph.Compaction.{
  SstFile, get_range, get_overlapping_inputs, setup_other_inputs, scan, overlapping_from,
  range_from, pick_compaction_file, first_behind,
}
use rich_graph.Compaction.Overlap.{Within, overlapping, Closed, get_overlapping_inputs-Closed}
use rich_graph.Compaction.Setup.{setup_covers}

abbrev file_of_keys : ℕ → ℕ → ℕ → SstFile
file_of_keys t a b = record { time_stamp = t; min_key = a; max_key = b }

abbrev level_0 : List SstFile
level_0 = file_of_keys 1 8 12 ∷ file_of_keys 2 20 30 ∷ file_of_keys 3 5 9 ∷ file_of_keys 4 1 6 ∷ []

abbrev level_1 : List SstFile
level_1 = file_of_keys 5 0 2 ∷ file_of_keys 6 3 11 ∷ file_of_keys 7 15 40 ∷ []

-- The files from 10 to 11 draw in those from 5 and from 1, but not those from 20.
row_is_taken :
    get_overlapping_inputs true level_0 10 11
    ≡ file_of_keys 1 8 12 ∷ file_of_keys 3 5 9 ∷ file_of_keys 4 1 6 ∷ []
unfolding get_overlapping_inputs overlapping_from scan
row_is_taken = refl

first_pick : (pick_compaction_file 99 9 0 true level_0 (some level_1) false).1.compact_pointer ≡ 30
unfolding pick_compaction_file first_behind get_overlapping_inputs overlapping_from scan range_from
    setup_other_inputs
first_pick = refl

get_overlapping_inputs-Closed_example :
    Closed level_0 10 11 (get_overlapping_inputs true level_0 10 11)
get_overlapping_inputs-Closed_example = get_overlapping_inputs-Closed level_0 10 11

setup_covers_example :
    let after = setup_other_inputs true level_0 level_1 true (file_of_keys 3 5 9 ∷ []) in
    let (from, to) = get_range after.inputs0 in
    All (Within from to) after.inputs0
    × (after.inputs1 ≡ overlapping from to level_1)
    × (after.compact_pointer ≡ to)
setup_covers_example = setup_covers true true level_0 level_1 (file_of_keys 3 5 9 ∷ [])
