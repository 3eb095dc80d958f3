-- ===== src/Compaction/Setup.antt =====
-- src/compaction.cpp: the inputs that SetupOtherInputs leaves.
use rich_graph.Base.{
  ℕ, ◌≤◌, Bool, false, List, [], ◌∷◌, All, length, is_empty, ltb, not, ◌==◌, ◌&&◌, ◌≡◌, refl, arith,
  if◌then◌else◌, Bool-cases, inl, inr,
}
use rich_graph.Compaction.{
  SstFile, range_from, get_range, get_range2, get_overlapping_inputs, setup_other_inputs,
}
use rich_graph.Compaction.Overlap.{Within, overlapping, get_overlapping_inputs_below}

All-Within :
    (from to from' to' : ℕ) (fs : List SstFile)
    → from' ≤ from
    → to ≤ to'
    → All (Within from to) fs
    → All (Within from' to') fs
All-Within from to from' to' [] a b h = tt
All-Within from to from' to' (f ∷ fs) a b ((c, d), h) =
    ((omega (arith, a, c), omega (arith, b, d)), All-Within from to from' to' fs a b h)

-- The range starts no later and ends no earlier than the one before, and the files lie in it.
range_from-Within :
    (smallest largest : ℕ) (fs : List SstFile)
    → let (from, to) = range_from smallest largest fs in
      (from ≤ smallest) × (largest ≤ to) × All (Within from to) fs
unfolding range_from
range_from-Within smallest largest [] = (omega arith, omega arith, tt)
range_from-Within smallest largest (f ∷ fs) =
    let least = if ltb f.min_key smallest then f.min_key else smallest in
    let greatest = if ltb largest f.max_key then f.max_key else largest in
    let (a, b, rest) = range_from-Within least greatest fs in
    (ground (arith, a), ground (arith, b), ((ground (arith, a), ground (arith, b)), rest))

get_range-Within : (fs : List SstFile) → All (Within (get_range fs).0 (get_range fs).1) fs
get_range-Within [] = tt
get_range-Within (f ∷ fs) =
    let (a, b, rest) = range_from-Within f.min_key f.max_key fs in ((a, b), rest)

-- Whether SetupOtherInputs takes more files of its level or not, the keys of the files of the
-- level lie in their range, the files of the next level are, in their order, all those that
-- overlap that range, and the compaction pointer is the greatest key of the range.
pub setup_covers :
    (is_level_0 is_grow : Bool) (files next_files inputs0 : List SstFile)
    → let after = setup_other_inputs is_level_0 files next_files is_grow inputs0 in
      let (from, to) = get_range after.inputs0 in
      All (Within from to) after.inputs0
      × (after.inputs1 ≡ overlapping from to next_files)
      × (after.compact_pointer ≡ to)
unfolding setup_other_inputs
setup_covers is_level_0 is_grow files next_files inputs0 =
    let (smallest, largest) = get_range inputs0 in
    let inputs1 = get_overlapping_inputs false next_files smallest largest in
    let (all_start, all_limit) = get_range2 inputs0 inputs1 in
    let expanded0 = get_overlapping_inputs is_level_0 files all_start all_limit in
    let (new_start, new_limit) = get_range expanded0 in
    let expanded1 = get_overlapping_inputs false next_files new_start new_limit in
    elim (Bool-cases (
      (is_grow && not (is_empty inputs1))
      && (ltb (length inputs0) (length expanded0) && length expanded1 == length inputs1))) [
        | inl e ↦ rw e (
          get_range-Within expanded0,
          get_overlapping_inputs_below next_files new_start new_limit,
          refl,
        )
        | inr e ↦ rw e (
          get_range-Within inputs0,
          get_overlapping_inputs_below next_files smallest largest,
          refl,
        )
      ]
