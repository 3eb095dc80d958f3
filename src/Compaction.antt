-- ===== src/Compaction.antt =====
-- src/compaction.cpp: the choice of the table files that a compaction merges. A level is the list of
-- its files, in their order; a file has its least and its greatest key.
pub mod Overlap
pub mod Setup
use rich_graph.Base.{
  ℕ, zero, suc, ◌+◌, ◌*◌, max, Bool, true, false, Option, none, some, List, [], ◌∷◌, ◌++◌, length,
  is_empty, get_elem?, ◌==◌, ltb, leb, ◌&&◌, ◌||◌, not, if◌then◌else◌,
}

pub record SstFile : Type 0 where
  pub time_stamp : ℕ
  pub min_key : ℕ
  pub max_key : ℕ

-- GetRange from the second file on, with the range of the files before.
unfoldable pub range_from : ℕ → ℕ → List SstFile → ℕ × ℕ
range_from smallest largest [] = (smallest, largest)
range_from smallest largest (f ∷ fs) =
    range_from (if ltb f.min_key smallest then f.min_key else smallest)
      (if ltb largest f.max_key then f.max_key else largest) fs

-- GetRange; `inputs` is not empty there.
abbrev pub get_range : List SstFile → ℕ × ℕ
get_range [] = (0, 0)
get_range (f ∷ fs) = range_from f.min_key f.max_key fs

abbrev pub get_range2 : List SstFile → List SstFile → ℕ × ℕ
get_range2 inputs1 inputs2 = get_range (inputs1 ++ inputs2)

-- A scan of GetOverlappingInputs ends at the end of the level, or with a wider range.
pub data Scan : Type 0 where
  done : List SstFile → Scan
  restart : ℕ → ℕ → Scan

unfoldable pub scan : Bool → List SstFile → ℕ → ℕ → List SstFile → Scan
scan is_level_0 [] user_begin user_end inputs = done inputs
scan is_level_0 (f ∷ fs) user_begin user_end inputs =
    let skip = scan is_level_0 fs user_begin user_end inputs in
    let take_it = scan is_level_0 fs user_begin user_end (inputs ++ (f ∷ [])) in
    if ltb f.max_key user_begin
    then skip
    else if ltb user_end f.min_key
    then skip
    else if is_level_0 && ltb f.min_key user_begin
    then restart f.min_key user_end
    else if is_level_0 && ltb user_end f.max_key
    then restart user_begin f.max_key
    else take_it

abbrev pub after_scan : Scan → (ℕ → ℕ → Option (List SstFile)) → Option (List SstFile)
after_scan (done inputs) again = some inputs
after_scan (restart user_begin user_end) again = again user_begin user_end

unfoldable pub overlapping_from : ℕ → Bool → List SstFile → ℕ → ℕ → Option (List SstFile)
overlapping_from zero is_level_0 files user_begin user_end = none
overlapping_from (suc fuel) is_level_0 files user_begin user_end =
    after_scan (scan is_level_0 files user_begin user_end [])
      (overlapping_from fuel is_level_0 files)

abbrev pub files_or_none : Option (List SstFile) → List SstFile
files_or_none none = []
files_or_none (some files) = files

-- GetOverlappingInputs. Each restart widens the range to a key of a file, so there are no more of
-- them than keys.
unfoldable pub get_overlapping_inputs : Bool → List SstFile → ℕ → ℕ → List SstFile
get_overlapping_inputs is_level_0 files user_begin user_end =
    files_or_none (overlapping_from (2 * length files + 1) is_level_0 files user_begin user_end)

pub record Inputs : Type 0 where
  pub inputs0 : List SstFile
  pub inputs1 : List SstFile
  pub compact_pointer : ℕ
  pub last_merge_max_key : ℕ

-- SetupOtherInputs of a level, with the files of the level and of the next one. The compaction
-- pointer is that of the level.
unfoldable pub setup_other_inputs :
    Bool → List SstFile → List SstFile → Bool → List SstFile → Inputs
setup_other_inputs is_level_0 files next_files is_grow inputs0 =
    let (smallest, largest) = get_range inputs0 in
    let inputs1 = get_overlapping_inputs false next_files smallest largest in
    let (all_start, all_limit) = get_range2 inputs0 inputs1 in
    let expanded0 = get_overlapping_inputs is_level_0 files all_start all_limit in
    let (new_start, new_limit) = get_range expanded0 in
    let expanded1 = get_overlapping_inputs false next_files new_start new_limit in
    let all = get_range2 expanded0 expanded1 in
    if (is_grow && not (is_empty inputs1))
      && (ltb (length inputs0) (length expanded0) && length expanded1 == length inputs1)
    then record {
      inputs0 = expanded0;
      inputs1 = expanded1;
      compact_pointer = new_limit;
      last_merge_max_key = max new_limit all.1;
    }
    else record {
      inputs0 = inputs0;
      inputs1 = inputs1;
      compact_pointer = largest;
      last_merge_max_key = max largest all_limit;
    }

-- The first file behind the compaction pointer; `max_global_seq` stands for no pointer.
unfoldable pub first_behind : ℕ → ℕ → List SstFile → List SstFile
first_behind max_global_seq pointer [] = []
first_behind max_global_seq pointer (f ∷ fs) =
    let rest = first_behind max_global_seq pointer fs in
    if pointer == max_global_seq || ltb pointer f.min_key then f ∷ [] else rest

abbrev pub first_of : List SstFile → List SstFile
first_of [] = []
first_of (f ∷ fs) = f ∷ []

-- PickCompactioFile of a level that has a file, with `inputs_` empty; the next level is `none` where
-- this is the last. The result is `is_reverse` with the inputs.
unfoldable pub pick_compaction_file :
    ℕ → ℕ → ℕ → Bool → List SstFile → Option (List SstFile) → Bool → Bool × Inputs
pick_compaction_file max_global_seq pointer last_merge_max_key is_level_0 files next_files is_grow =
    let behind = first_behind max_global_seq pointer files in
    let picked = if is_empty behind then first_of files else behind in
    let range = get_range picked in
    let inputs0 =
      if is_level_0 then get_overlapping_inputs true files range.0 range.1 else picked in
    let alone : Inputs = record {
      inputs0 = inputs0;
      inputs1 = [];
      compact_pointer = (get_range inputs0).1;
      last_merge_max_key = last_merge_max_key;
    } in
    (
      is_empty behind,
      elim next_files [
        | none ↦ alone
        | some next ↦ setup_other_inputs is_level_0 files next is_grow inputs0
      ],
    )
