-- ===== src/Delta/Build.antt =====
-- src/property_delta.cpp, PropertyDeltaFile::Create up to the header: sorting, removal of repeated
-- versions, and the disk records with the values that they point to.
use rich_graph.Base.{
  ℕ, ◌-◌, ◌^◌, true, false, List, [], ◌∷◌, ◌++◌, length, ltb, if◌then◌else◌, min, max,
}
use rich_graph.Delta.{PropertyDeltaRecord, DeltaDiskRecord, direction}
use rich_graph.Delta.Order.{record_less, same_version}
use rich_graph.Delta.Error.{Result, ok, err, value_too_long, values_overflow}

-- std::stable_sort with RecordLess: equal records keep their order.
unfoldable pub insert : PropertyDeltaRecord → List PropertyDeltaRecord → List PropertyDeltaRecord
insert x [] = x ∷ []
insert x (y ∷ ys) = if record_less y x then y ∷ insert x ys else x ∷ y ∷ ys

unfoldable pub stable_sort : List PropertyDeltaRecord → List PropertyDeltaRecord
unfolding insert
stable_sort [] = []
stable_sort (x ∷ xs) = insert x (stable_sort xs)

-- The loop over the sorted records: `back` is `deduplicated.back()`.
unfoldable pub dedup_from :
    PropertyDeltaRecord → List PropertyDeltaRecord → List PropertyDeltaRecord
dedup_from back [] = back ∷ []
dedup_from back (x ∷ xs) = elim (same_version back x) [
  | true ↦ dedup_from x xs
  | false ↦ back ∷ dedup_from x xs
]

unfoldable pub deduplicate : List PropertyDeltaRecord → List PropertyDeltaRecord
unfolding dedup_from
deduplicate [] = []
deduplicate (x ∷ xs) = dedup_from x xs

pub record BuildState : Type 0 where
  pub disk_records : List DeltaDiskRecord
  pub values : List ℕ
  pub min_commit : ℕ
  pub max_commit : ℕ

abbrev pub disk_record : PropertyDeltaRecord → ℕ → DeltaDiskRecord
disk_record r offset = record {
  src = r.src;
  dst = r.dst;
  base_sequence = r.base_sequence;
  commit_sequence = r.commit_sequence;
  value_offset = offset;
  value_length = length r.value;
  edge_type = r.edge_type;
  is_out = direction r.is_out;
}

abbrev pub push_record : PropertyDeltaRecord → BuildState → BuildState
push_record r s = record {
  disk_records = s.disk_records ++ (disk_record r (length s.values) ∷ []);
  values = s.values ++ r.value;
  min_commit = min s.min_commit r.commit_sequence;
  max_commit = max s.max_commit r.commit_sequence;
}

unfoldable pub build : List PropertyDeltaRecord → BuildState → Result BuildState
build [] s = ok s
build (r ∷ rs) s =
    let rest = build rs (push_record r s) in
    if ltb (2 ^ 32 - 1) (length r.value)
    then err value_too_long
    else if ltb (2 ^ 64 - 1 - length r.value) (length s.values)
    then err values_overflow
    else rest

abbrev pub build_start : BuildState
build_start = record { disk_records = []; values = []; min_commit = 2 ^ 64 - 1; max_commit = 0 }
