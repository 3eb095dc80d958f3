-- ===== src/Store/View.antt =====
-- PropertyDeltaReadView of core/property_delta_store.h, and its Lookup in
-- src/property_delta_store.cpp.
pub mod Laws
pub mod Append
use rich_graph.Base.{
  ℕ, ◌+◌, Bool, true, false, Option, none, some, List, [], ◌∷◌, ltb, leb, ◌||◌, if◌then◌else◌,
}
use rich_graph.Delta.{LogicalKey}
use rich_graph.Delta.File.{PropertyDeltaFile, lookup}

pub record LookupCounters : Type 0 where
  pub lookups : ℕ
  pub files_probed : ℕ
  pub hits : ℕ
  pub base_fallbacks : ℕ

-- Of a mapped replacement column the contents and the generation are kept.
pub record MappedPropertyFile : Type 0 where
  pub mapping : List ℕ
  pub generation : ℕ

pub record PropertyDeltaReadView : Type 0 where
  pub merged_base : Option MappedPropertyFile
  pub deltas : List PropertyDeltaFile
  pub generation : ℕ

-- `found`, `best_value` and `best_commit` as an option, and the number of files probed.
pub record Search : Type 0 where
  pub best : Option (List ℕ × ℕ)
  pub probed : ℕ

abbrev pub not_better : Option (List ℕ × ℕ) → ℕ → Bool
not_better none max_commit = false
not_better (some (value, commit)) max_commit = leb max_commit commit

abbrev pub improve : Option (List ℕ × ℕ) → Option (List ℕ × ℕ) → Option (List ℕ × ℕ)
improve none best = best
improve (some candidate) none = some candidate
improve (some (value, commit)) (some (best_value, best_commit)) =
    if ltb best_commit commit then some (value, commit) else some (best_value, best_commit)

-- One round of the loop.
unfoldable pub probe : LogicalKey → ℕ → PropertyDeltaFile → Search → Search
probe key read_sequence file s =
    if ltb read_sequence file.metadata.min_commit_sequence
      || not_better s.best file.metadata.max_commit_sequence
    then s
    else record { best = improve (lookup file key read_sequence) s.best; probed = s.probed + 1 }

-- From `rbegin` to `rend`: the last file is probed first.
unfoldable pub probe_all : LogicalKey → ℕ → List PropertyDeltaFile → Search → Search
probe_all key read_sequence [] s = s
probe_all key read_sequence (file ∷ files) s =
    probe key read_sequence file (probe_all key read_sequence files s)

abbrev pub count_lookup : LookupCounters → Search → LookupCounters
count_lookup c s = elim s.best [
  | none ↦ record c {
    lookups = c.lookups + 1;
    files_probed = c.files_probed + s.probed;
    base_fallbacks = c.base_fallbacks + 1;
  }
  | some found ↦ record c {
    lookups = c.lookups + 1;
    files_probed = c.files_probed + s.probed;
    hits = c.hits + 1;
  }
]

-- The value and commit sequence found, and the counters after the call.
unfoldable pub view_lookup :
    PropertyDeltaReadView → LogicalKey → ℕ → LookupCounters → Option (List ℕ × ℕ) × LookupCounters
view_lookup view key read_sequence counters =
    let s = probe_all key read_sequence view.deltas (record { best = none; probed = 0 }) in
    (s.best, count_lookup counters s)
