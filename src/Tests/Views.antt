-- ===== src/Tests/Views.antt =====
-- src/property_delta_store.cpp: the theorems at a view of two files.
use rich_graph.Base.{◌+◌, ◌<◌, ◌≤◌, none, some, [], ◌∷◌, length, ◌≡◌, arith, ◌↔◌}
use rich_graph.Delta.{PropertyDeltaRecord}
use rich_graph.Delta.Build.{build_start}
use rich_graph.Delta.Image.{create_header, create_bytes}
use rich_graph.Delta.File.{PropertyDeltaFile, lookup}
use rich_graph.Delta.Kept.{InRange}
use rich_graph.Delta.Layout.{built}
use rich_graph.Delta.Accept.{opened}
use rich_graph.Delta.Newest.{newest}
use rich_graph.Delta.Search.{Holds, lookup-newest}
use rich_graph.Delta.Reopen.{opened-Holds}
use rich_graph.Store.View.{PropertyDeltaReadView, LookupCounters, view_lookup}
use rich_graph.Store.View.Laws.{AllHold, nil, cons, view_lookup-newest, view_lookup_counts}
use rich_graph.Tests.Data.{target, new_version, old_version, key, path}
use rich_graph.Tests.DeltaFiles.{target_fits, new_fits, old_fits}

abbrev pub file_of : PropertyDeltaRecord → PropertyDeltaFile
file_of r =
    let s = built (r ∷ []) build_start in
    opened path (create_bytes target 1 s) (create_header target 1 s)

file_of-Holds :
    (r : PropertyDeltaRecord) → InRange r → length r.value < 10 → Holds (file_of r) (r ∷ [])
file_of-Holds r fits short =
    opened-Holds target 1 (r ∷ []) target_fits (omega arith) (fits, tt) (omega arith) (omega arith)
      (tt, tt) path

abbrev pub view : PropertyDeltaReadView
view = record {
  merged_base = none;
  deltas = file_of old_version ∷ file_of new_version ∷ [];
  generation = 1;
}

abbrev pub no_lookups : LookupCounters
no_lookups = record { lookups = 0; files_probed = 0; hits = 0; base_fallbacks = 0 }

pub view-AllHold : AllHold view.deltas ((old_version ∷ []) ∷ (new_version ∷ []) ∷ [])
view-AllHold =
    cons (file_of-Holds old_version old_fits (omega arith))
      (cons (file_of-Holds new_version new_fits (omega arith)) nil)

lookup-newest_example : lookup (file_of old_version) key 5 ≡ some (65 ∷ [], 5)
unfolding newest
lookup-newest_example =
    lookup-newest (file_of old_version) (old_version ∷ [])
      (file_of-Holds old_version old_fits (omega arith)) key 5

view_lookup-newest_example : (view_lookup view key 9 no_lookups).0 ≡ some (66 ∷ 67 ∷ [], 8)
unfolding newest
view_lookup-newest_example =
    view_lookup-newest key 9 view ((old_version ∷ []) ∷ (new_version ∷ []) ∷ []) no_lookups
      view-AllHold

view_lookup_counts_example :
    let (found, after) = view_lookup view key 9 no_lookups in
    (after.lookups ≡ no_lookups.lookups + 1)
    × (after.hits + after.base_fallbacks ≡ no_lookups.hits + no_lookups.base_fallbacks + 1)
    × (after.files_probed ≤ no_lookups.files_probed + length view.deltas)
    × ((found ≡ none) ↔ (after.hits ≡ no_lookups.hits))
view_lookup_counts_example = view_lookup_counts key 9 view no_lookups
