-- ===== src/Store/Overlay.antt =====
-- core/property_delta_overlay_iterator.h: the edge of an iterator with the visible property updates
-- over it. The iterator below is what its virtual functions answer at the current edge.
use rich_graph.Base.{ℕ, Bool, true, false, Option, none, some, List, ◌≡◌, ap, not, if◌then◌else◌, ℤ}
use rich_graph.Delta.{PropertyDeltaRecord, LogicalKey}
use rich_graph.Delta.Newest.{newest}
use rich_graph.Delta.Search.{answer}
use rich_graph.Store.View.{PropertyDeltaReadView, LookupCounters, view_lookup}
use rich_graph.Store.View.Laws.{AllHold, all_records, view_lookup-newest}

pub record EdgeIterator : Type 0 where
  pub valid : Bool
  pub dst_id : ℕ
  pub sequence : ℤ
  pub is_out : Bool
  pub edge_type : ℕ
  pub edge_data : ℕ → List ℕ

-- `base_` and `read_view_` may be null.
pub record PropertyDeltaOverlayIterator : Type 0 where
  pub src : ℕ
  pub base : Option EdgeIterator
  pub read_view : Option PropertyDeltaReadView
  pub read_sequence : ℕ

abbrev pub is_valid : Option EdgeIterator → Bool
is_valid none = false
is_valid (some it) = it.valid

unfoldable pub valid : PropertyDeltaOverlayIterator → Bool
valid o = is_valid o.base

abbrev pub edge_key : ℕ → EdgeIterator → LogicalKey
edge_key src it = record {
  src = src;
  dst = it.dst_id;
  base_sequence = it.sequence;
  is_out = it.is_out;
  edge_type = it.edge_type;
}

abbrev pub found_or_base : Option (List ℕ × ℕ) → List ℕ → List ℕ
found_or_base none base_value = base_value
found_or_base (some (value, commit)) base_value = value

abbrev pub overlaid :
    PropertyDeltaOverlayIterator
    → EdgeIterator
    → ℕ
    → Option PropertyDeltaReadView
    → LookupCounters
    → List ℕ × LookupCounters
overlaid o it id none counters = (it.edge_data id, counters)
overlaid o it id (some view) counters =
    let (found, after) = view_lookup view (edge_key o.src it) o.read_sequence counters in
    (found_or_base found (it.edge_data id), after)

-- edge_data at an iterator that `base_` points to.
unfoldable pub edge_data :
    PropertyDeltaOverlayIterator → EdgeIterator → ℕ → LookupCounters → List ℕ × LookupCounters
edge_data o it id counters =
    if not it.valid then (it.edge_data id, counters) else overlaid o it id o.read_view counters

-- For a valid edge below and a view each of whose files holds a list of records, edge_data is, for
-- every property id, the value of the newest version that the read sequence admits among the
-- records with the source of the iterator and the destination, the sequence, the direction and the
-- type of the edge below, and where there is none it is the property of that id below: the id is
-- not compared with the property of the view.
pub edge_data-newest :
    (o : PropertyDeltaOverlayIterator) (it : EdgeIterator) (view : PropertyDeltaReadView)
    (rss : List (List PropertyDeltaRecord)) (id : ℕ) (counters : LookupCounters)
    → it.valid ≡ true
    → o.read_view ≡ some view
    → AllHold view.deltas rss
    → (edge_data o it id counters).0
      ≡ found_or_base
          (answer (
            newest
              (record {
                src = o.src;
                dst = it.dst_id;
                base_sequence = it.sequence;
                is_out = it.is_out;
                edge_type = it.edge_type;
              })
              o.read_sequence
              (all_records rss)))
          (it.edge_data id)
unfolding edge_data
edge_data-newest o it view rss id counters v there h =
    rw (v, there)
      (ap (λ found. found_or_base found (it.edge_data id))
        (view_lookup-newest (edge_key o.src it) o.read_sequence view rss counters h))
