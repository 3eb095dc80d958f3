-- ===== src/Store/Published.antt =====
-- src/property_delta_store.cpp: MergeChain against the files that are attached while its callback
-- runs.
use rich_graph.Base.{
  ℕ, Bool, true, false, some, List, [], ◌∷◌, ◌++◌, length, take, drop, ◌≡◌, refl, sym, ◌∙◌, arith,
  eq_bytes_refl, drop_append, append_assoc, take-append-drop, length-append, subst, ltb, not,
  if◌then◌else◌,
}
use rich_graph.Delta.{PropertyDeltaTarget, target_eq}
use rich_graph.Delta.File.{PropertyDeltaFile}
use rich_graph.Store.{StoreError, ok, PropertyDeltaStore, chain_at, read_view}
use rich_graph.Store.View.{PropertyDeltaReadView, MappedPropertyFile}
use rich_graph.Store.Merge.{
  Begun, refused, skipped, captured, begin_merge, publish_merge, has_prefix,
}
use rich_graph.Store.Registry.{find_chain_self, find_chain-other, schedule_if-registry}

has_prefix-append :
    (batch extra : List PropertyDeltaFile) → has_prefix (batch ++ extra) batch ≡ true
unfolding has_prefix
has_prefix-append [] extra = refl
has_prefix-append (b ∷ batch) extra = rw (eq_bytes_refl b.path) (has_prefix-append batch extra)

-- The batch is what stands first in the captured view.
abbrev FirstOfView : Begun → Type 0
FirstOfView (refused e s) = Unit {0}
FirstOfView (skipped s) = Unit {0}
FirstOfView (captured view batch g s) = (n : ℕ) × (batch ≡ take n view.deltas)

guarded-FirstOfView :
    (p q : Bool) (e : StoreError) (s1 s2 : PropertyDeltaStore) (b : Begun)
    → FirstOfView b
    → FirstOfView (if p then refused e s1 else if q then skipped s2 else b)
guarded-FirstOfView true q e s1 s2 b h = tt
guarded-FirstOfView false true e s1 s2 b h = tt
guarded-FirstOfView false false e s1 s2 b h = h

begin_merge-FirstOfView :
    (t : PropertyDeltaTarget) (merge_all : Bool) (s : PropertyDeltaStore)
    → FirstOfView (begin_merge t merge_all s)
unfolding begin_merge
begin_merge-FirstOfView t merge_all s =
    guarded-FirstOfView (not s.has_merge_callback) _ _ _ _ (captured _ _ _ _) (_, refl)

module _ (t : PropertyDeltaTarget) (merge_all : Bool) (batch rest : List PropertyDeltaFile) (g : ℕ)
    (merged_base : MappedPropertyFile) (s : PropertyDeltaStore)
    (first : (chain_at t s).read_view.deltas ≡ batch ++ rest) where
  publish_first :
      let (r, after) = publish_merge t merge_all batch g merged_base s in
      (r ≡ ok)
      × (read_view t after
          ≡ some (record { merged_base = some merged_base; deltas = rest; generation = g }))
  unfolding publish_merge read_view
  publish_first =
      let early : ltb (length (batch ++ rest)) (length batch) ≡ false =
        ground (arith, length-append batch rest) in
      rw (first, early, has_prefix-append batch rest)
        (
          refl,
          rw
              (
                schedule_if-registry _ t _,
                find_chain_self t _ s.registry,
                drop_append batch rest (length batch) refl,
              )
              refl,
        )

  publish_first-other :
      (k : PropertyDeltaTarget)
      → target_eq t k ≡ false
      → read_view k (publish_merge t merge_all batch g merged_base s).1 ≡ read_view k s
  unfolding publish_merge read_view
  publish_first-other k n =
      let early : ltb (length (batch ++ rest)) (length batch) ≡ false =
        ground (arith, length-append batch rest) in
      rw
        (
          first,
          early,
          has_prefix-append batch rest,
          schedule_if-registry _ t _,
          find_chain-other t k _ s.registry n,
        )
        refl

-- When a merge has captured its batch, and in the meantime files were only attached behind those
-- of the captured view, then the publication succeeds, the view of the target has the replacement
-- column and its generation, the batch followed by the files that are left are the files of the
-- captured view followed by those attached, and no other target has another view.
pub merge_keeps_attached :
    (t : PropertyDeltaTarget) (merge_all : Bool) (before at_capture s : PropertyDeltaStore)
    (view : PropertyDeltaReadView) (batch attached : List PropertyDeltaFile) (g : ℕ)
    (merged_base : MappedPropertyFile)
    → begin_merge t merge_all before ≡ captured view batch g at_capture
    → (chain_at t s).read_view.deltas ≡ view.deltas ++ attached
    → let (r, after) = publish_merge t merge_all batch g merged_base s in
      (r ≡ ok)
      × ((rest : List PropertyDeltaFile) × (batch ++ rest ≡ view.deltas ++ attached)
          × (read_view t after
              ≡ some (record { merged_base = some merged_base; deltas = rest; generation = g })))
      × ((k : PropertyDeltaTarget) → target_eq t k ≡ false → read_view k after ≡ read_view k s)
merge_keeps_attached t merge_all before at_capture s view batch attached g merged_base e grown =
    let (n, first) = subst FirstOfView e (begin_merge-FirstOfView t merge_all before) in
    let rest = drop n view.deltas ++ attached in
    let whole : batch ++ rest ≡ view.deltas ++ attached =
      rw
        (
          first,
          ← append_assoc (take n view.deltas) (drop n view.deltas) attached,
          take-append-drop n view.deltas,
        )
        refl in
    let (done, now) = publish_first t merge_all batch rest g merged_base s (grown ∙ sym whole) in
    (
      done,
      (rest, whole, now),
      publish_first-other t merge_all batch rest g merged_base s (grown ∙ sym whole),
    )
