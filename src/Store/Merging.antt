-- ===== src/Store/Merging.antt =====
-- src/property_delta_store.cpp: MergeChain against the merges that wait or run.
use rich_graph.Base.{
  ℕ, ◌-◌, Bool, true, false, Option, none, some, List, ◌∷◌, ◌++◌, length, refl, ◌&&◌, not,
  if◌then◌else◌, leb, ltb,
}
use rich_graph.Delta.{PropertyDeltaTarget}
use rich_graph.Delta.File.{PropertyDeltaFile}
use rich_graph.Manifest.Recover
use rich_graph.Manifest.Append.{Manifest, AppendIo, append_remove}
use rich_graph.Store.{
  StoreError, chain_changed, chain_prefix_changed, Result, ok, err, PropertyDeltaStore, chain_at,
}
use rich_graph.Store.View.{MappedPropertyFile}
use rich_graph.Store.Merge.{
  Begun, refused, skipped, captured, begin_merge, finish_merge, publish_merge, has_prefix,
  merge_removed, clear_flag, finish_job, after_merge, file_names,
}
use rich_graph.Store.Jobs.{InFlight, InFlight-end}

-- What the caller of MergeAll does when MergeChain has returned.
abbrev pub finish_call : PropertyDeltaTarget → Result × PropertyDeltaStore → PropertyDeltaStore
finish_call t r = (after_merge t (λ s. (ok, s)) r).1

module _ (t : PropertyDeltaTarget) (xs ys : List PropertyDeltaTarget) where
  -- The merges in flight after the first critical section, and after the second.
  abbrev pub BegunInFlight : Begun → Type 0
  BegunInFlight (refused e s) = InFlight (xs ++ (t ∷ ys)) s
  BegunInFlight (skipped s) = InFlight (xs ++ ys) s
  BegunInFlight (captured view batch g s) = InFlight (xs ++ (t ∷ ys)) s

  abbrev pub DoneInFlight : Result × PropertyDeltaStore → Type 0
  DoneInFlight (ok, s) = InFlight (xs ++ ys) s
  DoneInFlight (err e, s) = InFlight (xs ++ (t ∷ ys)) s

  clear_flag-InFlight :
      (s : PropertyDeltaStore) → InFlight (xs ++ (t ∷ ys)) s → InFlight (xs ++ ys) (clear_flag t s)
  clear_flag-InFlight s h = InFlight-end t false _ s _ xs ys h refl refl refl

  guarded-BegunInFlight :
      (p q : Bool) (e : StoreError) (s1 s2 : PropertyDeltaStore) (b : Begun)
      → InFlight (xs ++ (t ∷ ys)) s1
      → InFlight (xs ++ ys) s2
      → BegunInFlight b
      → BegunInFlight (if p then refused e s1 else if q then skipped s2 else b)
  guarded-BegunInFlight true q e s1 s2 b h k l = h
  guarded-BegunInFlight false true e s1 s2 b h k l = k
  guarded-BegunInFlight false false e s1 s2 b h k l = l

  pub begin_merge-InFlight :
      (merge_all : Bool) (s : PropertyDeltaStore)
      → InFlight (xs ++ (t ∷ ys)) s
      → BegunInFlight (begin_merge t merge_all s)
  unfolding begin_merge
  begin_merge-InFlight merge_all s h =
      guarded-BegunInFlight (not s.has_merge_callback) _ _ s _ (captured _ _ _ _) h
        (clear_flag-InFlight s h) (record { counted = h.counted })

  guarded-DoneInFlight :
      (p q : Bool) (e f : StoreError) (s : PropertyDeltaStore) (r : Result × PropertyDeltaStore)
      → InFlight (xs ++ (t ∷ ys)) s
      → DoneInFlight r
      → DoneInFlight (if p then (err e, s) else if q then (err f, s) else r)
  guarded-DoneInFlight true q e f s r h k = h
  guarded-DoneInFlight false true e f s r h k = h
  guarded-DoneInFlight false false e f s r h k = k

  publish_merge-InFlight :
      (merge_all : Bool) (batch : List PropertyDeltaFile) (g : ℕ) (base : MappedPropertyFile)
      (s : PropertyDeltaStore)
      → InFlight (xs ++ (t ∷ ys)) s
      → DoneInFlight (publish_merge t merge_all batch g base s)
  unfolding publish_merge
  publish_merge-InFlight merge_all batch g base s h =
      let c = chain_at t s in
      let deltas = c.read_view.deltas in
      guarded-DoneInFlight (ltb (length deltas) (length batch)) (not (has_prefix deltas batch))
        chain_changed chain_prefix_changed s (ok, _) h
        (InFlight-end t
          (not merge_all
            && (c.target_is_persistent && leb s.merge_threshold (length deltas - length batch)))
          _ s _ xs ys h refl refl refl)

  merge_removed-InFlight :
      (merge_all : Bool) (batch : List PropertyDeltaFile) (g : ℕ) (base : MappedPropertyFile)
      (s : PropertyDeltaStore) (r : Recover.Result (Unit {0}) × Manifest)
      → InFlight (xs ++ (t ∷ ys)) s
      → DoneInFlight (merge_removed t merge_all batch g base s r)
  merge_removed-InFlight merge_all batch g base s (Recover.err e, m) h = record {
    counted = h.counted;
  }
  merge_removed-InFlight merge_all batch g base s (Recover.ok u, m) h =
      publish_merge-InFlight merge_all batch g base (record s { manifest = m })
        (record { counted = h.counted })

  pub finish_merge-InFlight :
      (merge_all : Bool) (batch : List PropertyDeltaFile) (g : ℕ) (made : Option MappedPropertyFile)
      (io : AppendIo) (s : PropertyDeltaStore)
      → InFlight (xs ++ (t ∷ ys)) s
      → DoneInFlight (finish_merge t merge_all batch g made io s)
  unfolding finish_merge
  finish_merge-InFlight merge_all batch g none io s h = h
  finish_merge-InFlight merge_all batch g (some base) io s h =
      merge_removed-InFlight merge_all batch g base s
        (append_remove (file_names batch) io s.manifest) h

  pub finish_job-InFlight :
      (r : Result × PropertyDeltaStore) → DoneInFlight r → InFlight (xs ++ ys) (finish_job t r)
  unfolding finish_job
  finish_job-InFlight (ok, s) h = record { counted = h.counted }
  finish_job-InFlight (err e, s) h = record { counted = (clear_flag-InFlight s h).counted }

  pub finish_call-InFlight :
      (r : Result × PropertyDeltaStore) → DoneInFlight r → InFlight (xs ++ ys) (finish_call t r)
  finish_call-InFlight (ok, s) h = h
  finish_call-InFlight (err e, s) h = clear_flag-InFlight s h
