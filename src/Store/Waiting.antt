-- ===== src/Store/Waiting.antt =====
-- src/property_delta_store.cpp: the merges that wait when OpenAndRecover returns.
use rich_graph.Base.{
  ℕ, Bool, true, false, none, some, List, [], ◌∷◌, length, is_empty, leb, ◌==◌, ◌≡◌, refl, sym, ap,
  ◌∙◌, subst, arith, ◌&&◌, if◌then◌else◌, Bool-cases, inl, inr,
}
use rich_graph.Delta.{PropertyDeltaTarget, target_eq}
use rich_graph.Delta.Create.{DeltaDurability}
use rich_graph.Manifest.Recover
use rich_graph.Manifest.Append.{Manifest, append_remove, open_and_recover}
use rich_graph.Store.{StoreError, Chain, PropertyDeltaStore, find_chain, with_chain, schedule_merge}
use rich_graph.Store.Registry.{target_eq_refl}
use rich_graph.Store.Jobs.{InFlight, count, flag, flag_put, InFlight-put, target_eq→eq}
use rich_graph.Store.Recover.{
  RecoverIo, Recovered, RecoverResult, recovered, failed, recover_entries, schedule_chains,
  start_store, abandoned, after_promotion, after_entries, after_manifest, promote_all,
  begin_recovery, empty_store, recover_store,
}
use rich_graph.Store.Restart.{Distinct, Fresh, FreshResult, recover_entries-FreshResult}

absent_found : (c : Chain) → none ≡ some c → ⊥
absent_found c e = cc

other_chain :
    (t k : PropertyDeltaTarget) (c : Chain) (chains : List (PropertyDeltaTarget × Chain))
    → find_chain t chains ≡ none
    → find_chain k chains ≡ some c
    → target_eq t k ≡ false
other_chain t k c chains alone there = elim (Bool-cases (target_eq t k)) [
  | inr e ↦ e
  | inl e ↦
      let same = ap (λ j. find_chain j chains) (target_eq→eq t k e) in
      absurd (absent_found c (sym alone ∙ same ∙ there))
]

later_chain :
    (t k : PropertyDeltaTarget) (c d : Chain) (chains : List (PropertyDeltaTarget × Chain))
    → find_chain t chains ≡ none
    → find_chain k chains ≡ some d
    → find_chain k ((t, c) ∷ chains) ≡ some d
unfolding find_chain
later_chain t k c d chains alone there = rw (other_chain t k d chains alone there) there

first_chain :
    (t : PropertyDeltaTarget) (c : Chain) (chains : List (PropertyDeltaTarget × Chain))
    → find_chain t ((t, c) ∷ chains) ≡ some c
unfolding find_chain
first_chain t c chains = rw (target_eq_refl t) refl

-- The chains that are still to be looked at have no merge.
schedule_chains-InFlight :
    (chains : List (PropertyDeltaTarget × Chain)) (s : PropertyDeltaStore)
    → Distinct chains
    → InFlight [] s
    → ((k : PropertyDeltaTarget) (c : Chain) → find_chain k chains ≡ some c → flag k s ≡ false)
    → InFlight [] (schedule_chains chains s)
unfolding schedule_chains schedule_merge
schedule_chains-InFlight [] s d h clear = h
schedule_chains-InFlight ((t, c) ∷ chains) s (alone, d) h clear =
    elim (Bool-cases (
      s.has_merge_callback
      && (c.target_is_persistent && leb s.merge_threshold (length c.read_view.deltas)))) [
        | inr e ↦ rw e (
            schedule_chains-InFlight chains s d h
              (λ k b there. clear k b (later_chain t k c b chains alone there)))
        | inl e ↦
            let busy : Chain = record c { merge_scheduled_or_running = true } in
            let s' = schedule_merge t (with_chain t busy s) in
            rw e (
              schedule_chains-InFlight chains s' d
                (InFlight-put t true busy s (with_chain t busy s) h refl refl refl
                  (λ q. clear t c (first_chain t c chains)))
                (λ k b there.
                  flag_put t busy true s s' refl refl k
                  ∙ ap (λ x. if x then true else flag k s) (other_chain t k b chains alone there)
                  ∙ clear k b (later_chain t k c b chains alone there)))
      ]

abbrev InFlightResult : RecoverResult PropertyDeltaStore → Type 0
InFlightResult (recovered s) = InFlight [] s
InFlightResult (failed e) = Unit {0}

start_store-InFlight :
    (r : Recovered) (m : Manifest) → Fresh r.store → InFlight [] (start_store r m)
unfolding count
start_store-InFlight r m h =
    schedule_chains-InFlight r.store.registry _ h.distinct
      (record { counted = λ k. rw (h.no_jobs, h.clear k) (omega arith) }) (λ k c there. h.clear k)

abandoned-InFlight :
    (r : Recovered) (x : Recover.Result (Unit {0}) × Manifest)
    → Fresh r.store
    → InFlightResult (abandoned r x)
abandoned-InFlight r (Recover.err e, m) h = tt
abandoned-InFlight r (Recover.ok u, m) h = start_store-InFlight r m h

after_promotion-InFlight :
    (io : RecoverIo) (r : Recovered) (x : RecoverResult Manifest)
    → Fresh r.store
    → InFlightResult (after_promotion io r x)
after_promotion-InFlight io r (failed e) h = tt
after_promotion-InFlight io r (recovered m) h = elim (Bool-cases (is_empty r.abandoned_entries)) [
  | inl e ↦ rw e (start_store-InFlight r m h)
  | inr e ↦ rw e (abandoned-InFlight r (append_remove r.abandoned_entries io.abandon m) h)
]

after_entries-InFlight :
    (io : RecoverIo) (x : RecoverResult Recovered)
    → FreshResult x
    → InFlightResult (after_entries io x)
after_entries-InFlight io (failed e) h = tt
after_entries-InFlight io (recovered r) h =
    after_promotion-InFlight io r (promote_all io.promote 0 r.promoted_entries r.store.manifest) h

after_manifest-InFlight :
    (io : RecoverIo) (path : List ℕ) (threshold : ℕ) (durability : DeltaDurability)
    (callback : Bool) (files : List (List ℕ × List ℕ)) (x : Recover.Result Manifest)
    → InFlightResult (after_manifest io (empty_store path threshold durability callback files) x)
unfolding find_chain
after_manifest-InFlight io path threshold durability callback files (Recover.err e) = tt
after_manifest-InFlight io path threshold durability callback files (Recover.ok m) =
    let s = empty_store path threshold durability callback files m in
    let h : Fresh s = record { no_jobs = refl; clear = λ k. refl; distinct = tt } in
    after_entries-InFlight io (recover_entries io m.active_entries (begin_recovery s))
      (recover_entries-FreshResult io m.active_entries (begin_recovery s) h)

failed_recovered : (e : StoreError) (s : PropertyDeltaStore) → failed e ≡ recovered s → ⊥
failed_recovered e s q = cc

-- In every store that OpenAndRecover returns the merges that wait agree with the flags.
pub recover_store-InFlight :
    (io : RecoverIo) (path : List ℕ) (threshold : ℕ) (durability : DeltaDurability)
    (callback : Bool) (files : List (List ℕ × List ℕ)) (log : List ℕ) (s : PropertyDeltaStore)
    → recover_store io path threshold durability callback files log ≡ recovered s
    → InFlight [] s
unfolding recover_store
recover_store-InFlight io path threshold durability callback files log s =
    elim (Bool-cases (threshold == 0)) [
      | inl e ↦ rw e (λ q. absurd (failed_recovered _ s q))
      | inr e ↦ rw e (λ q. subst InFlightResult q (
          after_manifest-InFlight io path threshold durability callback files
            (open_and_recover durability io.open_manifest log)))
    ]
