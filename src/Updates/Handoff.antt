-- ===== src/Updates/Handoff.antt =====
-- src/property_update_manager.cpp: the visibility protocol that the header of the class describes.
use rich_graph.Base.{
  ℕ, ◌-◌, ◌+◌, Bool, true, false, Option, none, some, List, [], ◌∷◌, ◌++◌, All, ◌||◌, ◌≡◌, refl,
  subst, arith, Bool-cases, inl, inr,
}
use rich_graph.Options.{PropertyUpdateOptions}
use rich_graph.Updates.{BufferedPropertyUpdate, PendingKey, make_pending_key, find}
use rich_graph.Updates.Pending.{at_least, has_published, retire_one-at_least}
use rich_graph.Updates.Manager.{PropertyUpdateManager, committed, publish_all, stamp_all}
use rich_graph.Updates.Start.{start_manager}
use rich_graph.Updates.Worker.{
  Place, idle, publishing, retiring, finishing, flush_step, take_first, take_queued, release,
  finish_flush, stop_worker, set_fatal_error,
}
use rich_graph.Updates.Submission.{
  wake-Keeps, queue_active_buffer-Keeps, publish_all-at_least, publish_all-published,
  committed-Publishes,
}
use rich_graph.Updates.Calls.{Submission, Preserved, Call, Call-P}
use rich_graph.Updates.Taken.{has_taken}
use rich_graph.Updates.Steps.{
  System, Step, calls, takes, flushes, finishes, Run, here, next, started,
}
use rich_graph.Updates.Sound.{Places, IsSound}
use rich_graph.Updates.Turns.{Step-IsSound, Run-IsSound, start_manager-IsSound}

-- A reader who looks at the pending values and then at what the callback has taken sees a version
-- of the key that is not older than `commit`.
unfoldable pub is_observed : PendingKey → ℕ → System → Bool
is_observed key commit s =
    at_least commit (find key s.manager.pending) || has_taken key commit s.published

abbrev TakesOnly : PropertyUpdateManager → Option (ℕ × PropertyUpdateManager) → Type 0
TakesOnly m none = Unit {0}
TakesOnly m (some (i, m')) = m'.pending ≡ m.pending

take_first-TakesOnly : (q : List ℕ) (m : PropertyUpdateManager) → TakesOnly m (take_first q m)
take_first-TakesOnly [] m = tt
take_first-TakesOnly (j ∷ rest) m = refl

finish_flush-pending :
    (i : ℕ) (ok : Bool) (error : List ℕ) (m : PropertyUpdateManager)
    → (finish_flush i ok error m).pending ≡ m.pending
unfolding finish_flush
finish_flush-pending i true error m = released m.active_buffer
  where
    released :
        (a : Option ℕ)
        → (release i a (record m {
          running_flushes = m.running_flushes - 1;
          buffers_flushed = m.buffers_flushed + 1;
        })).pending
          ≡ m.pending
    released none = refl
    released (some j) = refl
finish_flush-pending i false error m = refl

module _ (k : PendingKey) (c : ℕ) where
  -- With what the callback has taken fixed.
  abbrev Sees : Bool → PropertyUpdateManager → Type 0
  Sees seen m = (at_least c (find k m.pending) || seen) ≡ true

  Sees-Preserved : (seen : Bool) → Preserved (Sees seen)
  unfolding stop_worker set_fatal_error
  Sees-Preserved seen = record {
    wakes = λ m h. rw ((wake-Keeps m).pending) h;
    queues = λ m h. rw ((queue_active_buffer-Keeps m).pending) h;
    counts = λ m h. h;
    puts = λ updates n i m e h.
        let kept = publish_all-at_least (stamp_all m.next_commit_sequence updates) k m.pending c in
        ground arith;
    stops = λ m h. h;
    fails = λ error m h. h;
  }

  -- The steps of FlushBuffer: an update is retired when the callback has taken it.
  flush_step-Sees :
      (answer : Bool) (s : System)
      → Places s.place s.published s.manager
      → Sees (has_taken k c s.published) s.manager
      → let f = flush_step answer s.place s.manager in
        Sees (has_taken k c (f.taken ++ s.published)) f.manager
  unfolding flush_step has_taken has_published
  flush_step-Sees answer s = go s.place
    where
      go :
          (place : Place)
          → Places place s.published s.manager
          → Sees (has_taken k c s.published) s.manager
          → let f = flush_step answer place s.manager in
            Sees (has_taken k c (f.taken ++ s.published)) f.manager
      go idle p h = h
      go (publishing i (g ∷ gs)) p h = elim (Bool-cases answer) [
        | inl e ↦ rw e (ground (arith, h))
        | inr e ↦ rw e h
      ]
      go (publishing i []) p h = h
      go (retiring i (u ∷ us)) p h = elim (Bool-cases (at_least c (find k s.manager.pending))) [
        | inr e ↦ ground (arith, h, e)
        | inl e ↦
            let r = retire_one-at_least u k s.manager.pending c e in
            let q = p.rest k c in ground arith
      ]
      go (retiring i []) p h = h
      go (finishing i ok) p h = h

  -- What a reader can see of a key stays visible in every critical section.
  pub Step-is_observed :
      {s t : System} → Step s t → IsSound s → is_observed k c s ≡ true → is_observed k c t ≡ true
  unfolding is_observed
  Step-is_observed (calls s m call) sound h =
      Call-P (Sees (has_taken k c s.published)) (Sees-Preserved (has_taken k c s.published)) call h
  Step-is_observed (takes s i m e t) sound h =
      rw
        (subst (TakesOnly s.manager) t
          (unfold take_queued in take_first-TakesOnly s.manager.queued_buffers s.manager))
        h
  Step-is_observed (flushes s answer) sound h = flush_step-Sees answer s sound.places h
  Step-is_observed (finishes s i ok error e) sound h =
      rw (finish_flush-pending i ok error s.manager) h

  Run-is_observed :
      {s t : System} → Run s t → IsSound s → is_observed k c s ≡ true → is_observed k c t ≡ true
  Run-is_observed here sound h = h
  Run-is_observed (next run step) sound h =
      Step-is_observed step (Run-IsSound run sound) (Run-is_observed run sound h)

-- When SubmitBatch has committed a batch, a reader sees each of its updates, at the commit sequence
-- of the batch or a later one.
pub Submission-is_observed :
    (updates : List BufferedPropertyUpdate) (s : System) (c : ℕ) (m : PropertyUpdateManager)
    → Submission updates s.manager (committed c m)
    → All (λ u. is_observed (make_pending_key u) c (record s { manager = m }) ≡ true) updates
unfolding is_observed
Submission-is_observed updates s c m e =
    rw (committed-Publishes updates s.manager m c e)
      (seen updates (publish_all-published updates s.manager.pending c))
  where
    seen :
        (us : List BufferedPropertyUpdate)
        → All
            (λ u.
              at_least c
                (find (make_pending_key u) (publish_all (stamp_all c updates) s.manager.pending))
              ≡ true)
            us
        → All
            (λ u.
              (at_least c
                  (find (make_pending_key u) (publish_all (stamp_all c updates) s.manager.pending))
                || has_taken (make_pending_key u) c s.published)
              ≡ true)
            us
    seen [] h = tt
    seen (u ∷ us) h = (rw (h.0) refl, seen us h.1)

module _ (update_size : ℕ) (options : PropertyUpdateOptions) (has_callback : Bool) (initial : ℕ)
    (first : PropertyUpdateManager)
    (starts : start_manager update_size options has_callback initial ≡ some first) where
  -- In a system that a started manager comes to, when a critical section of SubmitBatch, from its
  -- beginning or from one of its waits, commits a batch, then through any later critical sections
  -- of callers and of the worker, each call of the flush callback and each retired update a step
  -- of its own, a reader sees each update of the batch or a later one of its key, in the pending
  -- values or in the records of the groups that the flush callback took.
  pub acknowledged_visible :
      (updates : List BufferedPropertyUpdate) (s : System) (c : ℕ) (m : PropertyUpdateManager)
      (t : System)
      → Run (started first) s
      → Submission updates s.manager (committed c m)
      → Run (record s { manager = m }) t
      → All (λ u. is_observed (make_pending_key u) c t ≡ true) updates
  acknowledged_visible updates s c m t before submitted after_it =
      let start = start_manager-IsSound update_size options has_callback initial first starts in
      let sound =
        Step-IsSound (calls s m (Call.submits updates (committed c m) submitted))
          (Run-IsSound before start) in
      stays sound updates (Submission-is_observed updates s c m submitted)
    where
      stays :
          IsSound (record s { manager = m })
          → (us : List BufferedPropertyUpdate)
          → All (λ u. is_observed (make_pending_key u) c (record s { manager = m }) ≡ true) us
          → All (λ u. is_observed (make_pending_key u) c t ≡ true) us
      stays sound [] h = tt
      stays sound (u ∷ us) h =
          (Run-is_observed (make_pending_key u) c after_it sound h.0, stays sound us h.1)
