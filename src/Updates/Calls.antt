-- ===== src/Updates/Calls.antt =====
-- src/property_update_manager.cpp: the critical sections of the callers, and what they leave as it is
-- because the steps that they are made of do.
use rich_graph.Base.{
  ℕ, Bool, true, false, Option, none, some, List, [], ◌∷◌, length, get_or, is_empty, ltb,
  if◌then◌else◌, ◌≡◌, refl, Bool-cases, inl, inr, subst,
}
use rich_graph.Updates.{BufferedPropertyUpdate}
use rich_graph.Updates.Manager.{
  no_buffer, PropertyUpdateManager, wake, queue_active_buffer, Submitted, Ensured, ready, refused,
  waits, ensure, submit_batch, submit_sized, put_batch, put_into, put_first, put_rotated, has_room,
  count_blocked, batch_size, resume_first, resume_rotated, after,
}
use rich_graph.Updates.Worker.{
  begin_flush, Flushed, waiting, over, end_flush, is_idle, find_active, stop_worker,
  set_fatal_error,
}

-- A critical section of SubmitBatch: from its beginning or from one of its waits, to its end or to
-- a wait.
pub data Submission (updates : List BufferedPropertyUpdate) (m : PropertyUpdateManager)
    (r : Submitted) : Type 0 where
  begins : submit_batch updates m ≡ r → Submission updates m r
  resumes :
      (n : ℕ)
      → batch_size m.update_size m.buffer_capacity_bytes 0 updates ≡ some n
      → resume_first updates n m ≡ r
      → Submission updates m r
  resumes_rotated :
      (n : ℕ)
      → batch_size m.update_size m.buffer_capacity_bytes 0 updates ≡ some n
      → resume_rotated updates n m ≡ r
      → Submission updates m r

pub data Call (m : PropertyUpdateManager) : PropertyUpdateManager → Type 0 where
  submits :
      (updates : List BufferedPropertyUpdate) (r : Submitted)
      → Submission updates m r
      → Call m (after r)
  begins_flush : (m' : PropertyUpdateManager) → begin_flush m ≡ some m' → Call m m'
  ends_flush : (ok : Bool) (m' : PropertyUpdateManager) → end_flush m ≡ over ok m' → Call m m'
  stops : Call m (stop_worker m)
  fails : (error : List ℕ) → Call m (set_fatal_error error m)

-- A property that the steps of the calls preserve.
pub record Preserved (P : PropertyUpdateManager → Type 0) : Type 0 where
  pub wakes : (m : PropertyUpdateManager) → P m → P (wake m)
  pub queues : (m : PropertyUpdateManager) → P m → P (queue_active_buffer m)
  pub counts : (m : PropertyUpdateManager) → P m → P (count_blocked m)
  pub puts :
      (updates : List BufferedPropertyUpdate) (n i : ℕ) (m : PropertyUpdateManager)
      → m.active_buffer ≡ some i
      → P m
      → P (put_into updates n i m)
  pub stops : (m : PropertyUpdateManager) → P m → P (stop_worker m)
  pub fails : (error : List ℕ) (m : PropertyUpdateManager) → P m → P (set_fatal_error error m)

-- The manager is ready with its active buffer.
abbrev pub IsActive : Option ℕ → Ensured → Type 0
IsActive a (ready i) = a ≡ some i
IsActive a _ = Unit {0}

pub ensure-IsActive :
    (error : List ℕ) (stop : Bool) (a : Option ℕ) → IsActive a (ensure error stop a)
ensure-IsActive (c ∷ cs) stop a = tt
ensure-IsActive [] true a = tt
ensure-IsActive [] false none = tt
ensure-IsActive [] false (some i) = refl

module _ (P : PropertyUpdateManager → Type 0) (p : Preserved P) where
  queued_if :
      (b : Bool) (m : PropertyUpdateManager) → P m → P (if b then queue_active_buffer m else m)
  queued_if true m h = p.queues m h
  queued_if false m h = h

  put_batch-P :
      (updates : List BufferedPropertyUpdate) (n i : ℕ) (m : PropertyUpdateManager)
      → m.active_buffer ≡ some i
      → P m
      → P (after (put_batch updates n i m))
  unfolding put_batch
  put_batch-P updates n i m e h = queued_if _ _ (p.puts updates n i m e h)

  put_rotated-P :
      (updates : List BufferedPropertyUpdate) (n : ℕ) (m : PropertyUpdateManager) (e : Ensured)
      → IsActive m.active_buffer e
      → P m
      → P (after (put_rotated updates n m e))
  put_rotated-P updates n m (ready i) a h = put_batch-P updates n i m a h
  put_rotated-P updates n m (refused e) a h = h
  put_rotated-P updates n m waits a h = p.counts m h

  pub put_first-P :
      (updates : List BufferedPropertyUpdate) (n : ℕ) (m : PropertyUpdateManager) (e : Ensured)
      → IsActive m.active_buffer e
      → P m
      → P (after (put_first updates n m e))
  put_first-P updates n m (ready i) a h =
      elim (Bool-cases (has_room m (get_or m.buffers i no_buffer) (length updates) n)) [
        | inl e ↦ rw e (put_batch-P updates n i m a h)
        | inr e ↦
            let q = queue_active_buffer m in
            rw e (
              put_rotated-P updates n q _ (ensure-IsActive q.fatal_error q.stop q.active_buffer)
                (p.queues m h))
      ]
  put_first-P updates n m (refused e) a h = h
  put_first-P updates n m waits a h = p.counts m h

  submit_sized-P :
      (updates : List BufferedPropertyUpdate) (m : PropertyUpdateManager) (n : Option ℕ)
      → P m
      → P (after (submit_sized updates m n))
  submit_sized-P updates m none h = h
  submit_sized-P updates m (some n) h =
      elim (Bool-cases (ltb m.buffer_capacity_records (length updates))) [
        | inl e ↦ rw e h
        | inr e ↦
            rw e
              (put_first-P updates n m _ (ensure-IsActive m.fatal_error m.stop m.active_buffer) h)
      ]

  submit_batch-P :
      (updates : List BufferedPropertyUpdate) (m : PropertyUpdateManager)
      → P m
      → P (after (submit_batch updates m))
  unfolding submit_batch
  submit_batch-P [] m h = h
  submit_batch-P (u ∷ us) m h = submit_sized-P (u ∷ us) m _ h

  resume_first-P :
      (updates : List BufferedPropertyUpdate) (n : ℕ) (m : PropertyUpdateManager)
      → P m
      → P (after (resume_first updates n m))
  unfolding resume_first
  resume_first-P updates n m h =
      let w = wake m in
      put_first-P updates n w _ (ensure-IsActive w.fatal_error w.stop w.active_buffer) (p.wakes m h)

  resume_rotated-P :
      (updates : List BufferedPropertyUpdate) (n : ℕ) (m : PropertyUpdateManager)
      → P m
      → P (after (resume_rotated updates n m))
  unfolding resume_rotated
  resume_rotated-P updates n m h =
      let w = wake m in
      put_rotated-P updates n w _ (ensure-IsActive w.fatal_error w.stop w.active_buffer)
        (p.wakes m h)

  pub Submission-P :
      (updates : List BufferedPropertyUpdate) (m : PropertyUpdateManager) (r : Submitted)
      → Submission updates m r
      → P m
      → P (after r)
  Submission-P updates m r (begins e) h = subst (λ r. P (after r)) e (submit_batch-P updates m h)
  Submission-P updates m r (resumes n s e) h =
      subst (λ r. P (after r)) e (resume_first-P updates n m h)
  Submission-P updates m r (resumes_rotated n s e) h =
      subst (λ r. P (after r)) e (resume_rotated-P updates n m h)

  Begun : Option PropertyUpdateManager → Type 0
  Begun none = Unit {0}
  Begun (some m) = P m

  begin_flush-P : (m : PropertyUpdateManager) → P m → Begun (begin_flush m)
  unfolding begin_flush Begun
  begin_flush-P m h = elim (Bool-cases (is_empty m.fatal_error)) [
    | inl e ↦ rw e (p.queues m h)
    | inr e ↦ rw e tt
  ]

  Ended : Flushed → Type 0
  Ended waiting = Unit {0}
  Ended (over ok m) = P m

  find_active-P : (a : Option ℕ) (m : PropertyUpdateManager) → P m → P (find_active a m)
  find_active-P none m h = p.wakes m h
  find_active-P (some i) m h = h

  end_flush-P : (m : PropertyUpdateManager) → P m → Ended (end_flush m)
  unfolding end_flush Ended
  end_flush-P m h = elim (Bool-cases (is_empty m.fatal_error)) [
    | inr e ↦ rw e h
    | inl e ↦ elim (Bool-cases (is_idle m)) [
      | inl i ↦ rw (e, i) (find_active-P m.active_buffer m h)
      | inr i ↦ rw (e, i) tt
    ]
  ]

  pub Call-P : {m m' : PropertyUpdateManager} → Call m m' → P m → P m'
  unfolding Begun Ended
  Call-P {m} (submits updates r s) h = Submission-P updates m r s h
  Call-P {m} (begins_flush m' e) h = subst Begun e (begin_flush-P m h)
  Call-P {m} (ends_flush ok m' e) h = subst Ended e (end_flush-P m h)
  Call-P {m} stops h = p.stops m h
  Call-P {m} (fails error) h = p.fails error m h
