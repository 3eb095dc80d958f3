-- ===== src/Updates/Submission.antt =====
-- src/property_update_manager.cpp: what SubmitBatch and QueueActiveBuffer do to the pending values.
use rich_graph.Base.{
  ℕ, Bool, true, false, Option, none, some, List, [], ◌∷◌, All, length, get_or, is_empty, ltb,
  if◌then◌else◌, ◌≡◌, refl, ap, subst, ◌∙◌, Bool-cases, inl, inr, is_empty,
}
use rich_graph.Updates.{
  BufferedPropertyUpdate, PendingKey, PendingValue, make_pending_key, find, publish_pending,
}
use rich_graph.Updates.Pending.{at_least, publish_pending-at_least, publish_pending-published}
use rich_graph.Updates.Calls.{Submission, begins, resumes, resumes_rotated}
use rich_graph.Updates.Manager.{
  rejected, blocked_first, blocked_rotated, resume_first, resume_rotated, PropertyUpdateManager,
  Buffer, no_buffer, take_free, activate, wake, queue_buffer, queue_active_buffer, Submitted,
  committed, submit_batch, put_batch, publish_all, stamp, stamp_all, Ensured, ready, refused, waits,
  ensure_active_buffer, put_first, put_rotated, submit_sized, has_room,
}

-- Queueing a buffer leaves the pending values and the next commit sequence.
pub record Keeps (m m' : PropertyUpdateManager) : Type 0 where
  pub pending : m'.pending ≡ m.pending
  pub next : m'.next_commit_sequence ≡ m.next_commit_sequence

activate-Keeps : (r : Option (ℕ × List Buffer)) (m : PropertyUpdateManager) → Keeps m (activate r m)
activate-Keeps none m = record { pending = refl; next = refl }
activate-Keeps (some (i, bs)) m = record { pending = refl; next = refl }

pub wake-Keeps : (m : PropertyUpdateManager) → Keeps m (wake m)
unfolding wake
wake-Keeps m = activate-Keeps (take_free m.buffers) m

queue_buffer-Keeps : (a : Option ℕ) (m : PropertyUpdateManager) → Keeps m (queue_buffer a m)
queue_buffer-Keeps none m = record { pending = refl; next = refl }
queue_buffer-Keeps (some i) m =
    elim (Bool-cases (is_empty (get_or m.buffers i no_buffer).records)) [
      | inl e ↦ rw e (record { pending = refl; next = refl })
      | inr e ↦ rw e (let k = activate-Keeps _ _ in record { pending = k.pending; next = k.next })
    ]

pub queue_active_buffer-Keeps : (m : PropertyUpdateManager) → Keeps m (queue_active_buffer m)
unfolding queue_active_buffer
queue_active_buffer-Keeps m = queue_buffer-Keeps m.active_buffer m

queued_if :
    (b : Bool) (m : PropertyUpdateManager)
    → (if b then queue_active_buffer m else m).pending ≡ m.pending
queued_if true m = (queue_active_buffer-Keeps m).pending
queued_if false m = refl

-- A call of SubmitBatch that commits publishes its updates, with the sequence that was next.
abbrev pub Publishes : List BufferedPropertyUpdate → PropertyUpdateManager → Submitted → Type 0
Publishes updates m (committed c m') =
    (c ≡ m.next_commit_sequence) × (m'.pending ≡ publish_all (stamp_all c updates) m.pending)
Publishes updates m _ = Unit {0}

put_batch-Publishes :
    (updates : List BufferedPropertyUpdate) (n i : ℕ) (m : PropertyUpdateManager)
    → Publishes updates m (put_batch updates n i m)
unfolding put_batch
put_batch-Publishes updates n i m = (refl, queued_if _ _)

put_rotated-Publishes :
    (updates : List BufferedPropertyUpdate) (n : ℕ) (m m' : PropertyUpdateManager) (e : Ensured)
    → Keeps m m'
    → Publishes updates m (put_rotated updates n m' e)
put_rotated-Publishes updates n m m' (refused e) k = tt
put_rotated-Publishes updates n m m' waits k = tt
put_rotated-Publishes updates n m m' (ready i) k =
    unfold put_batch in
    (k.next, queued_if _ _ ∙ ap (publish_all (stamp_all m'.next_commit_sequence updates)) k.pending)

put_first-Publishes :
    (updates : List BufferedPropertyUpdate) (n : ℕ) (m : PropertyUpdateManager) (e : Ensured)
    → Publishes updates m (put_first updates n m e)
put_first-Publishes updates n m (refused e) = tt
put_first-Publishes updates n m waits = tt
put_first-Publishes updates n m (ready i) =
    elim (Bool-cases (has_room m (get_or m.buffers i no_buffer) (length updates) n)) [
      | inl e ↦ rw e (put_batch-Publishes updates n i m)
      | inr e ↦ rw e (put_rotated-Publishes updates n m _ _ (queue_active_buffer-Keeps m))
    ]

submit_sized-Publishes :
    (updates : List BufferedPropertyUpdate) (m : PropertyUpdateManager) (n : Option ℕ)
    → Publishes updates m (submit_sized updates m n)
submit_sized-Publishes updates m none = tt
submit_sized-Publishes updates m (some n) =
    elim (Bool-cases (ltb m.buffer_capacity_records (length updates))) [
      | inl e ↦ rw e tt
      | inr e ↦ rw e (put_first-Publishes updates n m (ensure_active_buffer m))
    ]

submit_batch-Publishes :
    (updates : List BufferedPropertyUpdate) (m : PropertyUpdateManager)
    → Publishes updates m (submit_batch updates m)
unfolding submit_batch
submit_batch-Publishes [] m = tt
submit_batch-Publishes (u ∷ us) m = submit_sized-Publishes (u ∷ us) m _

pub publish_all-at_least :
    (us : List BufferedPropertyUpdate) (k : PendingKey) (pending : List (PendingKey × PendingValue))
    (commit : ℕ)
    → at_least commit (find k pending) ≡ true
    → at_least commit (find k (publish_all us pending)) ≡ true
unfolding publish_all
publish_all-at_least [] k pending commit h = h
publish_all-at_least (u ∷ us) k pending commit h =
    publish_all-at_least us k (publish_pending u pending) commit
      (publish_pending-at_least u k pending commit h)

-- Each of the updates is seen afterwards, at its commit sequence or a later one.
pub publish_all-published :
    (us : List BufferedPropertyUpdate) (pending : List (PendingKey × PendingValue)) (c : ℕ)
    → All
        (λ u. at_least c (find (make_pending_key u) (publish_all (stamp_all c us) pending)) ≡ true)
        us
unfolding publish_all stamp_all
publish_all-published [] pending c = tt
publish_all-published (u ∷ us) pending c = (
  publish_all-at_least (stamp_all c us) (make_pending_key u) (publish_pending (stamp c u) pending) c
      (publish_pending-published (stamp c u) pending),
  publish_all-published us (publish_pending (stamp c u) pending) c,
)

-- The same of a manager that has only been woken.
woken-Publishes :
    (updates : List BufferedPropertyUpdate) (m : PropertyUpdateManager) (r : Submitted)
    → Publishes updates (wake m) r
    → Publishes updates m r
woken-Publishes updates m (committed c m') (a, b) =
    let k = wake-Keeps m in (a ∙ k.next, b ∙ ap (publish_all (stamp_all c updates)) k.pending)
woken-Publishes updates m (rejected e m') h = tt
woken-Publishes updates m (blocked_first m') h = tt
woken-Publishes updates m (blocked_rotated m') h = tt

Submission-Publishes :
    (updates : List BufferedPropertyUpdate) (m : PropertyUpdateManager) (r : Submitted)
    → Submission updates m r
    → Publishes updates m r
Submission-Publishes updates m r (begins e) =
    subst (Publishes updates m) e (submit_batch-Publishes updates m)
Submission-Publishes updates m r (resumes n s e) =
    subst (Publishes updates m) e (
      woken-Publishes updates m _ (unfold resume_first in put_first-Publishes updates n (wake m) _))
Submission-Publishes updates m r (resumes_rotated n s e) =
    subst (Publishes updates m) e
      (unfold resume_rotated in put_rotated-Publishes updates n m (wake m) _ (wake-Keeps m))

pub committed-Publishes :
    (updates : List BufferedPropertyUpdate) (m m' : PropertyUpdateManager) (c : ℕ)
    → Submission updates m (committed c m')
    → m'.pending ≡ publish_all (stamp_all c updates) m.pending
committed-Publishes updates m m' c s = (Submission-Publishes updates m (committed c m') s).1
