-- ===== src/Updates/Manager.antt =====
-- src/property_update_manager.cpp: the buffers, EnsureActiveBuffer, QueueActiveBuffer and SubmitBatch. A
-- call that waits on a condition variable returns where it waits, and goes on from there with
-- resume_first or resume_rotated.
use rich_graph.Base.{
  ℕ, ◌+◌, ◌-◌, ◌%◌, ◌^◌, Bool, true, false, Option, none, some, List, [], ◌∷◌, ◌++◌, length, get_or,
  set, is_empty, ltb, leb, ◌&&◌, ◌||◌, not, if◌then◌else◌, suc,
}
use rich_graph.Updates.{BufferedPropertyUpdate, PendingKey, PendingValue, publish_pending}

pub data BufferState : Type 0 where
  free active queued flushing failed : BufferState

abbrev pub is_free : BufferState → Bool
is_free free = true
is_free _ = false

pub record Buffer : Type 0 where
  pub state : BufferState
  pub records : List BufferedPropertyUpdate
  pub bytes : ℕ

abbrev pub no_buffer : Buffer
no_buffer = record { state = failed; records = []; bytes = 0 }

-- An empty `fatal_error` is no error. `update_size` is the size of a BufferedPropertyUpdate without
-- the bytes of its value.
pub record PropertyUpdateManager : Type 0 where
  pub buffer_capacity_records : ℕ
  pub buffer_capacity_bytes : ℕ
  pub update_size : ℕ
  pub next_commit_sequence : ℕ
  pub pending : List (PendingKey × PendingValue)
  pub buffers : List Buffer
  pub queued_buffers : List ℕ
  pub active_buffer : Option ℕ
  pub running_flushes : ℕ
  pub stop : Bool
  pub fatal_error : List ℕ
  pub submitted_records : ℕ
  pub submitted_bytes : ℕ
  pub buffers_flushed : ℕ
  pub delta_batches_published : ℕ
  pub flush_failures : ℕ
  pub blocked_submissions : ℕ

-- The loop that looks for a free buffer: its place, and the buffers with it active.
abbrev pub later : Buffer → Option (ℕ × List Buffer) → Option (ℕ × List Buffer)
later b none = none
later b (some (i, bs)) = some (suc i, b ∷ bs)

unfoldable pub take_free : List Buffer → Option (ℕ × List Buffer)
take_free [] = none
take_free (b ∷ bs) =
    if is_free b.state then some (0, record b { state = active } ∷ bs) else later b (take_free bs)

abbrev pub activate : Option (ℕ × List Buffer) → PropertyUpdateManager → PropertyUpdateManager
activate none m = m
activate (some (i, bs)) m = record m { buffers = bs; active_buffer = some i }

-- What EnsureActiveBuffer does each time that its wait is over.
unfoldable pub wake : PropertyUpdateManager → PropertyUpdateManager
wake m = activate (take_free m.buffers) m

abbrev pub queue_buffer : Option ℕ → PropertyUpdateManager → PropertyUpdateManager
queue_buffer none m = m
queue_buffer (some i) m =
    let b = get_or m.buffers i no_buffer in
    let bs = set m.buffers i (record b { state = queued }) in
    if is_empty b.records
    then m
    else activate (take_free bs) (record m {
      buffers = bs;
      queued_buffers = m.queued_buffers ++ (i ∷ []);
      active_buffer = none;
    })

unfoldable pub queue_active_buffer : PropertyUpdateManager → PropertyUpdateManager
queue_active_buffer m = queue_buffer m.active_buffer m

pub data SubmitError : Type 0 where
  empty_batch exceeds_capacity_bytes exceeds_capacity_records stopping no_active_buffer :
      SubmitError
  fatal : List ℕ → SubmitError

-- The manager is ready with an active buffer, or refuses, or the caller waits for a buffer.
pub data Ensured : Type 0 where
  ready : ℕ → Ensured
  refused : SubmitError → Ensured
  waits : Ensured

abbrev pub ensure : List ℕ → Bool → Option ℕ → Ensured
ensure (c ∷ cs) stop active_buffer = refused (fatal (c ∷ cs))
ensure [] true active_buffer = refused stopping
ensure [] false none = waits
ensure [] false (some i) = ready i

abbrev pub ensure_active_buffer : PropertyUpdateManager → Ensured
ensure_active_buffer m = ensure m.fatal_error m.stop m.active_buffer

unfoldable pub estimate_bytes : ℕ → BufferedPropertyUpdate → ℕ
estimate_bytes update_size u = update_size + length u.entry.value

-- The sum of the sizes from `batch_bytes` on, or nothing where it passes the capacity.
unfoldable pub batch_size : ℕ → ℕ → ℕ → List BufferedPropertyUpdate → Option ℕ
unfolding estimate_bytes
batch_size update_size capacity batch_bytes [] = some batch_bytes
batch_size update_size capacity batch_bytes (u ∷ us) =
    let rest = batch_size update_size capacity (batch_bytes + estimate_bytes update_size u) us in
    if ltb (capacity - batch_bytes) (estimate_bytes update_size u) then none else rest

abbrev pub stamp : ℕ → BufferedPropertyUpdate → BufferedPropertyUpdate
stamp committed u = record u { entry = record (u.entry) { commit_sequence = committed } }

unfoldable pub stamp_all : ℕ → List BufferedPropertyUpdate → List BufferedPropertyUpdate
stamp_all committed [] = []
stamp_all committed (u ∷ us) = stamp committed u ∷ stamp_all committed us

unfoldable pub publish_all :
    List BufferedPropertyUpdate
    → List (PendingKey × PendingValue)
    → List (PendingKey × PendingValue)
publish_all [] pending = pending
publish_all (u ∷ us) pending = publish_all us (publish_pending u pending)

-- A submission has its commit sequence, or was refused, or waits before or after the rotation.
pub data Submitted : Type 0 where
  committed : ℕ → PropertyUpdateManager → Submitted
  rejected : SubmitError → PropertyUpdateManager → Submitted
  blocked_first blocked_rotated : PropertyUpdateManager → Submitted

abbrev pub count_blocked : PropertyUpdateManager → PropertyUpdateManager
count_blocked m = record m { blocked_submissions = m.blocked_submissions + 1 }

abbrev pub is_full : PropertyUpdateManager → Buffer → Bool
is_full m b =
    leb m.buffer_capacity_records (length b.records) || leb m.buffer_capacity_bytes b.bytes

abbrev pub put_buffer : List BufferedPropertyUpdate → ℕ → ℕ → PropertyUpdateManager → Buffer
put_buffer updates batch_bytes i m =
    let b = get_or m.buffers i no_buffer in
    record b {
      records = b.records ++ stamp_all m.next_commit_sequence updates;
      bytes = b.bytes + batch_bytes;
    }

-- The commit sequence, the pending values and buffer `i` with the batch in it.
abbrev pub put_into :
    List BufferedPropertyUpdate → ℕ → ℕ → PropertyUpdateManager → PropertyUpdateManager
put_into updates batch_bytes i m = record m {
  next_commit_sequence = (m.next_commit_sequence + 1) % 2 ^ 64;
  pending = publish_all (stamp_all m.next_commit_sequence updates) m.pending;
  buffers = set m.buffers i (put_buffer updates batch_bytes i m);
  submitted_records = m.submitted_records + length updates;
  submitted_bytes = m.submitted_bytes + batch_bytes;
}

-- The full buffer is queued.
abbrev pub queue_full : ℕ → PropertyUpdateManager → PropertyUpdateManager
queue_full i m = if is_full m (get_or m.buffers i no_buffer) then queue_active_buffer m else m

unfoldable pub put_batch : List BufferedPropertyUpdate → ℕ → ℕ → PropertyUpdateManager → Submitted
put_batch updates batch_bytes i m =
    committed m.next_commit_sequence (queue_full i (put_into updates batch_bytes i m))

abbrev pub put_rotated :
    List BufferedPropertyUpdate → ℕ → PropertyUpdateManager → Ensured → Submitted
put_rotated updates batch_bytes m (ready i) = put_batch updates batch_bytes i m
put_rotated updates batch_bytes m (refused e) = rejected e m
put_rotated updates batch_bytes m waits = blocked_rotated (count_blocked m)

abbrev pub has_room : PropertyUpdateManager → Buffer → ℕ → ℕ → Bool
has_room m b count batch_bytes =
    is_empty b.records
    || (not (ltb m.buffer_capacity_records (length b.records + count))
        && not (ltb m.buffer_capacity_bytes (b.bytes + batch_bytes)))

abbrev pub put_first : List BufferedPropertyUpdate → ℕ → PropertyUpdateManager → Ensured → Submitted
put_first updates batch_bytes m (ready i) =
    let rotated = queue_active_buffer m in
    if has_room m (get_or m.buffers i no_buffer) (length updates) batch_bytes
    then put_batch updates batch_bytes i m
    else put_rotated updates batch_bytes rotated (ensure_active_buffer rotated)
put_first updates batch_bytes m (refused e) = rejected e m
put_first updates batch_bytes m waits = blocked_first (count_blocked m)

abbrev pub submit_sized : List BufferedPropertyUpdate → PropertyUpdateManager → Option ℕ → Submitted
submit_sized updates m none = rejected exceeds_capacity_bytes m
submit_sized updates m (some batch_bytes) =
    if ltb m.buffer_capacity_records (length updates)
    then rejected exceeds_capacity_records m
    else put_first updates batch_bytes m (ensure_active_buffer m)

unfoldable pub submit_batch : List BufferedPropertyUpdate → PropertyUpdateManager → Submitted
submit_batch updates m =
    if is_empty updates
    then rejected empty_batch m
    else submit_sized updates m (batch_size m.update_size m.buffer_capacity_bytes 0 updates)

-- A call that goes on from its wait before the rotation, or from the one behind it, with the size of
-- its batch: EnsureActiveBuffer looks for a free buffer, and waits again where there is none.
unfoldable pub resume_first : List BufferedPropertyUpdate → ℕ → PropertyUpdateManager → Submitted
resume_first updates batch_bytes m =
    put_first updates batch_bytes (wake m) (ensure_active_buffer (wake m))

unfoldable pub resume_rotated : List BufferedPropertyUpdate → ℕ → PropertyUpdateManager → Submitted
resume_rotated updates batch_bytes m =
    put_rotated updates batch_bytes (wake m) (ensure_active_buffer (wake m))

-- The manager when the call has returned or waits.
abbrev pub after : Submitted → PropertyUpdateManager
after (committed c m) = m
after (rejected e m) = m
after (blocked_first m) = m
after (blocked_rotated m) = m
