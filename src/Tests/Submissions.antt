-- ===== src/Tests/Submissions.antt =====
-- src/property_update_manager.cpp: the theorems at a manager of two buffers.
use rich_graph.Base.{
  ℕ, ◌+◌, ◌≤◌, ◌<◌, true, Option, none, some, List, [], ◌∷◌, All, get_or, length, ◌≡◌, refl,
  if◌then◌else◌, ◌&&◌, not,
}
use rich_graph.Options.{PropertyUpdateOptions, GraphDbOptions, validate}
use rich_graph.Delta.Create.{process_crash_safe}
use rich_graph.Updates.{
  BufferedPropertyUpdate, make_pending_key, key_eq, find, assign, erase, publish_pending,
  pending_value, retire_one,
}
use rich_graph.Updates.Pending.{at_least, find-publish_pending}
use rich_graph.Updates.Start.{fresh_buffer, fresh_manager, start_manager, validate-start_manager}
use rich_graph.Updates.Manager.{
  active, Buffer, no_buffer, PropertyUpdateManager, submit_batch, committed, take_free, put_batch,
  batch_size, estimate_bytes, stamp, stamp_all, queue_active_buffer, publish_all, resume_first,
  after, ready, ensure_active_buffer,
}
use rich_graph.Updates.Worker.{
  idle, take_queued, begin_flush_buffer, group_updates, add_to_groups, flush_step, finish_flush,
}
use rich_graph.Updates.Calls.{Submission, begins}
use rich_graph.Updates.Calls.Call.{submits}
use rich_graph.Updates.Steps.{
  System, flushed, Step, calls, takes, flushes, finishes, Run, here, next, started,
}
use rich_graph.Updates.Handoff.{is_observed, acknowledged_visible}
use rich_graph.Updates.Overtaken.{IsStranded, resume_first-IsStranded}
use rich_graph.Tests.Data.{target, old_version}

abbrev update : BufferedPropertyUpdate
update = record { target = target; entry = old_version; target_is_persistent = true }

abbrev options : GraphDbOptions
options = record {
  memtable_count = 2;
  default_memtable_capacity = 1000;
  max_subcompactions = 1;
  cache_sst_data = true;
  property_updates = record {
    enabled = true;
    buffer_capacity_records = 2;
    buffer_capacity_bytes = 1000;
    buffer_count = 2;
    delta_chain_merge_threshold = 4;
    durability = process_crash_safe;
  };
}

abbrev updates_options : PropertyUpdateOptions
updates_options = options.property_updates

abbrev first : PropertyUpdateManager
first = fresh_manager 100 updates_options 9

starts : start_manager 100 updates_options true 9 ≡ some first
unfolding start_manager
starts = refl

-- The system after a call of SubmitBatch.
abbrev batch : List BufferedPropertyUpdate → System → System
batch updates s = record s { manager = after (submit_batch updates s.manager) }

batch_lem : (updates : List BufferedPropertyUpdate) (s : System) → Step s (batch updates s)
batch_lem updates s = calls s _ (submits updates (submit_batch updates s.manager) (begins refl))

abbrev or_same : PropertyUpdateManager → Option (ℕ × PropertyUpdateManager) → PropertyUpdateManager
or_same m none = m
or_same m (some (i, m')) = m'

-- The system when the worker has taken buffer `i`.
abbrev take_buffer : ℕ → System → System
take_buffer i s =
    let m = or_same s.manager (take_queued s.manager) in
    record s { manager = m; place = begin_flush_buffer i m }

-- The steps of FlushBuffer for a group of two updates.
abbrev flush_all : System → System
flush_all s = flushed true (flushed true (flushed true (flushed true (flushed true s))))

flush_all_lem : {s t : System} → Run s t → Run s (flush_all t)
flush_all_lem run =
    next
      (next (next (next (next run (flushes _ true)) (flushes _ true)) (flushes _ true))
        (flushes _ true))
      (flushes _ true)

abbrev put_back : ℕ → System → System
put_back i s = record s { manager = finish_flush i true [] s.manager; place = idle }

abbrev two : List BufferedPropertyUpdate
two = update ∷ update ∷ []

-- The first buffer is filled and queued.
abbrev half : System
half = batch two (started first)

half_submitted : Submission two first (committed 9 half.manager)
unfolding submit_batch batch_size estimate_bytes put_batch stamp_all publish_all publish_pending
    find assign erase queue_active_buffer take_free take_queued begin_flush_buffer group_updates
    add_to_groups flush_step retire_one finish_flush
half_submitted = begins refl

-- The worker has flushed it.
abbrev half_flushed : System
half_flushed = flush_all (take_buffer 0 half)

half_takes : Run half (take_buffer 0 half)
unfolding submit_batch batch_size estimate_bytes put_batch stamp_all publish_all publish_pending
    find assign erase queue_active_buffer take_free take_queued begin_flush_buffer group_updates
    add_to_groups flush_step retire_one finish_flush
half_takes = next here (takes half 0 _ refl refl)

acknowledged_visible_example : All (λ u. is_observed (make_pending_key u) 9 half_flushed ≡ true) two
acknowledged_visible_example =
    acknowledged_visible 100 updates_options true 9 first starts two (started first) 9 half.manager
      half_flushed here half_submitted (flush_all_lem half_takes)

-- Both buffers are filled and queued.
abbrev full : System
full = batch two half

-- The worker has flushed the first, which is active again.
abbrev once : System
once = put_back 0 (flush_all (take_buffer 0 full))

-- It has flushed the second, which is free again, and another call has put an update into the first.
abbrev turned : System
turned = batch (update ∷ []) (put_back 1 (flush_all (take_buffer 1 once)))

to_once : Run (started first) once
unfolding submit_batch batch_size estimate_bytes put_batch stamp_all publish_all publish_pending
    find assign erase queue_active_buffer take_free take_queued begin_flush_buffer group_updates
    add_to_groups flush_step retire_one finish_flush
to_once =
    next
      (flush_all_lem (
        next (next (next here (batch_lem two (started first))) (batch_lem two half))
          (takes full 0 _ refl refl)))
      (finishes (flush_all (take_buffer 0 full)) 0 true [] refl)

to_turned : Run (started first) turned
unfolding submit_batch batch_size estimate_bytes put_batch stamp_all publish_all publish_pending
    find assign erase queue_active_buffer take_free take_queued begin_flush_buffer group_updates
    add_to_groups flush_step retire_one finish_flush
to_turned =
    next
      (next (flush_all_lem (next to_once (takes once 1 _ refl refl)))
        (finishes (flush_all (take_buffer 1 once)) 1 true [] refl))
      (batch_lem (update ∷ []) (put_back 1 (flush_all (take_buffer 1 once))))

abbrev stranded : Buffer
stranded = record { state = active; records = stamp 11 update ∷ []; bytes = 101 }

abbrev resumed : System
resumed = record turned { manager = after (resume_first two 202 turned.manager) }

turned_active : turned.manager.active_buffer ≡ some 0
unfolding submit_batch batch_size estimate_bytes put_batch stamp_all publish_all publish_pending
    find assign erase queue_active_buffer take_free take_queued begin_flush_buffer group_updates
    add_to_groups flush_step retire_one finish_flush
turned_active = refl

turned_free :
    take_free turned.manager.buffers
    ≡ some (1, stranded ∷ record fresh_buffer { state = active } ∷ [])
unfolding submit_batch batch_size estimate_bytes put_batch stamp_all publish_all publish_pending
    find assign erase queue_active_buffer take_free take_queued begin_flush_buffer group_updates
    add_to_groups flush_step retire_one finish_flush
turned_free = refl

resume_first-IsStranded_example :
    IsStranded 0 (get_or turned.manager.buffers 0 no_buffer) (batch (update ∷ []) resumed)
resume_first-IsStranded_example =
    resume_first-IsStranded 100 updates_options true 9 first starts turned
      (batch (update ∷ []) resumed) 0 1 (stranded ∷ record fresh_buffer { state = active } ∷ []) two
      202 to_turned turned_active turned_free (next here (batch_lem (update ∷ []) resumed))

find-publish_pending_example : find (make_pending_key update) (publish_pending update []) ≡ (
    if key_eq (make_pending_key update) (make_pending_key update)
      && not (at_least (old_version.commit_sequence + 1) (find (make_pending_key update) []))
    then some (pending_value old_version)
    else find (make_pending_key update) [])
find-publish_pending_example = find-publish_pending update (make_pending_key update) []

validate-start_manager_example :
    (m : PropertyUpdateManager) × (start_manager 100 options.property_updates true 9 ≡ some m)
    × ((2 ≤ length m.buffers) × ((ensure_active_buffer m ≡ ready 0) × (0 < m.next_commit_sequence)))
validate-start_manager_example = validate-start_manager options 100 9 (unfold validate in refl) refl
