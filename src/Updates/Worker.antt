-- ===== src/Updates/Worker.antt =====
-- src/property_update_manager.cpp: FlushBuffer, the two critical sections of WorkerMain, and
-- FlushAndWait. The flush callback may give any answer to each group. The order in which an unordered_map is walked is that of the first records here.
use rich_graph.Base.{
  ℕ, ◌+◌, ◌-◌, Bool, true, false, Option, none, some, List, [], ◌∷◌, ◌++◌, get_or, set, is_empty,
  ◌==◌, ◌&&◌, ◌||◌, if◌then◌else◌, not,
}
use rich_graph.Delta.{PropertyDeltaRecord, PropertyDeltaTarget, target_eq}
use rich_graph.Updates.{BufferedPropertyUpdate, retire_one}
use rich_graph.Updates.Manager.{
  free, active, flushing, failed, no_buffer, PropertyUpdateManager, wake, queue_active_buffer,
}

pub record Group : Type 0 where
  pub target : PropertyDeltaTarget
  pub target_is_persistent : Bool
  pub records : List PropertyDeltaRecord

unfoldable pub add_to_groups : BufferedPropertyUpdate → List Group → List Group
add_to_groups u [] =
    record {
      target = u.target;
      target_is_persistent = u.target_is_persistent;
      records = u.entry ∷ [];
    }
    ∷ []
add_to_groups u (g ∷ gs) =
    if target_eq g.target u.target
    then record g {
      target_is_persistent = g.target_is_persistent || u.target_is_persistent;
      records = g.records ++ (u.entry ∷ []);
    }
      ∷ gs
    else g ∷ add_to_groups u gs

unfoldable pub group_updates : List BufferedPropertyUpdate → List Group → List Group
group_updates [] groups = groups
group_updates (u ∷ us) groups = group_updates us (add_to_groups u groups)

-- Where the worker stands: outside FlushBuffer, or in it with the index of its buffer and the groups
-- that the callback has not had, or with the updates that RetirePending has not had, or behind it
-- with its result.
pub data Place : Type 0 where
  idle : Place
  publishing : ℕ → List Group → Place
  retiring : ℕ → List BufferedPropertyUpdate → Place
  finishing : ℕ → Bool → Place

pub record Flushing : Type 0 where
  pub place : Place
  pub manager : PropertyUpdateManager
  pub taken : List Group

-- A call of the callback or a round of RetirePending, with the callback's answer and the groups
-- that it took.
unfoldable pub flush_step : Bool → Place → PropertyUpdateManager → Flushing
flush_step answer (publishing i (g ∷ gs)) m =
    if answer
    then record {
      place = publishing i gs;
      manager = record m { delta_batches_published = m.delta_batches_published + 1 };
      taken = g ∷ [];
    }
    else record { place = finishing i false; manager = m; taken = [] }
flush_step answer (publishing i []) m = record {
  place = retiring i (get_or m.buffers i no_buffer).records;
  manager = m;
  taken = [];
}
flush_step answer (retiring i (u ∷ us)) m = record {
  place = retiring i us;
  manager = record m { pending = retire_one u m.pending };
  taken = [];
}
flush_step answer (retiring i []) m = record { place = finishing i true; manager = m; taken = [] }
flush_step answer place m = record { place = place; manager = m; taken = [] }

-- FlushBuffer begins.
unfoldable pub begin_flush_buffer : ℕ → PropertyUpdateManager → Place
begin_flush_buffer i m = publishing i (group_updates (get_or m.buffers i no_buffer).records [])

-- The first critical section of a round of WorkerMain: the buffer to flush.
abbrev pub take_first : List ℕ → PropertyUpdateManager → Option (ℕ × PropertyUpdateManager)
take_first [] m = none
take_first (i ∷ rest) m = some (
  i,
  record m {
    queued_buffers = rest;
    buffers = set m.buffers i (record (get_or m.buffers i no_buffer) { state = flushing });
    running_flushes = m.running_flushes + 1;
  },
)

unfoldable pub take_queued : PropertyUpdateManager → Option (ℕ × PropertyUpdateManager)
take_queued m = take_first m.queued_buffers m

abbrev pub first_error : List ℕ → List ℕ → List ℕ
first_error [] error = error
first_error (c ∷ cs) error = c ∷ cs

abbrev pub release : ℕ → Option ℕ → PropertyUpdateManager → PropertyUpdateManager
release i (some a) m = record m {
  buffers = set m.buffers i (record { state = free; records = []; bytes = 0 });
}
release i none m = record m {
  buffers = set m.buffers i (record { state = active; records = []; bytes = 0 });
  active_buffer = some i;
}

-- The second critical section, with the result of FlushBuffer.
unfoldable pub finish_flush : ℕ → Bool → List ℕ → PropertyUpdateManager → PropertyUpdateManager
finish_flush i true error m =
    release i m.active_buffer (record m {
      running_flushes = m.running_flushes - 1;
      buffers_flushed = m.buffers_flushed + 1;
    })
finish_flush i false error m = record m {
  running_flushes = m.running_flushes - 1;
  buffers = set m.buffers i (record (get_or m.buffers i no_buffer) { state = failed });
  fatal_error = first_error m.fatal_error error;
  flush_failures = m.flush_failures + 1;
}

-- FlushAndWait, up to its wait: refused where there is a fatal error.
unfoldable pub begin_flush : PropertyUpdateManager → Option PropertyUpdateManager
begin_flush m = if is_empty m.fatal_error then some (queue_active_buffer m) else none

-- What FlushAndWait waits for.
abbrev pub is_idle : PropertyUpdateManager → Bool
is_idle m = is_empty m.queued_buffers && m.running_flushes == 0

abbrev pub find_active : Option ℕ → PropertyUpdateManager → PropertyUpdateManager
find_active none m = wake m
find_active (some i) m = m

-- FlushAndWait, from its wait on: still waiting, or over with its result.
pub data Flushed : Type 0 where
  waiting : Flushed
  over : Bool → PropertyUpdateManager → Flushed

unfoldable pub end_flush : PropertyUpdateManager → Flushed
end_flush m =
    if not (is_empty m.fatal_error)
    then over false m
    else if is_idle m
    then over true (find_active m.active_buffer m)
    else waiting

-- StopWorker, and SetFatalError.
unfoldable pub stop_worker : PropertyUpdateManager → PropertyUpdateManager
stop_worker m = record m { stop = true }

unfoldable pub set_fatal_error : List ℕ → PropertyUpdateManager → PropertyUpdateManager
set_fatal_error error m = record m { fatal_error = first_error m.fatal_error error }
