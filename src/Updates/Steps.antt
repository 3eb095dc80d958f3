-- ===== src/Updates/Steps.antt =====
-- src/property_update_manager.cpp: the critical sections of the callers and of the one worker thread as
-- a step relation. The groups that the flush callback has taken are kept beside the manager.
use rich_graph.Base.{ℕ, Bool, some, List, ◌++◌, ◌≡◌, []}
use rich_graph.Updates.Manager.{PropertyUpdateManager}
use rich_graph.Updates.Calls.{Call}
use rich_graph.Updates.Worker.{
  Group, Place, idle, finishing, flush_step, begin_flush_buffer, take_queued, finish_flush,
}

pub record System : Type 0 where
  pub manager : PropertyUpdateManager
  pub place : Place
  pub published : List Group

abbrev pub flushed : Bool → System → System
flushed answer s =
    let f = flush_step answer s.place s.manager in
    record { manager = f.manager; place = f.place; published = f.taken ++ s.published }

pub data Step : System → System → Type 0 where
  calls :
      (s : System) (m : PropertyUpdateManager)
      → Call s.manager m
      → Step s (record s { manager = m })
  takes :
      (s : System) (i : ℕ) (m : PropertyUpdateManager)
      → s.place ≡ idle
      → take_queued s.manager ≡ some (i, m)
      → Step s (record s { manager = m; place = begin_flush_buffer i m })
  flushes : (s : System) (answer : Bool) → Step s (flushed answer s)
  finishes :
      (s : System) (i : ℕ) (ok : Bool) (error : List ℕ)
      → s.place ≡ finishing i ok
      → Step s (record s { manager = finish_flush i ok error s.manager; place = idle })

-- Any number of critical sections.
pub data Run (s : System) : System → Type 0 where
  here : Run s s
  next : {t u : System} → Run s t → Step t u → Run s u

-- The constructor has started the worker.
abbrev pub started : PropertyUpdateManager → System
started m = record { manager = m; place = idle; published = [] }
