-- ===== src/Updates/Sound.antt =====
-- src/property_update_manager.cpp: what holds of a manager and its worker between any two critical
-- sections.
use rich_graph.Base.{ℕ, Bool, true, false, List, [], ◌∷◌, ◌++◌, get_or, ◌||◌, ◌≡◌, refl, arith}
use rich_graph.Updates.{BufferedPropertyUpdate, PendingKey}
use rich_graph.Updates.Pending.{has_published}
use rich_graph.Updates.Manager.{no_buffer, PropertyUpdateManager}
use rich_graph.Updates.Worker.{Group, Place, idle, publishing, retiring, finishing, flush_step}
use rich_graph.Updates.Calls.{Call, Call-P}
use rich_graph.Updates.Reach.{code_at, IsOut, Stays, Stays-refl}
use rich_graph.Updates.Queues.{IsWell, Stays-Preserved}
use rich_graph.Updates.Taken.{has_taken}
use rich_graph.Updates.Steps.{System}

-- The worker holds buffer `i`: it is in the state kFlushing and out of reach of the callers.
pub record IsHeld (i : ℕ) (m : PropertyUpdateManager) : Type 0 where
  pub state : code_at m.buffers i ≡ 3
  pub out : IsOut i m

-- The updates of the buffer are in the groups that the callback has taken or will get.
pub record HasAll (i : ℕ) (gs published : List Group) (m : PropertyUpdateManager) : Type 0 where
  pub held : IsHeld i m
  pub all :
      (k : PendingKey) (c : ℕ)
      → has_published k c (get_or m.buffers i no_buffer).records ≡ true
      → (has_taken k c gs || has_taken k c published) ≡ true

-- The updates that are still to be retired are in the groups that the callback has taken.
pub record HasRest (i : ℕ) (us : List BufferedPropertyUpdate) (published : List Group)
    (m : PropertyUpdateManager) : Type 0 where
  pub held : IsHeld i m
  pub rest : (k : PendingKey) (c : ℕ) → has_published k c us ≡ true → has_taken k c published ≡ true

abbrev pub Places : Place → List Group → PropertyUpdateManager → Type 0
Places idle published m = Unit {0}
Places (publishing i gs) published m = HasAll i gs published m
Places (retiring i us) published m = HasRest i us published m
Places (finishing i ok) published m = IsHeld i m

pub record IsSound (s : System) : Type 0 where
  pub well : IsWell s.manager
  pub places : Places s.place s.published s.manager

-- A call of another thread leaves the worker's buffer.
pub Call-IsHeld : (i : ℕ) {m m' : PropertyUpdateManager} → Call m m' → IsHeld i m → IsHeld i m'
Call-IsHeld i {m} c h =
    let s = Call-P (Stays i m) (Stays-Preserved i m) c (Stays-refl i m h.out) in
    record { state = rw (s.same) (h.state); out = s.out }

pub Call-Places :
    (place : Place) (published : List Group) {m m' : PropertyUpdateManager}
    → Call m m'
    → Places place published m
    → Places place published m'
Call-Places idle published c h = tt
Call-Places (publishing i gs) published {m} c h =
    let s = Call-P (Stays i m) (Stays-Preserved i m) c (Stays-refl i m h.held.out) in
    record { held = Call-IsHeld i c h.held; all = rw (s.same) (h.all) }
Call-Places (retiring i us) published c h = record { held = Call-IsHeld i c h.held; rest = h.rest }
Call-Places (finishing i ok) published c h = Call-IsHeld i c h

-- The parts of a manager that these properties read.
pub record Agree (m m' : PropertyUpdateManager) : Type 0 where
  pub buffers : m'.buffers ≡ m.buffers
  pub queue : m'.queued_buffers ≡ m.queued_buffers
  pub active : m'.active_buffer ≡ m.active_buffer

pub Agree-IsHeld : (i : ℕ) (m m' : PropertyUpdateManager) → Agree m m' → IsHeld i m → IsHeld i m'
Agree-IsHeld i m m' g h = record {
  state = rw (g.buffers) (h.state);
  out = record {
    not_free = rw (g.buffers) (h.out.not_free);
    not_active = rw (g.active) (h.out.not_active);
    not_queued = rw (g.queue) (h.out.not_queued);
  };
}

pub Agree-IsWell : (m m' : PropertyUpdateManager) → Agree m m' → IsWell m → IsWell m'
Agree-IsWell m m' g h = record {
  queue = λ q. rw (g.queue, g.buffers) (h.queue q);
  active = λ a. rw (g.active, g.buffers) (h.active a);
}

pub flush_step-Agree :
    (answer : Bool) (place : Place) (m : PropertyUpdateManager)
    → Agree m (flush_step answer place m).manager
unfolding flush_step
flush_step-Agree answer idle m = record { buffers = refl; queue = refl; active = refl }
flush_step-Agree true (publishing i (g ∷ gs)) m = record {
  buffers = refl;
  queue = refl;
  active = refl;
}
flush_step-Agree false (publishing i (g ∷ gs)) m = record {
  buffers = refl;
  queue = refl;
  active = refl;
}
flush_step-Agree answer (publishing i []) m = record { buffers = refl; queue = refl; active = refl }
flush_step-Agree answer (retiring i (u ∷ us)) m = record {
  buffers = refl;
  queue = refl;
  active = refl;
}
flush_step-Agree answer (retiring i []) m = record { buffers = refl; queue = refl; active = refl }
flush_step-Agree answer (finishing i ok) m = record { buffers = refl; queue = refl; active = refl }

pub flush_step-Places :
    (answer : Bool) (place : Place) (published : List Group) (m : PropertyUpdateManager)
    → Places place published m
    → let f = flush_step answer place m in Places f.place (f.taken ++ published) f.manager
unfolding flush_step has_taken has_published
flush_step-Places answer idle published m h = tt
flush_step-Places true (publishing i (g ∷ gs)) published m h = record {
  held = Agree-IsHeld i m _ (flush_step-Agree true (publishing i (g ∷ gs)) m) h.held;
  all = λ k c e. ground (arith, h.all k c e);
}
flush_step-Places false (publishing i (g ∷ gs)) published m h = h.held
flush_step-Places answer (publishing i []) published m h = record {
  held = h.held;
  rest = λ k c e. ground (arith, h.all k c e);
}
flush_step-Places answer (retiring i (u ∷ us)) published m h = record {
  held = Agree-IsHeld i m _ (flush_step-Agree answer (retiring i (u ∷ us)) m) h.held;
  rest = λ k c e. h.rest k c (ground (arith, e));
}
flush_step-Places answer (retiring i []) published m h = h.held
flush_step-Places answer (finishing i ok) published m h = h
