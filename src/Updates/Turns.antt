-- ===== src/Updates/Turns.antt =====
-- src/property_update_manager.cpp: the two critical sections of WorkerMain, and with them all steps, keep
-- what holds between critical sections.
use rich_graph.Base.{
  ℕ, zero, suc, ◌+◌, ◌-◌, ◌≤◌, ◌<◌, Bool, true, false, Option, none, some, List, [], ◌∷◌, get_or,
  set, replicate, ◌≡◌, ◌≢◌, refl, sym, ap, arith, subst, inl, inr,
}
use rich_graph.Updates.Manager.{
  free, active, flushing, failed, Buffer, no_buffer, PropertyUpdateManager,
}
use rich_graph.Updates.Worker.{
  Group, begin_flush_buffer, take_first, take_queued, release, finish_flush,
}
use rich_graph.Updates.Calls.{Call-P}
use rich_graph.Updates.Reach.{code_at, times, get_or-set_other, get_or-set_same}
use rich_graph.Updates.Queues.{queued_bit, IsWell, IsWell-Preserved, eq_or_not, some_injective}
use rich_graph.Updates.Taken.{has_taken, has_taken-group_updates}
use rich_graph.Updates.Steps.{System, Step, calls, takes, flushes, finishes, Run, here, next}
use rich_graph.Options.{PropertyUpdateOptions}
use rich_graph.Updates.Start.{fresh_buffer, fresh_manager, start_manager}
use rich_graph.Updates.Steps.{started}
use rich_graph.Updates.Sound.{
  IsHeld, Places, IsSound, Call-Places, Agree, Agree-IsWell, Agree-IsHeld, flush_step-Agree,
  flush_step-Places,
}

-- The worker takes the buffer at the head of the queue.
module _ (i : ℕ) (rest : List ℕ) (m : PropertyUpdateManager) (h : IsWell m)
    (queue : m.queued_buffers ≡ i ∷ rest) where
  taken : PropertyUpdateManager
  taken = record m {
    queued_buffers = rest;
    buffers = set m.buffers i (record (get_or m.buffers i no_buffer) { state = flushing });
    running_flushes = m.running_flushes + 1;
  }

  times_head : (times i (i ∷ rest) ≡ 1) × (times i rest ≡ 0) × (code_at m.buffers i ≡ 2)
  unfolding times
  times_head =
      let q = subst (λ queue. times i queue ≤ queued_bit (code_at m.buffers i)) queue (h.queue i) in
      ground (arith, q)

  taken-state :
      get_or taken.buffers i no_buffer ≡ record (get_or m.buffers i no_buffer) { state = flushing }
  unfolding taken
  taken-state = get_or-set_same m.buffers i _ (omega (arith, times_head))

  apart : (a : ℕ) → m.active_buffer ≡ some a → i ≢ a
  apart a e n =
      let c = ap (code_at m.buffers) n in absurd (omega (arith, c, h.active a e, times_head))

  taken-IsHeld : IsHeld i taken
  unfolding taken
  taken-IsHeld = record {
    state = rw (taken-state) refl;
    out = record {
      not_free = rw (taken-state) (omega arith);
      not_active = apart;
      not_queued = times_head.1;
    };
  }

  taken-IsWell : IsWell taken
  unfolding taken
  taken-IsWell = record {
    queue = λ q. elim (eq_or_not q i) [
      | inl e ↦ rw (e, times_head.1) (omega arith)
      | inr n ↦ rw (get_or-set_other m.buffers q i _ n) (
          let w =
            subst (λ queue. times q queue ≤ queued_bit (code_at m.buffers q)) queue (h.queue q) in
          unfold times in omega (arith, w))
    ];
    active = λ a e. rw (get_or-set_other m.buffers a i _ (λ n. apart a e (sym n))) (h.active a e);
  }

taken-Places :
    (i : ℕ) (rest : List ℕ) (m : PropertyUpdateManager) (published : List Group) (h : IsWell m)
    (queue : m.queued_buffers ≡ i ∷ rest)
    → Places (begin_flush_buffer i (taken i rest m h queue)) published (taken i rest m h queue)
unfolding begin_flush_buffer has_taken
taken-Places i rest m published h queue = record {
  held = taken-IsHeld i rest m h queue;
  all = λ k c e.
      rw
        (
          has_taken-group_updates k c (get_or (taken i rest m h queue).buffers i no_buffer).records
              [],
          e,
        )
        refl;
}

-- The worker puts its buffer back.
module _ (i : ℕ) (b : Buffer) (m : PropertyUpdateManager) (held : IsHeld i m) (h : IsWell m) where
  put_back : PropertyUpdateManager
  put_back = record m { buffers = set m.buffers i b }

  put_back-IsWell : IsWell put_back
  unfolding put_back
  put_back-IsWell = record {
    queue = λ q. elim (eq_or_not q i) [
      | inl e ↦ rw (e, held.out.not_queued) (omega arith)
      | inr n ↦ rw (get_or-set_other m.buffers q i b n) (h.queue q)
    ];
    active = λ a e.
        rw (get_or-set_other m.buffers a i b (λ n. held.out.not_active a e (sym n))) (h.active a e);
  }

  put_active-IsWell :
      code_at (b ∷ []) 0 ≡ 1
      → IsWell (record m { buffers = set m.buffers i b; active_buffer = some i })
  unfolding put_back
  put_active-IsWell code = record {
    queue = put_back-IsWell.queue;
    active = λ a e.
        rw (some_injective a i (sym e), get_or-set_same m.buffers i b (omega (arith, held.state)))
          code;
  }

abbrev Taking : Option (ℕ × PropertyUpdateManager) → Type 0
Taking none = Unit {0}
Taking (some (i, m)) =
    IsWell m × ((published : List Group) → Places (begin_flush_buffer i m) published m)

take_first-Taking :
    (q : List ℕ) (m : PropertyUpdateManager)
    → m.queued_buffers ≡ q
    → IsWell m
    → Taking (take_first q m)
unfolding taken
take_first-Taking [] m e h = tt
take_first-Taking (i ∷ rest) m e h =
    (taken-IsWell i rest m h e, λ published. taken-Places i rest m published h e)

release-IsWell :
    (i : ℕ) (a : Option ℕ) (m : PropertyUpdateManager)
    → m.active_buffer ≡ a
    → IsHeld i m
    → IsWell m
    → IsWell (release i a m)
unfolding put_back
release-IsWell i (some a) m e held h =
    put_back-IsWell i (record { state = free; records = []; bytes = 0 }) m held h
release-IsWell i none m e held h =
    put_active-IsWell i (record { state = active; records = []; bytes = 0 }) m held h refl

finish_flush-IsWell :
    (i : ℕ) (ok : Bool) (error : List ℕ) (m : PropertyUpdateManager)
    → IsHeld i m
    → IsWell m
    → IsWell (finish_flush i ok error m)
unfolding finish_flush put_back
finish_flush-IsWell i true error m held h =
    let m2 : PropertyUpdateManager = record m {
      running_flushes = m.running_flushes - 1;
      buffers_flushed = m.buffers_flushed + 1;
    } in
    let same : Agree m m2 = record { buffers = refl; queue = refl; active = refl } in
    release-IsWell i m.active_buffer m2 refl (Agree-IsHeld i m m2 same held)
      (Agree-IsWell m m2 same h)
finish_flush-IsWell i false error m held h =
    Agree-IsWell (put_back i (record (get_or m.buffers i no_buffer) { state = failed }) m held h) _
      (record { buffers = refl; queue = refl; active = refl })
      (put_back-IsWell i (record (get_or m.buffers i no_buffer) { state = failed }) m held h)

pub Step-IsSound : {s t : System} → Step s t → IsSound s → IsSound t
Step-IsSound (calls s m c) h = record {
  well = Call-P IsWell IsWell-Preserved c h.well;
  places = Call-Places s.place s.published c h.places;
}
Step-IsSound (takes s i m e t) h =
    let took =
      subst Taking t
        (unfold take_queued in take_first-Taking s.manager.queued_buffers s.manager refl h.well) in
    record { well = took.0; places = took.1 s.published }
Step-IsSound (flushes s answer) h = record {
  well = Agree-IsWell s.manager _ (flush_step-Agree answer s.place s.manager) h.well;
  places = flush_step-Places answer s.place s.published s.manager h.places;
}
Step-IsSound (finishes s i ok error e) h = record {
  well =
      finish_flush-IsWell i ok error s.manager
        (subst (λ p. Places p s.published s.manager) e h.places) h.well;
  places = tt;
}

pub Run-IsSound : {s t : System} → Run s t → IsSound s → IsSound t
Run-IsSound here h = h
Run-IsSound (next run step) h = Step-IsSound step (Run-IsSound run h)

first_active :
    (n : ℕ)
    → 0 < n
    → code_at (set (replicate n fresh_buffer) 0 (record fresh_buffer { state = active })) 0 ≡ 1
first_active zero h = absurd (omega (arith, h))
first_active (suc n) h = refl

pub start_manager-IsSound :
    (update_size : ℕ) (options : PropertyUpdateOptions) (has_callback : Bool) (initial : ℕ)
    (m : PropertyUpdateManager)
    → start_manager update_size options has_callback initial ≡ some m
    → IsSound (started m)
unfolding start_manager
start_manager-IsSound update_size options has_callback initial m e =
    let n : 0 < options.buffer_count = ground (arith, e) in
    let same : fresh_manager update_size options initial ≡ m = ground (arith, e) in
    subst (λ m. IsSound (started m)) same
      (record {
        well = record {
          queue = λ q. unfold times in omega arith;
          active = λ a f. rw (sym (some_injective 0 a f)) (first_active options.buffer_count n);
        };
        places = tt;
      })
