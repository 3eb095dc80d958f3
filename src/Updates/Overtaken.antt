-- ===== src/Updates/Overtaken.antt =====
-- src/property_update_manager.cpp: EnsureActiveBuffer looks for a free buffer when its wait is over,
-- also where the worker has made a buffer active meanwhile.
use rich_graph.Base.{
  ℕ, ◌+◌, ◌-◌, Bool, true, false, Option, none, some, List, [], ◌∷◌, get_or, ◌≡◌, ◌≢◌, refl, sym,
  ap, ◌∙◌, arith, subst,
}
use rich_graph.Options.{PropertyUpdateOptions}
use rich_graph.Updates.{BufferedPropertyUpdate}
use rich_graph.Updates.Manager.{
  free, active, flushing, failed, Buffer, no_buffer, PropertyUpdateManager, take_free, activate,
  wake, ensure_active_buffer, resume_first, after,
}
use rich_graph.Updates.Start.{start_manager}
use rich_graph.Updates.Worker.{
  Place, idle, publishing, retiring, finishing, flush_step, begin_flush_buffer, take_first,
  take_queued, release, finish_flush,
}
use rich_graph.Updates.Calls.{Call-P, put_first-P, ensure-IsActive}
use rich_graph.Updates.Reach.{
  code_at, times, get_or-set_other, TakesFree, take_free-TakesFree, IsOut, Stays, Stays-refl,
}
use rich_graph.Updates.Queues.{Stays-Preserved, some_injective}
use rich_graph.Updates.Steps.{
  System, Step, calls, takes, flushes, finishes, Run, here, next, started,
}
use rich_graph.Updates.Sound.{IsHeld, Places, IsSound, flush_step-Agree}
use rich_graph.Updates.Turns.{Run-IsSound, start_manager-IsSound}

-- The worker is not at buffer `i`.
abbrev pub NotAt : ℕ → Place → Type 0
NotAt i idle = Unit {0}
NotAt i (publishing j gs) = i ≢ j
NotAt i (retiring j us) = i ≢ j
NotAt i (finishing j ok) = i ≢ j

pub record IsStranded (i : ℕ) (b : Buffer) (s : System) : Type 0 where
  pub same : get_or s.manager.buffers i no_buffer ≡ b
  pub out : IsOut i s.manager
  pub not_held : NotAt i s.place

module _ (i : ℕ) where
  Taking : PropertyUpdateManager → Option (ℕ × PropertyUpdateManager) → Type 0
  Taking m none = Unit {0}
  Taking m (some (j, m')) = Stays i m m' × (i ≢ j)

  take_first-Taking :
      (q : List ℕ) (m : PropertyUpdateManager)
      → m.queued_buffers ≡ q
      → IsOut i m
      → Taking m (take_first q m)
  unfolding Taking times
  take_first-Taking [] m e h = tt
  take_first-Taking (j ∷ rest) m e h =
      let none_there = subst (λ q. times i q ≡ 0) e h.not_queued in
      let n : i ≢ j = λ f. ground (arith, none_there, f) in
      let b : Buffer = record (get_or m.buffers j no_buffer) { state = flushing } in
      let other = get_or-set_other m.buffers i j b n in
      (
        record {
          same = other;
          out = record {
            not_free = rw other (h.not_free);
            not_active = h.not_active;
            not_queued = ground (arith, none_there);
          };
        },
        n,
      )

  -- Another buffer is put back by the worker.
  release-Stays :
      (j : ℕ) (a : Option ℕ) (m : PropertyUpdateManager)
      → m.active_buffer ≡ a
      → i ≢ j
      → IsOut i m
      → Stays i m (release j a m)
  release-Stays j (some a) m e n h =
      let other =
        get_or-set_other m.buffers i j (record { state = free; records = []; bytes = 0 }) n in
      record {
        same = other;
        out = record {
          not_free = rw other (h.not_free);
          not_active = h.not_active;
          not_queued = h.not_queued;
        };
      }
  release-Stays j none m e n h =
      let other =
        get_or-set_other m.buffers i j (record { state = active; records = []; bytes = 0 }) n in
      record {
        same = other;
        out = record {
          not_free = rw other (h.not_free);
          not_active = λ c f g. n (g ∙ sym (some_injective j c f));
          not_queued = h.not_queued;
        };
      }

  finish_flush-Stays :
      (j : ℕ) (ok : Bool) (error : List ℕ) (m : PropertyUpdateManager)
      → i ≢ j
      → IsOut i m
      → Stays i m (finish_flush j ok error m)
  unfolding finish_flush
  finish_flush-Stays j true error m n h =
      let m2 : PropertyUpdateManager = record m {
        running_flushes = m.running_flushes - 1;
        buffers_flushed = m.buffers_flushed + 1;
      } in
      let s =
        release-Stays j m.active_buffer m2 refl n (record {
          not_free = h.not_free;
          not_active = h.not_active;
          not_queued = h.not_queued;
        }) in
      record { same = s.same; out = s.out }
  finish_flush-Stays j false error m n h =
      let b : Buffer = record (get_or m.buffers j no_buffer) { state = failed } in
      let other = get_or-set_other m.buffers i j b n in
      record {
        same = other;
        out = record {
          not_free = rw other (h.not_free);
          not_active = h.not_active;
          not_queued = h.not_queued;
        };
      }

  flush_step-NotAt :
      (answer : Bool) (place : Place) (m : PropertyUpdateManager)
      → NotAt i place
      → NotAt i (flush_step answer place m).place
  unfolding flush_step
  flush_step-NotAt answer idle m h = h
  flush_step-NotAt true (publishing j (g ∷ gs)) m h = h
  flush_step-NotAt false (publishing j (g ∷ gs)) m h = h
  flush_step-NotAt answer (publishing j []) m h = h
  flush_step-NotAt answer (retiring j (u ∷ us)) m h = h
  flush_step-NotAt answer (retiring j []) m h = h
  flush_step-NotAt answer (finishing j ok) m h = h

  Step-IsStranded : (b : Buffer) {s t : System} → Step s t → IsStranded i b s → IsStranded i b t
  Step-IsStranded b (calls s m call) h =
      let k =
        Call-P (Stays i s.manager) (Stays-Preserved i s.manager) call
          (Stays-refl i s.manager h.out) in
      record { same = k.same ∙ h.same; out = k.out; not_held = h.not_held }
  Step-IsStranded b (takes s j m e t) h =
      let k =
        subst (Taking s.manager) t
          (unfold take_queued in take_first-Taking s.manager.queued_buffers s.manager refl h.out) in
      unfold Taking begin_flush_buffer in
      record { same = (k.0).same ∙ h.same; out = (k.0).out; not_held = k.1 }
  Step-IsStranded b (flushes s answer) h =
      let g = flush_step-Agree answer s.place s.manager in
      record {
        same = rw (g.buffers) (h.same);
        out = record {
          not_free = rw (g.buffers) (h.out.not_free);
          not_active = rw (g.active) (h.out.not_active);
          not_queued = rw (g.queue) (h.out.not_queued);
        };
        not_held = flush_step-NotAt answer s.place s.manager h.not_held;
      }
  Step-IsStranded b (finishes s j ok error e) h =
      let k = finish_flush-Stays j ok error s.manager (subst (NotAt i) e h.not_held) h.out in
      record { same = k.same ∙ h.same; out = k.out; not_held = tt }

  Run-IsStranded : (b : Buffer) {s t : System} → Run s t → IsStranded i b s → IsStranded i b t
  Run-IsStranded b here h = h
  Run-IsStranded b (next run step) h = Step-IsStranded b step (Run-IsStranded b run h)

-- Between critical sections the worker is not at the active buffer.
active-NotAt : (i : ℕ) (s : System) → code_at s.manager.buffers i ≡ 1 → IsSound s → NotAt i s.place
active-NotAt i s code sound = go s.place sound.places
  where
    apart : (j : ℕ) → IsHeld j s.manager → i ≢ j
    apart j h e =
        let same = ap (code_at s.manager.buffers) e in absurd (omega (arith, same, code, h.state))

    go : (place : Place) → Places place s.published s.manager → NotAt i place
    go idle h = tt
    go (publishing j gs) h = apart j h.held
    go (retiring j us) h = apart j h.held
    go (finishing j ok) h = apart j h

wake-IsOut :
    (i : ℕ) (r : Option (ℕ × List Buffer)) (j : ℕ) (bs : List Buffer) (m : PropertyUpdateManager)
    → TakesFree m.buffers r
    → r ≡ some (j, bs)
    → code_at m.buffers i ≡ 1
    → times i m.queued_buffers ≡ 0
    → Stays i m (activate r m)
wake-IsOut i none j bs m t e code n = absurd (ground (arith, e))
wake-IsOut i (some (k, bs')) j bs m t e code n =
    let apart : i ≢ k =
      λ f. let same = ap (code_at m.buffers) f in absurd (omega (arith, same, code, t.was_free)) in
    record {
      same = t.others i apart;
      out = record {
        not_free = rw (t.others i apart) (omega (arith, code));
        not_active = λ a f g. apart (g ∙ sym (some_injective k a f));
        not_queued = n;
      };
    }

module _ (update_size : ℕ) (options : PropertyUpdateOptions) (has_callback : Bool) (initial : ℕ)
    (first : PropertyUpdateManager)
    (starts : start_manager update_size options has_callback initial ≡ some first) where
  -- In a system that a started manager comes to, when a submission goes on from its first wait
  -- while a buffer is active and another one is free, then through any later critical sections of
  -- submissions, of FlushAndWait, of StopWorker and of the worker, the buffer that was active
  -- keeps its state and its records and is neither the active buffer nor queued nor held by the
  -- worker: its records are never flushed.
  pub resume_first-IsStranded :
      (s t : System) (i j : ℕ) (bs : List Buffer) (updates : List BufferedPropertyUpdate) (n : ℕ)
      → Run (started first) s
      → s.manager.active_buffer ≡ some i
      → take_free s.manager.buffers ≡ some (j, bs)
      → Run (record s { manager = after (resume_first updates n s.manager) }) t
      → IsStranded i (get_or s.manager.buffers i no_buffer) t
  resume_first-IsStranded s t i j bs updates n before a e run =
      let m = s.manager in
      let start = start_manager-IsSound update_size options has_callback initial first starts in
      let sound = Run-IsSound before start in
      let code : code_at m.buffers i ≡ 1 = sound.well.active i a in
      let unqueued : times i m.queued_buffers ≡ 0 = ground (arith, sound.well.queue i, code) in
      let woken : Stays i m (wake m) =
        unfold wake in
        wake-IsOut i (take_free m.buffers) j bs m (take_free-TakesFree m.buffers) e code unqueued in
      let w = wake m in
      let resumed : Stays i m (after (resume_first updates n m)) =
        unfold resume_first in
        put_first-P (Stays i m) (Stays-Preserved i m) updates n w (ensure_active_buffer w)
          (ensure-IsActive w.fatal_error w.stop w.active_buffer) woken in
      Run-IsStranded i _ run
        (record { same = resumed.same; out = resumed.out; not_held = active-NotAt i s code sound })
