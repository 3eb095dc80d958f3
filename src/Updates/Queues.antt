-- ===== src/Updates/Queues.antt =====
-- src/property_update_manager.cpp: a queued buffer is in the queue once at most, and the active buffer has
-- the state kActive.
use rich_graph.Base.{
  ℕ, ◌≤◌, Option, none, some, List, [], ◌∷◌, ◌++◌, get_or, set, is_empty, ◌==◌, if◌then◌else◌, ◌≡◌,
  ◌≢◌, refl, sym, ◌∙◌, arith, Bool-cases, inl, inr, ◌⊎◌,
}
use rich_graph.Updates.Manager.{
  queued, Buffer, no_buffer, PropertyUpdateManager, take_free, activate, wake, queue_buffer,
  queue_active_buffer, put_buffer,
}
use rich_graph.Updates.Worker.{stop_worker, set_fatal_error}
use rich_graph.Updates.Calls.{Preserved}
use rich_graph.Updates.Reach.{
  code_at, times, times-snoc, get_or-set_other, get_or-set_same, TakesFree, take_free-TakesFree,
  Stays, wake-Stays, queue_active_buffer-Stays,
}

abbrev pub queued_bit : ℕ → ℕ
queued_bit code = if code == 2 then 1 else 0

pub record IsWell (m : PropertyUpdateManager) : Type 0 where
  pub queue : (q : ℕ) → times q m.queued_buffers ≤ queued_bit (code_at m.buffers q)
  pub active : (a : ℕ) → m.active_buffer ≡ some a → code_at m.buffers a ≡ 1

pub eq_or_not : (i j : ℕ) → (i ≡ j) ⊎ (i ≢ j)
eq_or_not i j = elim (Bool-cases (i == j)) [
  | inl e ↦ inl (ground arith)
  | inr e ↦ inr (λ h. ground arith)
]

pub some_injective : (i j : ℕ) → some i ≡ some j → i ≡ j
some_injective i j e = ground (arith, e)

activate-IsWell :
    (r : Option (ℕ × List Buffer)) (m : PropertyUpdateManager)
    → TakesFree m.buffers r
    → IsWell m
    → IsWell (activate r m)
activate-IsWell none m t h = h
activate-IsWell (some (j, bs)) m t h = record {
  queue = λ q. elim (eq_or_not q j) [
    | inl e ↦ rw e (let c = t.was_free in let d = t.is_active in ground (arith, h.queue j, c, d))
    | inr n ↦ rw (t.others q n) (h.queue q)
  ];
  active = λ a e. rw (some_injective a j (sym e)) (t.is_active);
}

wake-IsWell : (m : PropertyUpdateManager) → IsWell m → IsWell (wake m)
unfolding wake
wake-IsWell m h = activate-IsWell (take_free m.buffers) m (take_free-TakesFree m.buffers) h

queue_buffer-IsWell :
    (o : Option ℕ) (m : PropertyUpdateManager)
    → m.active_buffer ≡ o
    → IsWell m
    → IsWell (queue_buffer o m)
queue_buffer-IsWell none m e h = h
queue_buffer-IsWell (some a) m e h =
    let b = get_or m.buffers a no_buffer in
    let b' : Buffer = record b { state = queued } in
    let was : code_at m.buffers a ≡ 1 = h.active a e in
    elim (Bool-cases (is_empty b.records)) [
      | inl k ↦ rw k h
      | inr k ↦ rw k (
          let m2 : PropertyUpdateManager = record m {
            buffers = set m.buffers a b';
            queued_buffers = m.queued_buffers ++ (a ∷ []);
            active_buffer = none;
          } in
          activate-IsWell (take_free m2.buffers) m2 (take_free-TakesFree m2.buffers) (record {
            queue = λ q. rw (times-snoc q a m.queued_buffers) (elim (eq_or_not q a) [
              | inl i ↦
                  rw (i, get_or-set_same m.buffers a b' (omega (arith, was)))
                    (ground (arith, h.queue a, was))
              | inr n ↦ rw (get_or-set_other m.buffers q a b' n) (ground (arith, h.queue q, n))
            ]);
            active = λ c f. absurd (ground arith);
          }))
    ]

queue_active_buffer-IsWell : (m : PropertyUpdateManager) → IsWell m → IsWell (queue_active_buffer m)
unfolding queue_active_buffer
queue_active_buffer-IsWell m h = queue_buffer-IsWell m.active_buffer m refl h

-- A buffer with the state that it had.
same_codes :
    (bs : List Buffer) (i q : ℕ) (b : Buffer)
    → code_at bs i ≡ 1
    → b.state ≡ (get_or bs i no_buffer).state
    → code_at (set bs i b) q ≡ code_at bs q
same_codes bs i q b was s = elim (eq_or_not q i) [
  | inl e ↦ rw (e, get_or-set_same bs i b (omega (arith, was))) (rw s refl)
  | inr n ↦ rw (get_or-set_other bs q i b n) refl
]

pub IsWell-Preserved : Preserved IsWell
unfolding stop_worker set_fatal_error
IsWell-Preserved = record {
  wakes = wake-IsWell;
  queues = queue_active_buffer-IsWell;
  counts = λ m h. record { queue = h.queue; active = h.active };
  puts = λ updates n i m e h. record {
    queue = λ q.
        rw (same_codes m.buffers i q (put_buffer updates n i m) (h.active i e) refl) (h.queue q);
    active = λ a f.
        same_codes m.buffers i a (put_buffer updates n i m) (h.active i e) refl ∙ h.active a f;
  };
  stops = λ m h. record { queue = h.queue; active = h.active };
  fails = λ error m h. record { queue = h.queue; active = h.active };
}

-- A buffer out of reach stays as it is.
pub Stays-Preserved : (i : ℕ) (m0 : PropertyUpdateManager) → Preserved (Stays i m0)
unfolding stop_worker set_fatal_error
Stays-Preserved i m0 = record {
  wakes = λ m h. let s = wake-Stays i m h.out in record { same = s.same ∙ h.same; out = s.out };
  queues = λ m h.
      let s = queue_active_buffer-Stays i m h.out in record { same = s.same ∙ h.same; out = s.out };
  counts = λ m h. record {
    same = h.same;
    out = record {
      not_free = h.out.not_free;
      not_active = h.out.not_active;
      not_queued = h.out.not_queued;
    };
  };
  puts = λ updates n j m e h.
      let other =
        get_or-set_other m.buffers i j (put_buffer updates n j m) (h.out.not_active j e) in
      record {
        same = other ∙ h.same;
        out = record {
          not_free = rw other (h.out.not_free);
          not_active = h.out.not_active;
          not_queued = h.out.not_queued;
        };
      };
  stops = λ m h. record {
    same = h.same;
    out = record {
      not_free = h.out.not_free;
      not_active = h.out.not_active;
      not_queued = h.out.not_queued;
    };
  };
  fails = λ error m h. record {
    same = h.same;
    out = record {
      not_free = h.out.not_free;
      not_active = h.out.not_active;
      not_queued = h.out.not_queued;
    };
  };
}
