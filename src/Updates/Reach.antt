-- ===== src/Updates/Reach.antt =====
-- src/property_update_manager.cpp: a buffer that is not free, nor active, nor queued is out of reach of
-- all critical sections but those of the worker that holds it.
use rich_graph.Base.{
  ℕ, zero, suc, ◌+◌, ◌<◌, true, Option, none, some, List, [], ◌∷◌, ◌++◌, get_or, set, is_empty,
  ◌==◌, if◌then◌else◌, ◌≡◌, ◌≢◌, refl, ap, ◌∙◌, arith, subst, Bool-cases, inl, inr,
}
use rich_graph.Updates.Manager.{
  BufferState, free, active, queued, flushing, failed, Buffer, no_buffer, is_free,
  PropertyUpdateManager, take_free, later, activate, wake, queue_buffer, queue_active_buffer,
}

abbrev pub state_code : BufferState → ℕ
state_code free = 0
state_code active = 1
state_code queued = 2
state_code flushing = 3
state_code failed = 4

abbrev pub code_at : List Buffer → ℕ → ℕ
code_at bs i = state_code (get_or bs i no_buffer).state

unfoldable pub times : ℕ → List ℕ → ℕ
times i [] = 0
times i (j ∷ queue) = (if i == j then 1 else 0) + times i queue

pub times-snoc :
    (i j : ℕ) (queue : List ℕ)
    → times i (queue ++ (j ∷ [])) ≡ times i queue + (if i == j then 1 else 0)
unfolding times
times-snoc i j [] = omega arith
times-snoc i j (k ∷ queue) = omega (arith, times-snoc i j queue)

pub get_or-set_other :
    (bs : List Buffer) (i j : ℕ) (b : Buffer)
    → i ≢ j
    → get_or (set bs j b) i no_buffer ≡ get_or bs i no_buffer
get_or-set_other [] i j b n = refl
get_or-set_other (x ∷ bs) zero zero b n = absurd (n refl)
get_or-set_other (x ∷ bs) (suc i) zero b n = refl
get_or-set_other (x ∷ bs) zero (suc j) b n = refl
get_or-set_other (x ∷ bs) (suc i) (suc j) b n = get_or-set_other bs i j b (λ e. n (ap suc e))

-- There is a buffer where the state is not that of no_buffer.
pub get_or-set_same :
    (bs : List Buffer) (i : ℕ) (b : Buffer) → code_at bs i < 4 → get_or (set bs i b) i no_buffer ≡ b
get_or-set_same [] i b h = absurd (omega (arith, h))
get_or-set_same (x ∷ bs) zero b h = refl
get_or-set_same (x ∷ bs) (suc i) b h = get_or-set_same bs i b h

-- The search takes a free buffer, and leaves the others.
pub record Takes (bs : List Buffer) (j : ℕ) (bs' : List Buffer) : Type 0 where
  pub was_free : code_at bs j ≡ 0
  pub is_active : code_at bs' j ≡ 1
  pub others : (i : ℕ) → i ≢ j → get_or bs' i no_buffer ≡ get_or bs i no_buffer

abbrev pub TakesFree : List Buffer → Option (ℕ × List Buffer) → Type 0
TakesFree bs none = Unit {0}
TakesFree bs (some (j, bs')) = Takes bs j bs'

later-others :
    (b : Buffer) (bs bs' : List Buffer) (j i : ℕ)
    → Takes bs j bs'
    → i ≢ suc j
    → get_or (b ∷ bs') i no_buffer ≡ get_or (b ∷ bs) i no_buffer
later-others b bs bs' j zero h n = refl
later-others b bs bs' j (suc i) h n = h.others i (λ e. n (ap suc e))

later-TakesFree :
    (b : Buffer) (bs : List Buffer) (r : Option (ℕ × List Buffer))
    → TakesFree bs r
    → TakesFree (b ∷ bs) (later b r)
later-TakesFree b bs none h = tt
later-TakesFree b bs (some (j, bs')) h = record {
  was_free = h.was_free;
  is_active = h.is_active;
  others = λ i n. later-others b bs bs' j i h n;
}

head_other :
    (b b' : Buffer) (bs : List Buffer) (i : ℕ)
    → i ≢ 0
    → get_or (b' ∷ bs) i no_buffer ≡ get_or (b ∷ bs) i no_buffer
head_other b b' bs zero n = absurd (n refl)
head_other b b' bs (suc i) n = refl

free_code : (s : BufferState) → is_free s ≡ true → state_code s ≡ 0
free_code s h = ground arith

pub take_free-TakesFree : (bs : List Buffer) → TakesFree bs (take_free bs)
unfolding take_free
take_free-TakesFree [] = tt
take_free-TakesFree (b ∷ bs) = elim (Bool-cases (is_free b.state)) [
  | inr e ↦ rw e (later-TakesFree b bs (take_free bs) (take_free-TakesFree bs))
  | inl e ↦ rw e (record {
    was_free = free_code b.state e;
    is_active = refl;
    others = λ i n. head_other b (record b { state = active }) bs i n;
  })
]

pub record IsOut (i : ℕ) (m : PropertyUpdateManager) : Type 0 where
  pub not_free : 0 < code_at m.buffers i
  pub not_active : (a : ℕ) → m.active_buffer ≡ some a → i ≢ a
  pub not_queued : times i m.queued_buffers ≡ 0

pub record Stays (i : ℕ) (m m' : PropertyUpdateManager) : Type 0 where
  pub same : get_or m'.buffers i no_buffer ≡ get_or m.buffers i no_buffer
  pub out : IsOut i m'

module _ (i : ℕ) where
  pub Stays-refl : (m : PropertyUpdateManager) → IsOut i m → Stays i m m
  Stays-refl m h = record { same = refl; out = h }

  activate-Stays :
      (r : Option (ℕ × List Buffer)) (m : PropertyUpdateManager)
      → TakesFree m.buffers r
      → IsOut i m
      → Stays i m (activate r m)
  activate-Stays none m t h = Stays-refl m h
  activate-Stays (some (j, bs)) m t h =
      let apart : i ≢ j = λ e.
        let c = ap (code_at m.buffers) e in absurd (omega (arith, c, t.was_free, h.not_free)) in
      record {
        same = t.others i apart;
        out = record {
          not_free = rw (t.others i apart) (h.not_free);
          not_active = λ a e. subst (λ o. i ≢ get_some o) e apart;
          not_queued = h.not_queued;
        };
      }
    where
      get_some : Option ℕ → ℕ
      get_some none = 0
      get_some (some a) = a

  pub wake-Stays : (m : PropertyUpdateManager) → IsOut i m → Stays i m (wake m)
  unfolding wake
  wake-Stays m h = activate-Stays (take_free m.buffers) m (take_free-TakesFree m.buffers) h

  -- A buffer other than `i` is written.
  set-IsOut :
      (a : ℕ) (b : Buffer) (m : PropertyUpdateManager)
      → i ≢ a
      → IsOut i m
      → 0 < code_at (set m.buffers a b) i
  set-IsOut a b m n h = rw (get_or-set_other m.buffers i a b n) (h.not_free)

  queue_buffer-Stays :
      (o : Option ℕ) (m : PropertyUpdateManager)
      → m.active_buffer ≡ o
      → IsOut i m
      → Stays i m (queue_buffer o m)
  queue_buffer-Stays none m e h = Stays-refl m h
  queue_buffer-Stays (some a) m e h =
      let b = get_or m.buffers a no_buffer in
      let b' : Buffer = record b { state = queued } in
      let n : i ≢ a = h.not_active a e in
      elim (Bool-cases (is_empty b.records)) [
        | inl k ↦ rw k (Stays-refl m h)
        | inr k ↦ rw k (
            let m2 : PropertyUpdateManager = record m {
              buffers = set m.buffers a b';
              queued_buffers = m.queued_buffers ++ (a ∷ []);
              active_buffer = none;
            } in
            let out2 : IsOut i m2 = record {
              not_free = set-IsOut a b' m n h;
              not_active = λ c f. absurd (ground arith);
              not_queued = times-snoc i a m.queued_buffers ∙ ground (arith, n, h.not_queued);
            } in
            let woken =
              activate-Stays (take_free m2.buffers) m2 (take_free-TakesFree m2.buffers) out2 in
            record { same = woken.same ∙ get_or-set_other m.buffers i a b' n; out = woken.out })
      ]

  pub queue_active_buffer-Stays :
      (m : PropertyUpdateManager) → IsOut i m → Stays i m (queue_active_buffer m)
  unfolding queue_active_buffer
  queue_active_buffer-Stays m h = queue_buffer-Stays m.active_buffer m refl h
