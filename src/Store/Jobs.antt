-- ===== src/Store/Jobs.antt =====
-- src/property_delta_store.cpp: the merges of a target that wait in `jobs_` or run, and its flag
-- `merge_scheduled_or_running`.
use rich_graph.Base.{
  ℕ, ◌+◌, Bool, true, false, Option, some, List, [], ◌∷◌, ◌++◌, ◌≡◌, refl, ap, ◌∙◌, subst, arith,
  ◌&&◌, ◌||◌, if◌then◌else◌, Bool-cases, inl, inr,
}
use rich_graph.Delta.{PropertyDeltaTarget, target_eq}
use rich_graph.Store.{
  Chain, PropertyDeltaStore, find_chain, chain_or_fresh, chain_at, schedule_if, schedule_merge,
  with_chain,
}
use rich_graph.Store.Registry.{find_chain-set_chain, schedule_if-registry}

unfoldable pub count : PropertyDeltaTarget → List PropertyDeltaTarget → ℕ
count k [] = 0
count k (t ∷ ts) = (if target_eq t k then 1 else 0) + count k ts

abbrev pub claim : Bool → ℕ
claim true = 1
claim false = 0

abbrev pub flag : PropertyDeltaTarget → PropertyDeltaStore → Bool
flag k s = (chain_at k s).merge_scheduled_or_running

-- A target has one merge that waits or runs if its flag is set, and none if it is not.
pub record InFlight (running : List PropertyDeltaTarget) (s : PropertyDeltaStore) : Type 0 where
  pub counted : (k : PropertyDeltaTarget) → count k s.jobs + count k running ≡ claim (flag k s)

count-append :
    (k : PropertyDeltaTarget) (xs ys : List PropertyDeltaTarget)
    → count k (xs ++ ys) ≡ count k xs + count k ys
unfolding count
count-append k [] ys = omega arith
count-append k (x ∷ xs) ys = omega (arith, count-append k xs ys)

count-schedule_if :
    (k t : PropertyDeltaTarget) (due : Bool) (s : PropertyDeltaStore)
    → count k (schedule_if due t s).jobs ≡ count k s.jobs + (if due && target_eq t k then 1 else 0)
unfolding schedule_merge count
count-schedule_if k t true s = ground (arith, count-append k s.jobs (t ∷ []))
count-schedule_if k t false s = omega arith

flag_if :
    (b : Bool) (c : Chain) (o : Option Chain)
    → (chain_or_fresh (if b then some c else o)).merge_scheduled_or_running
      ≡ (if b then c.merge_scheduled_or_running else (chain_or_fresh o).merge_scheduled_or_running)
flag_if true c o = refl
flag_if false c o = refl

flag-with_chain :
    (k t : PropertyDeltaTarget) (c : Chain) (s : PropertyDeltaStore)
    → flag k (with_chain t c s) ≡ (if target_eq t k then c.merge_scheduled_or_running else flag k s)
flag-with_chain k t c s =
    ap (λ o. (chain_or_fresh o).merge_scheduled_or_running) (find_chain-set_chain t k c s.registry)
    ∙ flag_if (target_eq t k) c (find_chain k s.registry)

flag-schedule_if :
    (k t : PropertyDeltaTarget) (due : Bool) (s : PropertyDeltaStore)
    → flag k (schedule_if due t s) ≡ flag k s
flag-schedule_if k t due s =
    ap (λ r. (chain_or_fresh (find_chain k r)).merge_scheduled_or_running)
      (schedule_if-registry due t s)

pub target_eq→eq : (t k : PropertyDeltaTarget) → target_eq t k ≡ true → t ≡ k
target_eq→eq t k e = ground arith

module _ (t : PropertyDeltaTarget) (s s1 : PropertyDeltaStore) (kept : s1.jobs ≡ s.jobs) where
  -- A merge is scheduled where the flag was not set.
  InFlight-due :
      (due : Bool) (running : List PropertyDeltaTarget)
      → InFlight running s
      → (due ≡ true → flag t s ≡ false)
      → ((k : PropertyDeltaTarget)
          → flag k s1 ≡ (if target_eq t k then due || flag t s else flag k s))
      → InFlight running (schedule_if due t s1)
  InFlight-due due running h free flags = record {
    counted = λ k.
        rw (count-schedule_if k t due s1, flag-schedule_if k t due s1, flags k, kept)
          (elim (Bool-cases (target_eq t k)) [
            | inl e ↦
                let same = ap (λ j. flag j s) (target_eq→eq t k e) in
                ground (arith, h.counted k, free, same)
            | inr e ↦ ground (arith, h.counted k)
          ]);
  }

  -- A merge that ran is over, and another is scheduled or none.
  InFlight-over :
      (again : Bool) (xs ys : List PropertyDeltaTarget)
      → InFlight (xs ++ (t ∷ ys)) s
      → ((k : PropertyDeltaTarget) → flag k s1 ≡ (if target_eq t k then again else flag k s))
      → InFlight (xs ++ ys) (schedule_if again t s1)
  unfolding count
  InFlight-over again xs ys h flags = record {
    counted = λ k.
        rw
          (
            count-schedule_if k t again s1,
            flag-schedule_if k t again s1,
            flags k,
            kept,
            count-append k xs ys,
          )
          (let before : count k s.jobs + (count k xs + count k (t ∷ ys)) ≡ claim (flag k s) =
              rw (← count-append k xs (t ∷ ys)) (h.counted k) in
            ground (arith, before));
  }

-- The flags when the chain of one target was put back.
pub flag_put :
    (t : PropertyDeltaTarget) (c : Chain) (b : Bool) (s s1 : PropertyDeltaStore)
    → s1.registry ≡ (with_chain t c s).registry
    → c.merge_scheduled_or_running ≡ b
    → (k : PropertyDeltaTarget) → flag k s1 ≡ (if target_eq t k then b else flag k s)
flag_put t c b s s1 chains same k =
    ap (λ r. (chain_or_fresh (find_chain k r)).merge_scheduled_or_running) chains
    ∙ flag-with_chain k t c s
    ∙ ap (λ x. if target_eq t k then x else flag k s) same

pub InFlight-put :
    (t : PropertyDeltaTarget) (due : Bool) (c : Chain) (s s1 : PropertyDeltaStore)
    {running : List PropertyDeltaTarget}
    → InFlight running s
    → s1.jobs ≡ s.jobs
    → s1.registry ≡ (with_chain t c s).registry
    → c.merge_scheduled_or_running ≡ (due || flag t s)
    → (due ≡ true → flag t s ≡ false)
    → InFlight running (schedule_if due t s1)
InFlight-put t due c s s1 {running} h kept chains same free =
    InFlight-due t s s1 kept due running h free (flag_put t c (due || flag t s) s s1 chains same)

pub InFlight-end :
    (t : PropertyDeltaTarget) (again : Bool) (c : Chain) (s s1 : PropertyDeltaStore)
    (xs ys : List PropertyDeltaTarget)
    → InFlight (xs ++ (t ∷ ys)) s
    → s1.jobs ≡ s.jobs
    → s1.registry ≡ (with_chain t c s).registry
    → c.merge_scheduled_or_running ≡ again
    → InFlight (xs ++ ys) (schedule_if again t s1)
InFlight-end t again c s s1 xs ys h kept chains same =
    InFlight-over t s s1 kept again xs ys h (flag_put t c again s s1 chains same)

-- The caller of MergeAll takes a target that has no merge.
pub InFlight-claim :
    (t : PropertyDeltaTarget) (c : Chain) (s : PropertyDeltaStore)
    (running : List PropertyDeltaTarget)
    → InFlight running s
    → flag t s ≡ false
    → c.merge_scheduled_or_running ≡ true
    → InFlight (t ∷ running) (with_chain t c s)
unfolding count
InFlight-claim t c s running h free same = record {
  counted = λ k.
      rw (flag_put t c true s (with_chain t c s) refl same k) (elim (Bool-cases (target_eq t k)) [
        | inl e ↦
            let flags = ap (λ j. flag j s) (target_eq→eq t k e) in
            ground (arith, h.counted k, free, flags)
        | inr e ↦ ground (arith, h.counted k)
      ]);
}

-- The worker takes the first job.
pub InFlight-take :
    (t : PropertyDeltaTarget) (jobs running : List PropertyDeltaTarget) (s s1 : PropertyDeltaStore)
    → InFlight running s
    → s.jobs ≡ t ∷ jobs
    → s1.jobs ≡ jobs
    → s1.registry ≡ s.registry
    → InFlight (t ∷ running) s1
unfolding count
InFlight-take t jobs running s s1 h before after same = record {
  counted = λ k.
      let here : count k (t ∷ jobs) + count k running ≡ claim (flag k s) =
        subst (λ js. count k js + count k running ≡ claim (flag k s)) before (h.counted k) in
      let flags : flag k s1 ≡ flag k s =
        ap (λ r. (chain_or_fresh (find_chain k r)).merge_scheduled_or_running) same in
      rw (after, flags) (omega (arith, here));
}
