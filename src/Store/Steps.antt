-- ===== src/Store/Steps.antt =====
-- src/property_delta_store.cpp: threads that attach, mark targets and merge, as sequences of steps
-- on the store and on the targets whose merge runs. A worker takes a job; a caller of MergeAll
-- takes a chain whose flag is not set. A call of Attach or MarkTargetPersistent is one step, and so is
-- each critical section of a merge.
use rich_graph.Base.{
  ℕ, ◌+◌, Bool, true, false, Option, none, some, List, [], ◌∷◌, ◌++◌, ◌≡◌, refl, subst,
}
use rich_graph.Delta.{PropertyDeltaTarget, PropertyDeltaRecord}
use rich_graph.Delta.File.{PropertyDeltaFile}
use rich_graph.Delta.Create.{CreateIo, DeltaDurability}
use rich_graph.Manifest.Append.{AppendIo}
use rich_graph.Store.{StoreError, ok, err, PropertyDeltaStore, chain_at, with_chain}
use rich_graph.Store.View.{PropertyDeltaReadView, MappedPropertyFile}
use rich_graph.Store.Attach.{attach, mark_target_persistent}
use rich_graph.Store.Merge.{
  refused, skipped, captured, begin_merge, finish_merge, take_job, take_first, finish_job,
}
use rich_graph.Store.Jobs.{InFlight, count, claim, flag, InFlight-claim, InFlight-take}
use rich_graph.Store.Merging.{
  finish_call, BegunInFlight, begin_merge-InFlight, finish_merge-InFlight, finish_job-InFlight,
  finish_call-InFlight,
}
use rich_graph.Store.Recover.{RecoverIo, recovered, recover_store}
use rich_graph.Store.Waiting.{recover_store-InFlight}
use rich_graph.Store.Flight.{attach-InFlight, mark_target_persistent-InFlight}

abbrev pub State : Type 0
State = List PropertyDeltaTarget × PropertyDeltaStore

pub data Step : State → State → Type 0 where
  attaches :
      {running : List PropertyDeltaTarget} {s : PropertyDeltaStore} (t : PropertyDeltaTarget)
      (rs : List PropertyDeltaRecord) (persistent : Bool) (create_io : CreateIo)
      (append_io : AppendIo)
      → Step (running, s) (running, (attach t rs persistent create_io append_io s).1)
  marks :
      {running : List PropertyDeltaTarget} {s : PropertyDeltaStore} (t : PropertyDeltaTarget)
      (ios : ℕ → AppendIo)
      → Step (running, s) (running, (mark_target_persistent t ios s).1)
  takes :
      {running : List PropertyDeltaTarget} {s s' : PropertyDeltaStore} {t : PropertyDeltaTarget}
      → take_job s ≡ some (t, s')
      → Step (running, s) (t ∷ running, s')
  calls :
      {running : List PropertyDeltaTarget} {s : PropertyDeltaStore} (t : PropertyDeltaTarget)
      → flag t s ≡ false
      → Step
          (running, s)
          (
            t ∷ running,
            with_chain t (record (chain_at t s) { merge_scheduled_or_running = true }) s,
          )
  captures :
      (t : PropertyDeltaTarget) (xs ys : List PropertyDeltaTarget) {s s' : PropertyDeltaStore}
      (merge_all : Bool) (view : PropertyDeltaReadView) (batch : List PropertyDeltaFile) (g : ℕ)
      → begin_merge t merge_all s ≡ captured view batch g s'
      → Step (xs ++ (t ∷ ys), s) (xs ++ (t ∷ ys), s')
  skips :
      (t : PropertyDeltaTarget) (xs ys : List PropertyDeltaTarget) {s s' : PropertyDeltaStore}
      → begin_merge t false s ≡ skipped s'
      → Step (xs ++ (t ∷ ys), s) (xs ++ ys, finish_job t (ok, s'))
  skips_call :
      (t : PropertyDeltaTarget) (xs ys : List PropertyDeltaTarget) {s s' : PropertyDeltaStore}
      → begin_merge t true s ≡ skipped s'
      → Step (xs ++ (t ∷ ys), s) (xs ++ ys, finish_call t (ok, s'))
  is_refused :
      (t : PropertyDeltaTarget) (xs ys : List PropertyDeltaTarget) {s s' : PropertyDeltaStore}
      {e : StoreError}
      → begin_merge t false s ≡ refused e s'
      → Step (xs ++ (t ∷ ys), s) (xs ++ ys, finish_job t (err e, s'))
  is_refused_call :
      (t : PropertyDeltaTarget) (xs ys : List PropertyDeltaTarget) {s s' : PropertyDeltaStore}
      {e : StoreError}
      → begin_merge t true s ≡ refused e s'
      → Step (xs ++ (t ∷ ys), s) (xs ++ ys, finish_call t (err e, s'))
  finishes :
      (t : PropertyDeltaTarget) (xs ys : List PropertyDeltaTarget) {s : PropertyDeltaStore}
      (batch : List PropertyDeltaFile) (g : ℕ) (made : Option MappedPropertyFile) (io : AppendIo)
      → Step (xs ++ (t ∷ ys), s) (xs ++ ys, finish_job t (finish_merge t false batch g made io s))
  finishes_call :
      (t : PropertyDeltaTarget) (xs ys : List PropertyDeltaTarget) {s : PropertyDeltaStore}
      (batch : List PropertyDeltaFile) (g : ℕ) (made : Option MappedPropertyFile) (io : AppendIo)
      → Step (xs ++ (t ∷ ys), s) (xs ++ ys, finish_call t (finish_merge t true batch g made io s))

pub data Steps : State → State → Type 0 where
  start : {a : State} → Steps a a
  step : {a b c : State} → Steps a b → Step b c → Steps a c

abbrev TakenInFlight :
    List PropertyDeltaTarget → Option (PropertyDeltaTarget × PropertyDeltaStore) → Type 0
TakenInFlight running none = Unit {0}
TakenInFlight running (some (t, s)) = InFlight (t ∷ running) s

take_first-InFlight :
    (running jobs : List PropertyDeltaTarget) (s : PropertyDeltaStore)
    → s.jobs ≡ jobs
    → InFlight running s
    → TakenInFlight running (take_first jobs s)
take_first-InFlight running [] s same h = tt
take_first-InFlight running (t ∷ jobs) s same h = InFlight-take t jobs running s _ h same refl refl

take_job-InFlight :
    (running : List PropertyDeltaTarget) (s : PropertyDeltaStore)
    → InFlight running s
    → TakenInFlight running (take_job s)
unfolding take_job
take_job-InFlight running s h = take_first-InFlight running s.jobs s refl h

Step-InFlight : {a b : State} → Step a b → InFlight a.0 a.1 → InFlight b.0 b.1
Step-InFlight (attaches {s = s} t rs persistent create_io append_io) h =
    attach-InFlight t rs persistent create_io append_io s h
Step-InFlight (marks {s = s} t ios) h = mark_target_persistent-InFlight t ios s h
Step-InFlight (takes {running = running} {s = s} e) h =
    subst (TakenInFlight running) e (take_job-InFlight running s h)
Step-InFlight (calls {s = s} t e) h = InFlight-claim t _ s _ h e refl
Step-InFlight (captures t xs ys {s = s} merge_all view batch g e) h =
    subst (BegunInFlight t xs ys) e (begin_merge-InFlight t xs ys merge_all s h)
Step-InFlight (skips t xs ys {s = s} e) h =
    finish_job-InFlight t xs ys _
      (subst (BegunInFlight t xs ys) e (begin_merge-InFlight t xs ys false s h))
Step-InFlight (skips_call t xs ys {s = s} {s' = s'} e) h =
    finish_call-InFlight t xs ys (ok, s')
      (subst (BegunInFlight t xs ys) e (begin_merge-InFlight t xs ys true s h))
Step-InFlight (is_refused t xs ys {s = s} e) h =
    finish_job-InFlight t xs ys _
      (subst (BegunInFlight t xs ys) e (begin_merge-InFlight t xs ys false s h))
Step-InFlight (is_refused_call t xs ys {s = s} {s' = s'} {e = f} e) h =
    finish_call-InFlight t xs ys (err f, s')
      (subst (BegunInFlight t xs ys) e (begin_merge-InFlight t xs ys true s h))
Step-InFlight (finishes t xs ys {s = s} batch g made io) h =
    finish_job-InFlight t xs ys (finish_merge t false batch g made io s)
      (finish_merge-InFlight t xs ys false batch g made io s h)
Step-InFlight (finishes_call t xs ys {s = s} batch g made io) h =
    finish_call-InFlight t xs ys (finish_merge t true batch g made io s)
      (finish_merge-InFlight t xs ys true batch g made io s h)

Steps-InFlight : {a b : State} → Steps a b → InFlight a.0 a.1 → InFlight b.0 b.1
Steps-InFlight start h = h
Steps-InFlight (step before e) h = Step-InFlight e (Steps-InFlight before h)

-- In a store that OpenAndRecover returns, and after any sequence of calls of Attach and
-- MarkTargetPersistent and of critical sections of the worker and of the callers of
-- MergeAllForBaseFiles on it, the merges of a target that wait in the queue or run are one when
-- its flag is set, and none otherwise.
pub one_merge_per_target :
    (io : RecoverIo) (path : List ℕ) (threshold : ℕ) (durability : DeltaDurability)
    (callback : Bool) (files : List (List ℕ × List ℕ)) (log : List ℕ) (first s : PropertyDeltaStore)
    (running : List PropertyDeltaTarget)
    → recover_store io path threshold durability callback files log ≡ recovered first
    → Steps ([], first) (running, s)
    → (k : PropertyDeltaTarget) → count k s.jobs + count k running ≡ claim (flag k s)
one_merge_per_target io path threshold durability callback files log first s running opened steps =
    (Steps-InFlight steps
      (recover_store-InFlight io path threshold durability callback files log first opened)).counted
