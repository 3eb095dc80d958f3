-- ===== src/Versions/Snapshot.antt =====
-- src/version_set.cpp: what a reader may rely on while it holds a version, and what is left when the
-- set is destroyed.
use rich_graph.Base.{
  ℕ, ◌≤◌, ◌<◌, Option, none, some, List, [], ◌∷◌, ◌++◌, ltb, ◌≡◌, ◌≢◌, refl, ◌∙◌, arith, Bool-cases,
  inl, inr,
}
use rich_graph.Versions.{
  VersionSet, VersionEdit, files_of, delete_version, ref_version, unref_version, unref_current,
  append_version, log_and_apply, sort_newest,
}
use rich_graph.Versions.Counts.{count, listed, listed-delete_version}
use rich_graph.Versions.Unref.{Counted, next_version-unref_version}
use rich_graph.Versions.Apply.{
  Held, count-files_of, next_version-unref_current, old_files, new_files, referred,
  referred-Counted,
}
use rich_graph.Versions.Steps.{
  State, Step, creates, applies, sets_version, leaves, disowns, Steps, start, step, Sound,
  Steps-Sound, opened, no_files, opened-Sound,
}

-- From a new version set without files, after any sequence of steps that create table files, apply
-- edits whose new files have an owner, take and leave the current version, and give files up, a
-- table file of a version that a reader holds has a reference and was not removed.
pub held_files_exist :
    (a : State) (v f : ℕ)
    → Steps (opened no_files) a
    → 0 < count v a.readers
    → 0 < count f (files_of v a.set.versions)
    → (0 < a.set.files.refs f) × (count f a.set.files.removed ≡ 0)
held_files_exist a v f steps reads holds =
    let sound = Steps-Sound steps opened-Sound in
    let alive : 0 < a.set.files.refs f =
      omega (arith, sound.counted.files f, count-files_of f v a.set.versions, holds) in
    (alive, sound.counted.none_removed.kept f alive)

-- A version that is still in the list has the files that it had.
record Kept (v : ℕ) (before after : VersionSet) : Type 0 where
  stood : 0 < listed v before.versions
  same : files_of v after.versions ≡ files_of v before.versions

files_of-delete_version :
    (v w : ℕ) (versions : List (ℕ × List ℕ))
    → v ≢ w
    → files_of w (delete_version v versions) ≡ files_of w versions
unfolding files_of delete_version
files_of-delete_version v w [] n = refl
files_of-delete_version v w ((x, fs) ∷ versions) n =
    ground (arith, files_of-delete_version v w versions n)

unref_version-Kept :
    (owners : ℕ → ℕ) (v w : ℕ) (s : VersionSet)
    → Counted owners s
    → 0 < listed v (unref_version w s).versions
    → Kept v s (unref_version w s)
unfolding unref_version
unref_version-Kept owners v w s h = elim (Bool-cases (ltb 1 (s.version_refs w))) [
  | inl e ↦ rw e (λ here. record { stood = here; same = refl })
  | inr e ↦ rw e (λ here.
      let count = listed-delete_version w v s.versions in
      let once = h.linked v in
      record {
        stood = omega (arith, count, here);
        same = files_of-delete_version w v s.versions (λ q. ground (arith, count, once, here, q));
      })
]

unref_current-Kept :
    (owners : ℕ → ℕ) (o : Option ℕ) (v : ℕ) (s : VersionSet)
    → Counted owners s
    → 0 < listed v (unref_current o s).versions
    → Kept v s (unref_current o s)
unref_current-Kept owners none v s h here = record { stood = here; same = refl }
unref_current-Kept owners (some c) v s h here = unref_version-Kept owners v c s h here

append_version-Kept :
    (owners : ℕ → ℕ) (v n : ℕ) (fs : List ℕ) (s : VersionSet)
    → Counted owners s
    → v < n
    → 0 < listed v (append_version n fs s).versions
    → Kept v s (append_version n fs s)
unfolding append_version ref_version listed files_of
append_version-Kept owners v n fs s h apart here =
    let kept = unref_current-Kept owners s.current v s h (ground (arith, apart, here)) in
    let old = kept.same in record { stood = kept.stood; same = ground (arith, apart, old) }

log_and_apply-Kept :
    (owners : ℕ → ℕ) (readers : List ℕ) (v : ℕ) (edit : VersionEdit) (s : VersionSet)
    → Counted owners s
    → Held readers s
    → ((f : ℕ) → 0 < count f edit.new_files → 0 < s.files.refs f)
    → v < s.next_version
    → 0 < listed v (log_and_apply edit s).versions
    → Kept v s (log_and_apply edit s)
unfolding log_and_apply
log_and_apply-Kept owners readers v edit s h held_by exist older here =
    let kept =
      append_version-Kept _ v s.next_version
        (sort_newest (
          old_files owners readers edit s h held_by exist
          ++ new_files owners readers edit s h held_by exist))
        (referred owners readers edit s h held_by exist)
        (referred-Counted owners readers edit s h held_by exist) older here in
    record { stood = kept.stood; same = kept.same }

next_version-log_and_apply :
    (edit : VersionEdit) (s : VersionSet) → s.next_version ≤ (log_and_apply edit s).next_version
unfolding log_and_apply append_version ref_version
next_version-log_and_apply edit s = omega (arith, next_version-unref_current s.current _)

Step-Kept :
    {a b : State} (v : ℕ)
    → Sound a
    → Step a b
    → v < a.set.next_version
    → 0 < listed v b.set.versions
    → Kept v a.set b.set
unfolding ref_version
Step-Kept v h (creates f none_there never) older here = record { stood = here; same = refl }
Step-Kept v h (applies {readers = readers} {s = s} edit fresh) older here =
    log_and_apply-Kept _ readers v edit s h.counted h.held_by
      (λ f k. omega (arith, fresh f k, h.counted.files f)) older here
Step-Kept v h (sets_version w e) older here = record { stood = here; same = refl }
Step-Kept v h (leaves {s = s} w xs ys) older here = unref_version-Kept _ v w s h.counted here
Step-Kept v h (disowns f xs ys) older here = record { stood = here; same = refl }

next_version-Step : {a b : State} → Step a b → a.set.next_version ≤ b.set.next_version
unfolding ref_version
next_version-Step (creates f none_there never) = omega arith
next_version-Step (applies {s = s} edit fresh) = next_version-log_and_apply edit s
next_version-Step (sets_version v e) = omega arith
next_version-Step (leaves {s = s} v xs ys) = omega (arith, next_version-unref_version v s)
next_version-Step (disowns f xs ys) = omega arith

next_version-Steps : {a b : State} → Steps a b → a.set.next_version ≤ b.set.next_version
next_version-Steps start = omega arith
next_version-Steps (step before e) = omega (arith, next_version-Steps before, next_version-Step e)

Steps-Kept :
    {a b : State} (v : ℕ)
    → Sound a
    → Steps a b
    → v < a.set.next_version
    → 0 < listed v b.set.versions
    → Kept v a.set b.set
Steps-Kept v h start older here = record { stood = here; same = refl }
Steps-Kept v h (step before e) older here =
    let last =
      Step-Kept v (Steps-Sound before h) e (omega (arith, next_version-Steps before, older)) here in
    let first = Steps-Kept v h before older last.stood in
    record { stood = first.stood; same = last.same ∙ first.same }

-- When a version has a reference in a state that a new version set comes to, then through any
-- further steps for as long as a reader holds it, the version has the files that it had.
pub snapshot_stable :
    (a b : State) (v : ℕ)
    → Steps (opened no_files) a
    → 0 < a.set.version_refs v
    → Steps a b
    → 0 < count v b.readers
    → files_of v b.set.versions ≡ files_of v a.set.versions
snapshot_stable a b v before there steps reads =
    let sound = Steps-Sound before opened-Sound in
    let after = Steps-Sound steps sound in
    let older : v < a.set.next_version = ground (arith, sound.counted.unused v, there) in
    let listed_now : 0 < listed v b.set.versions =
      ground (arith, after.held_by.counted v, after.counted.linked v, reads) in
    (Steps-Kept v sound steps older listed_now).same
