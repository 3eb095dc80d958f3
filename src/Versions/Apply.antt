-- ===== src/Versions/Apply.antt =====
-- src/version_set.cpp: AppendVersion and LogAndApply against the reference counts.
use rich_graph.Base.{
  ℕ, ◌+◌, ◌-◌, ◌≤◌, ◌<◌, true, Option, none, some, List, [], ◌∷◌, ◌++◌, ◌==◌, ◌≡◌, refl, ap, ◌∙◌,
  arith, if◌then◌else◌, Bool-cases, inl, inr,
}
use rich_graph.Versions.{
  VersionSet, VersionEdit, change, ref_files, files_of, ref_version, unref_version, append_version,
  unref_current, current_files, is_member, kept_files, sort_newest, log_and_apply,
}
use rich_graph.Versions.Counts.{
  count, count-append, count-sort_newest, held, listed, refs-ref_files, removed-ref_files,
  NoneRemoved,
}
use rich_graph.Versions.Unref.{
  Counted, unref_version-Counted, current-unref_version, refs-unref_version,
  next_version-unref_version,
}

abbrev pub is_current : ℕ → Option ℕ → ℕ
is_current v none = 0
is_current v (some c) = if c == v then 1 else 0

-- A version has a reference if it is the current one, and one for each holder.
pub record Held (holders : List ℕ) (s : VersionSet) : Type 0 where
  pub counted : (v : ℕ) → s.version_refs v ≡ is_current v s.current + count v holders

-- Without the reference of the current version.
pub unref_current-Counted :
    (owners : ℕ → ℕ) (o : Option ℕ) (s : VersionSet)
    → Counted owners s
    → ((c : ℕ) → o ≡ some c → 0 < s.version_refs c)
    → Counted owners (unref_current o s)
unref_current-Counted owners none s h alive = h
unref_current-Counted owners (some c) s h alive = unref_version-Counted owners c s h (alive c refl)

pub refs-unref_current :
    (o : Option ℕ) (s : VersionSet) (w : ℕ)
    → (unref_current o s).version_refs w ≡ s.version_refs w - is_current w o
refs-unref_current none s w = omega arith
refs-unref_current (some c) s w = refs-unref_version c s w

pub next_version-unref_current :
    (o : Option ℕ) (s : VersionSet) → (unref_current o s).next_version ≡ s.next_version
next_version-unref_current none s = refl
next_version-unref_current (some c) s = next_version-unref_version c s

pub current_alive :
    (holders : List ℕ) (s : VersionSet)
    → Held holders s
    → (c : ℕ) → s.current ≡ some c
    → 0 < s.version_refs c
current_alive holders s held c e =
    let here : s.version_refs c ≡ is_current c (some c) + count c holders =
      held.counted c ∙ ap (λ o. is_current c o + count c holders) e in
    ground (arith, here)

pub ref_version-Held :
    (holders : List ℕ) (v : ℕ) (s : VersionSet)
    → Held holders s
    → Held (v ∷ holders) (ref_version v s)
unfolding ref_version change count
ref_version-Held holders v s h = record {
  counted = λ w. let before = h.counted w in ground (arith, before);
}

pub unref_version-Held :
    (v : ℕ) (xs ys : List ℕ) (s : VersionSet)
    → Held (xs ++ (v ∷ ys)) s
    → Held (xs ++ ys) (unref_version v s)
unfolding count
unref_version-Held v xs ys s h = record {
  counted = λ w.
      let before = h.counted w in
      rw (current-unref_version v s, refs-unref_version v s w)
        (ground (arith, before, count-append w xs (v ∷ ys), count-append w xs ys));
}

module _ (owners : ℕ → ℕ) (holders : List ℕ) (v : ℕ) (l0_files : List ℕ) (s : VersionSet)
    (h : Counted (λ f. count f l0_files + owners f) s) (held_by : Held holders s)
    (unused : s.version_refs v ≡ 0) (older : v < s.next_version) where
  append_version-Counted : Counted owners (append_version v l0_files s)
  unfolding append_version ref_version change held listed
  append_version-Counted =
      let s' = unref_current s.current s in
      let h' = unref_current-Counted _ s.current s h (current_alive holders s held_by) in
      let none_left : s'.version_refs v ≡ 0 =
        omega (arith, refs-unref_current s.current s v, unused) in
      let next = next_version-unref_current s.current s in
      record {
        files = λ f. let before = h'.files f in omega (arith, before);
        linked = λ w. let before = h'.linked w in ground (arith, before, none_left);
        unused = λ w le.
            let before = h'.unused w (omega (arith, le)) in ground (arith, before, none_left);
        none_removed = h'.none_removed;
      }

  append_version-Held : Held holders (append_version v l0_files s)
  unfolding append_version ref_version change
  append_version-Held = record {
    counted = λ w.
        let before = held_by.counted w in
        let after = refs-unref_current s.current s w in ground (arith, before, after);
  }

eq_of_test : (x y : ℕ) → (x == y) ≡ true → x ≡ y
eq_of_test x y e = ground arith

pub count-kept_files :
    (f : ℕ) (deleted fs : List ℕ)
    → count f (kept_files deleted fs) ≡ (if is_member f deleted then 0 else count f fs)
unfolding count kept_files
count-kept_files f deleted [] = ground arith
count-kept_files f deleted (g ∷ gs) = elim (Bool-cases (g == f)) [
  | inl e ↦ rw (eq_of_test g f e) (ground (arith, count-kept_files f deleted gs))
  | inr e ↦ ground (arith, count-kept_files f deleted gs)
]

pub count-files_of :
    (f v : ℕ) (versions : List (ℕ × List ℕ)) → count f (files_of v versions) ≤ held f versions
unfolding count files_of held
count-files_of f v [] = omega arith
count-files_of f v ((w, fs) ∷ versions) = ground (arith, count-files_of f v versions)

count-current_files :
    (f : ℕ) (o : Option ℕ) (versions : List (ℕ × List ℕ))
    → count f (current_files o versions) ≤ held f versions
unfolding count
count-current_files f none versions = omega arith
count-current_files f (some v) versions = count-files_of f v versions

module _ (owners : ℕ → ℕ) (holders : List ℕ) (edit : VersionEdit) (s : VersionSet)
    (h : Counted owners s) (held_by : Held holders s)
    (exist : (f : ℕ) → 0 < count f edit.new_files → 0 < s.files.refs f) where
  abbrev pub old_files : List ℕ
  old_files = kept_files edit.deleted_files (current_files s.current s.versions)

  abbrev pub new_files : List ℕ
  new_files = kept_files edit.deleted_files edit.new_files

  abbrev pub referred : VersionSet
  referred = record s {
    files = ref_files new_files (ref_files old_files s.files);
    next_version = s.next_version + 1;
  }

  refs-referred :
      (f : ℕ) → referred.files.refs f ≡ s.files.refs f + count f old_files + count f new_files
  refs-referred f = omega (
    arith,
    refs-ref_files f new_files (ref_files old_files s.files),
    refs-ref_files f old_files s.files,
  )

  referred-NoneRemoved : NoneRemoved referred.files
  referred-NoneRemoved = record {
    kept = λ f lives.
        let now = refs-referred f in
        let old = count-kept_files f edit.deleted_files (current_files s.current s.versions) in
        let new = count-kept_files f edit.deleted_files edit.new_files in
        let bound = count-current_files f s.current s.versions in
        let before = h.files f in
        let there = exist f in
        let alive : 0 < s.files.refs f =
          ground (arith, now, old, new, bound, before, there, lives) in
        ap (count f) (
          removed-ref_files new_files (ref_files old_files s.files)
          ∙ removed-ref_files old_files s.files)
        ∙ h.none_removed.kept f alive;
  }

  pub referred-Counted :
      Counted (λ f. count f (sort_newest (old_files ++ new_files)) + owners f) referred
  referred-Counted = record {
    files = λ f. omega (
      arith,
      refs-referred f,
      h.files f,
      count-sort_newest f (old_files ++ new_files),
      count-append f old_files new_files,
    );
    linked = h.linked;
    unused = λ w le. h.unused w (omega (arith, le));
    none_removed = referred-NoneRemoved;
  }

  pub log_and_apply-Counted : Counted owners (log_and_apply edit s)
  unfolding log_and_apply
  log_and_apply-Counted =
      append_version-Counted owners holders s.next_version (sort_newest (old_files ++ new_files))
        referred referred-Counted (record { counted = held_by.counted })
        (h.unused s.next_version (omega arith)) (omega arith)

  pub log_and_apply-Held : Held holders (log_and_apply edit s)
  unfolding log_and_apply
  log_and_apply-Held =
      append_version-Held owners holders s.next_version (sort_newest (old_files ++ new_files))
        referred referred-Counted (record { counted = held_by.counted })
        (h.unused s.next_version (omega arith)) (omega arith)
