-- ===== src/Versions/Unref.antt =====
-- src/version_set.cpp: the reference counts of the files against the versions that hold them.
use rich_graph.Base.{
  ℕ, ◌+◌, ◌-◌, ◌≤◌, ◌<◌, ◌==◌, ltb, ◌≡◌, refl, arith, if◌then◌else◌, Bool-cases, inl, inr,
}
use rich_graph.Versions.{VersionSet, change, files_of, ref_version, unref_version}
use rich_graph.Versions.Counts.{
  held, listed, refs-unref_files, NoneRemoved, unref_files-NoneRemoved, listed-delete_version,
  held-delete_version,
}

-- A file has a reference for each version that it stands in, and those of its owners outside. A
-- version is in the list once while it has references, and addresses from the next one on have none.
pub record Counted (owners : ℕ → ℕ) (s : VersionSet) : Type 0 where
  pub files : (f : ℕ) → s.files.refs f ≡ held f s.versions + owners f
  pub linked : (v : ℕ) → listed v s.versions ≡ (if s.version_refs v == 0 then 0 else 1)
  pub unused : (v : ℕ) → s.next_version ≤ v → s.version_refs v ≡ 0
  pub none_removed : NoneRemoved s.files

module _ (owners : ℕ → ℕ) (v : ℕ) (s : VersionSet) (h : Counted owners s)
    (alive : 0 < s.version_refs v) where
  pub ref_version-Counted : Counted owners (ref_version v s)
  unfolding ref_version change
  ref_version-Counted = record {
    files = h.files;
    linked = λ w. let before = h.linked w in ground (arith, before);
    unused = λ w le. let before = h.unused w le in ground (arith, before);
    none_removed = h.none_removed;
  }

  pub unref_version-Counted : Counted owners (unref_version v s)
  unfolding unref_version change
  unref_version-Counted = elim (Bool-cases (ltb 1 (s.version_refs v))) [
    | inl e ↦ rw e (record {
      files = h.files;
      linked = λ w. let before = h.linked w in ground (arith, before);
      unused = λ w le. let before = h.unused w le in ground (arith, before);
      none_removed = h.none_removed;
    })
    | inr e ↦ rw e (record {
      files = λ f.
          let before = h.files f in
          omega (
            arith,
            before,
            refs-unref_files f (files_of v s.versions) s.files,
            held-delete_version v f s.versions,
          );
      linked = λ w.
          let before = h.linked w in ground (arith, before, listed-delete_version v w s.versions);
      unused = λ w le. let before = h.unused w le in ground (arith, before);
      none_removed = unref_files-NoneRemoved (files_of v s.versions) s.files h.none_removed;
    })
  ]

-- What the counts of the versions become.
module _ (v : ℕ) (s : VersionSet) where
  pub refs-unref_version :
      (w : ℕ) → (unref_version v s).version_refs w ≡ s.version_refs w - (if v == w then 1 else 0)
  unfolding unref_version change
  refs-unref_version w = elim (Bool-cases (ltb 1 (s.version_refs v))) [
    | inl e ↦ rw e (ground arith)
    | inr e ↦ rw e (ground arith)
  ]

  pub refs-ref_version :
      (w : ℕ) → (ref_version v s).version_refs w ≡ s.version_refs w + (if v == w then 1 else 0)
  unfolding ref_version change
  refs-ref_version w = ground arith

  pub next_version-unref_version : (unref_version v s).next_version ≡ s.next_version
  unfolding unref_version
  next_version-unref_version = elim (Bool-cases (ltb 1 (s.version_refs v))) [
    | inl e ↦ rw e refl
    | inr e ↦ rw e refl
  ]

  pub current-unref_version : (unref_version v s).current ≡ s.current
  unfolding unref_version
  current-unref_version = elim (Bool-cases (ltb 1 (s.version_refs v))) [
    | inl e ↦ rw e refl
    | inr e ↦ rw e refl
  ]
