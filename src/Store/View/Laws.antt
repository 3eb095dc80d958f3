-- ===== src/Store/View/Laws.antt =====
-- A read view answers as if all its deltas were one: skipping files by their commit range loses no
-- version.
use rich_graph.Base.{
  ℕ, suc, ◌+◌, ◌≤◌, ◌<◌, true, false, Option, none, some, List, [], ◌∷◌, ◌++◌, length, ◌≡◌, refl,
  sym, ap, ◌∙◌, arith, ltb, inl, inr, ap₂, Bool-cases, Option-cases, ◌↔◌,
}
use rich_graph.Delta.{PropertyDeltaRecord, LogicalKey}
use rich_graph.Delta.File.{PropertyDeltaFile}
use rich_graph.Delta.Newest.{pick, newest}
use rich_graph.Delta.Ranks.{◌!◌}
use rich_graph.Delta.Search.{answer, Holds, lookup-newest, early_none}
use rich_graph.Store.View.{
  PropertyDeltaReadView, LookupCounters, Search, not_better, improve, probe, probe_all, view_lookup,
}

abbrev better : Option PropertyDeltaRecord → Option PropertyDeltaRecord → Option PropertyDeltaRecord
better none b = b
better (some x) none = some x
better (some x) (some y) = elim (ltb y.commit_sequence x.commit_sequence) [
  | true ↦ some x
  | false ↦ some y
]

module _ (k : LogicalKey) (read : ℕ) where
  pick-better :
      (x : PropertyDeltaRecord) (a b : Option PropertyDeltaRecord)
      → pick k read x (better a b) ≡ better (pick k read x a) b
  unfolding pick
  pick-better x none none = ground arith
  pick-better x none (some z) = ground arith
  pick-better x (some y) none = ground arith
  pick-better x (some y) (some z) = ground arith

  pub newest-append :
      (xs ys : List PropertyDeltaRecord)
      → newest k read (xs ++ ys) ≡ better (newest k read xs) (newest k read ys)
  unfolding newest
  newest-append [] ys = refl
  newest-append (x ∷ xs) ys =
      ap (pick k read x) (newest-append xs ys) ∙ pick-better x (newest k read xs) (newest k read ys)

  newest_bounded :
      (rs : List PropertyDeltaRecord) (m : ℕ) (r : PropertyDeltaRecord)
      → ((i : ℕ) → i < length rs → (rs ! i).commit_sequence ≤ m)
      → newest k read rs ≡ some r
      → r.commit_sequence ≤ m
  unfolding newest pick
  newest_bounded [] m r h e = cc
  newest_bounded (x ∷ xs) m r h e =
      let head_le = h 0 (omega arith) in
      elim (Option-cases (newest k read xs)) [
        | inl n ↦ ground arith
        | inr (y, n) ↦
            let tail_le = newest_bounded xs m y (λ i b. h (suc i) (omega arith)) n in ground arith
      ]

  improve-better :
      (a b : Option PropertyDeltaRecord) → improve (answer a) (answer b) ≡ answer (better a b)
  improve-better none b = refl
  improve-better (some x) none = refl
  improve-better (some x) (some y) = ground arith

  beaten :
      (file : PropertyDeltaFile) (rs : List PropertyDeltaRecord) (n o : Option PropertyDeltaRecord)
      → Holds file rs
      → newest k read rs ≡ n
      → not_better (answer o) file.metadata.max_commit_sequence ≡ true
      → better n o ≡ o
  beaten file rs none o holds e h = refl
  beaten file rs (some r) none holds e h = cc
  beaten file rs (some r) (some y) holds e h =
      let bound = newest_bounded rs file.metadata.max_commit_sequence r holds.greatest e in
      ground (arith, bound)

  -- A file that is skipped has no version that could win.
  probe-best :
      (file : PropertyDeltaFile) (rs : List PropertyDeltaRecord) (s : Search)
      (o : Option PropertyDeltaRecord)
      → Holds file rs
      → s.best ≡ answer o
      → (probe k read file s).best ≡ answer (better (newest k read rs) o)
  unfolding probe
  probe-best file rs s o holds e = elim (Bool-cases (ltb read file.metadata.min_commit_sequence)) [
    | inl m ↦ simp (m, early_none file rs holds k read m) e
    | inr m ↦ elim (Bool-cases (not_better s.best file.metadata.max_commit_sequence)) [
      | inl b ↦
          simp (m, b)
            (e ∙ ap answer (sym (beaten file rs (newest k read rs) o holds refl (rw (← e) b))))
      | inr b ↦
          simp (m, b)
            (ap₂ improve (lookup-newest file rs holds k read) e
              ∙ improve-better (newest k read rs) o)
    ]
  ]

-- Each file of the list holds the list of records beside it.
pub data AllHold : List PropertyDeltaFile → List (List PropertyDeltaRecord) → Type 0 where
  nil : AllHold [] []
  cons :
      {file : PropertyDeltaFile} {rs : List PropertyDeltaRecord} {files : List PropertyDeltaFile}
      {rss : List (List PropertyDeltaRecord)}
      → Holds file rs
      → AllHold files rss
      → AllHold (file ∷ files) (rs ∷ rss)

abbrev pub all_records : List (List PropertyDeltaRecord) → List PropertyDeltaRecord
all_records [] = []
all_records (rs ∷ rss) = rs ++ all_records rss

module _ (k : LogicalKey) (read : ℕ) where
  probe_all-best :
      {files : List PropertyDeltaFile} {rss : List (List PropertyDeltaRecord)}
      → AllHold files rss
      → (probe_all k read files (record { best = none; probed = 0 })).best
        ≡ answer (newest k read (all_records rss))
  unfolding probe_all newest
  probe_all-best nil = refl
  probe_all-best (cons {file = f} {rs = rs} {files = fs} {rss = rss} holds rest) =
      probe-best k read f rs (probe_all k read fs (record { best = none; probed = 0 }))
        (newest k read (all_records rss)) holds (probe_all-best rest)
      ∙ ap answer (sym (newest-append k read rs (all_records rss)))

  -- When each file of a view holds a list of records, a lookup through the view answers with the
  -- newest visible version among all of them, though it skips files by their commit range.
  pub view_lookup-newest :
      (view : PropertyDeltaReadView) (rss : List (List PropertyDeltaRecord))
      (counters : LookupCounters)
      → AllHold view.deltas rss
      → (view_lookup view k read counters).0 ≡ answer (newest k read (all_records rss))
  unfolding view_lookup
  view_lookup-newest view rss counters h = probe_all-best h

  probed-le :
      (files : List PropertyDeltaFile) (s : Search)
      → (probe_all k read files s).probed ≤ s.probed + length files
  unfolding probe_all probe
  probed-le [] s = omega arith
  probed-le (f ∷ fs) s = ground (arith, probed-le fs s)

  -- Each lookup through a view counts one lookup, one hit or one fallback according to what it
  -- found, and no more files than the view has.
  pub view_lookup_counts :
      (view : PropertyDeltaReadView) (counters : LookupCounters)
      → let (found, after) = view_lookup view k read counters in
        (after.lookups ≡ counters.lookups + 1)
        × (after.hits + after.base_fallbacks ≡ counters.hits + counters.base_fallbacks + 1)
        × (after.files_probed ≤ counters.files_probed + length view.deltas)
        × ((found ≡ none) ↔ (after.hits ≡ counters.hits))
  unfolding view_lookup
  view_lookup_counts view counters =
      ground (arith, probed-le view.deltas (record { best = none; probed = 0 }))
