-- ===== src/Compaction/Overlap.antt =====
-- src/compaction.cpp: what GetOverlappingInputs selects.
use rich_graph.Base.{
  ℕ, zero, suc, ◌+◌, ◌*◌, ◌≤◌, ◌<◌, Bool, true, false, Option, none, some, List, [], ◌∷◌, ◌++◌, All,
  length, ltb, not, ◌&&◌, if◌then◌else◌, ◌≡◌, refl, sym, ap, ◌∙◌, subst, arith, Bool-cases, inl,
  inr, append_assoc, append-nil,
}
use rich_graph.Compaction.{
  SstFile, Scan, done, restart, scan, after_scan, overlapping_from, files_or_none,
  get_overlapping_inputs,
}

abbrev pub overlaps : ℕ → ℕ → SstFile → Bool
overlaps from to f = not (ltb f.max_key from) && not (ltb to f.min_key)

-- The files of a level that overlap a range.
abbrev pub overlapping : ℕ → ℕ → List SstFile → List SstFile
overlapping from to [] = []
overlapping from to (f ∷ fs) =
    let rest = overlapping from to fs in if overlaps from to f then f ∷ rest else rest

-- How many bounds of the files lie outside a range.
unfoldable pub outside : ℕ → ℕ → List SstFile → ℕ
outside from to [] = 0
outside from to (f ∷ fs) =
    (if ltb f.min_key from then 1 else 0)
    + ((if ltb to f.max_key then 1 else 0) + outside from to fs)

outside-le : (from to : ℕ) (fs : List SstFile) → outside from to fs ≤ 2 * length fs
unfolding outside
outside-le from to [] = omega arith
outside-le from to (f ∷ fs) = ground (arith, outside-le from to fs)

outside_wider :
    (from to from' to' : ℕ) (fs : List SstFile)
    → from' ≤ from
    → to ≤ to'
    → outside from' to' fs ≤ outside from to fs
unfolding outside
outside_wider from to from' to' [] a b = omega arith
outside_wider from to from' to' (f ∷ fs) a b =
    ground (arith, outside_wider from to from' to' fs a b)

abbrev pub Within : ℕ → ℕ → SstFile → Type 0
Within from to f = (from ≤ f.min_key) × (f.max_key ≤ to)

-- What a scan of level 0 says of the files that it has seen.
abbrev ScanResult : List SstFile → ℕ → ℕ → List SstFile → Scan → Type 0
ScanResult fs from to inputs (done result) =
    (result ≡ inputs ++ overlapping from to fs) × All (Within from to) (overlapping from to fs)
ScanResult fs from to inputs (restart from' to') =
    (from' ≤ from) × (to ≤ to') × (outside from' to' fs < outside from to fs)

skipped-ScanResult :
    (f : SstFile) (fs : List SstFile) (from to : ℕ) (inputs : List SstFile) (r : Scan)
    → overlaps from to f ≡ false
    → ScanResult fs from to inputs r
    → ScanResult (f ∷ fs) from to inputs r
unfolding outside
skipped-ScanResult f fs from to inputs (done result) miss h = rw miss h
skipped-ScanResult f fs from to inputs (restart from' to') miss (a, b, c) =
    (a, b, ground (arith, a, b, c))

taken-ScanResult :
    (f : SstFile) (fs : List SstFile) (from to : ℕ) (inputs : List SstFile) (r : Scan)
    → overlaps from to f ≡ true
    → Within from to f
    → ScanResult fs from to (inputs ++ (f ∷ [])) r
    → ScanResult (f ∷ fs) from to inputs r
unfolding outside
taken-ScanResult f fs from to inputs (done result) hit within (same, rest) =
    rw hit (same ∙ append_assoc inputs (f ∷ []) (overlapping from to fs), (within, rest))
taken-ScanResult f fs from to inputs (restart from' to') hit within (a, b, c) =
    (a, b, ground (arith, a, b, c))

lower-ScanResult :
    (f : SstFile) (fs : List SstFile) (from to : ℕ) (inputs : List SstFile)
    → ltb f.min_key from ≡ true
    → ScanResult (f ∷ fs) from to inputs (restart f.min_key to)
unfolding outside
lower-ScanResult f fs from to inputs less =
    let le : f.min_key ≤ from = ground (arith, less) in
    let rest = outside_wider from to f.min_key to fs le (omega arith) in
    (le, omega arith, ground (arith, less, rest))

upper-ScanResult :
    (f : SstFile) (fs : List SstFile) (from to : ℕ) (inputs : List SstFile)
    → ltb to f.max_key ≡ true
    → ScanResult (f ∷ fs) from to inputs (restart from f.max_key)
unfolding outside
upper-ScanResult f fs from to inputs more =
    let le : to ≤ f.max_key = ground (arith, more) in
    let rest = outside_wider from to from f.max_key fs (omega arith) le in
    (omega arith, le, ground (arith, more, rest))

scan-ScanResult :
    (fs : List SstFile) (from to : ℕ) (inputs : List SstFile)
    → ScanResult fs from to inputs (scan true fs from to inputs)
unfolding scan
scan-ScanResult [] from to inputs = (sym (append-nil inputs), tt)
scan-ScanResult (f ∷ fs) from to inputs = elim (Bool-cases (ltb f.max_key from)) [
  | inl e ↦ rw e (
      skipped-ScanResult f fs from to inputs _ (ground (arith, e))
        (scan-ScanResult fs from to inputs))
  | inr e ↦ elim (Bool-cases (ltb to f.min_key)) [
    | inl g ↦
        rw (e, g)
          (skipped-ScanResult f fs from to inputs _ (ground (arith, g))
            (scan-ScanResult fs from to inputs))
    | inr g ↦ elim (Bool-cases (ltb f.min_key from)) [
      | inl less ↦ rw (e, g, less) (lower-ScanResult f fs from to inputs less)
      | inr least ↦ elim (Bool-cases (ltb to f.max_key)) [
        | inl more ↦ rw (e, g, least, more) (upper-ScanResult f fs from to inputs more)
        | inr most ↦
            rw (e, g, least, most)
              (taken-ScanResult f fs from to inputs _ (ground (arith, e, g))
                (ground (arith, least), ground (arith, most))
                (scan-ScanResult fs from to (inputs ++ (f ∷ []))))
      ]
    ]
  ]
]

-- The files that are found for a range: those that overlap some wider one, and they lie in it.
abbrev pub Closed : List SstFile → ℕ → ℕ → List SstFile → Type 0
Closed files from to inputs =
    (from' : ℕ) × ((to' : ℕ) × ((from' ≤ from)
        × (to ≤ to')
        × (inputs ≡ overlapping from' to' files)
        × All (Within from' to') inputs))

abbrev ClosedResult : List SstFile → ℕ → ℕ → Option (List SstFile) → Type 0
ClosedResult files from to none = ⊥
ClosedResult files from to (some inputs) = Closed files from to inputs

wider-ClosedResult :
    (files : List SstFile) (from to from' to' : ℕ) (o : Option (List SstFile))
    → from' ≤ from
    → to ≤ to'
    → ClosedResult files from' to' o
    → ClosedResult files from to o
wider-ClosedResult files from to from' to' none a b h = h
wider-ClosedResult files from to from' to' (some inputs) a b (x, (y, (c, d, same, within))) =
    (x, (y, (omega (arith, a, c), omega (arith, b, d), same, within)))

after_scan-ClosedResult :
    (files : List SstFile) (from to : ℕ) (next : ℕ → ℕ → Option (List SstFile)) (r : Scan)
    → ((from' to' : ℕ)
        → outside from' to' files < outside from to files
        → ClosedResult files from' to' (next from' to'))
    → ScanResult files from to [] r
    → ClosedResult files from to (after_scan r next)
after_scan-ClosedResult files from to next (done result) h (same, within) =
    (from, (to, (omega arith, omega arith, same, subst (All (Within from to)) (sym same) within)))
after_scan-ClosedResult files from to next (restart from' to') h (a, b, c) =
    wider-ClosedResult files from to from' to' _ a b (h from' to' c)

overlapping_from-ClosedResult :
    (fuel : ℕ) (files : List SstFile) (from to : ℕ)
    → outside from to files < fuel
    → ClosedResult files from to (overlapping_from fuel true files from to)
unfolding overlapping_from
overlapping_from-ClosedResult zero files from to h = absurd (omega arith)
overlapping_from-ClosedResult (suc fuel) files from to h =
    after_scan-ClosedResult files from to _ (scan true files from to [])
      (λ from' to' less.
        overlapping_from-ClosedResult fuel files from' to' (omega (arith, less, h)))
      (scan-ScanResult files from to [])

files_or_none-Closed :
    (files : List SstFile) (from to : ℕ) (o : Option (List SstFile))
    → ClosedResult files from to o
    → Closed files from to (files_or_none o)
files_or_none-Closed files from to none h = absurd h
files_or_none-Closed files from to (some inputs) h = h

-- The files that GetOverlappingInputs selects on level 0 are, in their order, all files of the
-- level that overlap some range around the one asked for, and their keys lie in that range: no
-- file of the level that is left out overlaps a selected one or the range asked for.
pub get_overlapping_inputs-Closed :
    (files : List SstFile) (from to : ℕ)
    → Closed files from to (get_overlapping_inputs true files from to)
unfolding get_overlapping_inputs
get_overlapping_inputs-Closed files from to = files_or_none-Closed files from to _ (
    overlapping_from-ClosedResult (2 * length files + 1) files from to
      (omega (arith, outside-le from to files)))

scan_below :
    (fs : List SstFile) (from to : ℕ) (inputs : List SstFile)
    → scan false fs from to inputs ≡ done (inputs ++ overlapping from to fs)
unfolding scan
scan_below [] from to inputs = ap done (sym (append-nil inputs))
scan_below (f ∷ fs) from to inputs = elim (Bool-cases (ltb f.max_key from)) [
  | inl e ↦ rw e (scan_below fs from to inputs)
  | inr e ↦ elim (Bool-cases (ltb to f.min_key)) [
    | inl g ↦ rw (e, g) (scan_below fs from to inputs)
    | inr g ↦
        rw (e, g)
          (scan_below fs from to (inputs ++ (f ∷ []))
            ∙ ap done (append_assoc inputs (f ∷ []) (overlapping from to fs)))
  ]
]

overlapping_from_below :
    (fuel : ℕ) (files : List SstFile) (from to : ℕ)
    → 0 < fuel
    → overlapping_from fuel false files from to ≡ some (overlapping from to files)
unfolding overlapping_from
overlapping_from_below zero files from to h = absurd (omega arith)
overlapping_from_below (suc fuel) files from to h = rw (scan_below files from to []) refl

-- Below level 0 they are the files that overlap the range asked for.
pub get_overlapping_inputs_below :
    (files : List SstFile) (from to : ℕ)
    → get_overlapping_inputs false files from to ≡ overlapping from to files
unfolding get_overlapping_inputs
get_overlapping_inputs_below files from to =
    ap files_or_none (overlapping_from_below (2 * length files + 1) files from to (omega arith))
