-- ===== src/Delta/Search.antt =====
-- PropertyDeltaFile::Lookup against the specification in Newest: the two binary searches find the
-- newest visible version of the key.
use rich_graph.Base.{
  ℕ, zero, suc, ◌-◌, ◌≤◌, ◌<◌, true, false, List, [], ◌∷◌, ◌≡◌, refl, sym, subst, ◌∙◌, length, ap,
  arith, ltb, leb, ◌==◌, ◌&&◌, ◌||◌, inl, inr, Bool-cases, is_lt, is_eq, Option, none, some,
}
use rich_graph.Delta.{PropertyDeltaRecord, LogicalKey, DeltaDiskRecord}
use rich_graph.Delta.Order.{compare_disk_logical_key, compare_disk_logical_key-lex}
use rich_graph.Delta.Build.{disk_record}
use rich_graph.Delta.Image.{load_disk_record}
use rich_graph.Delta.File.{
  PropertyDeltaFile, selected_value, bisect, before_key, before_version, select, lookup_from,
  lookup,
}
use rich_graph.Delta.Sorted.{IsSorted}
use rich_graph.Delta.Newest.{is_visible, pick, newest}
use rich_graph.Delta.Bisect.{Splits, Falls, bisect-Splits}
use rich_graph.Delta.Ranks.{
  ◌!◌, rank, not_newer, IsSorted-at, is_visible-rank, rank-lt, rank-le, rank-commit,
  not_newer_falls,
}

module _ (k : LogicalKey) (read : ℕ) where
  newest-none :
      (rs : List PropertyDeltaRecord)
      → ((j : ℕ) → j < length rs → is_visible k read (rs ! j) ≡ false)
      → newest k read rs ≡ none
  unfolding newest pick
  newest-none [] h = refl
  newest-none (x ∷ xs) h = rw (newest-none xs (λ j b. h (suc j) (omega arith)), h 0 (omega arith))

  newest_at :
      (rs : List PropertyDeltaRecord) (i : ℕ)
      → i < length rs
      → is_visible k read (rs ! i) ≡ true
      → ((j : ℕ) → i < j → j < length rs → is_visible k read (rs ! j) ≡ false)
      → ((j : ℕ)
          → j < i
          → is_visible k read (rs ! j) ≡ true
          → (rs ! j).commit_sequence ≤ (rs ! i).commit_sequence)
      → newest k read rs ≡ some (rs ! i)
  unfolding newest pick
  newest_at [] i b v above below = absurd (omega arith)
  newest_at (x ∷ xs) zero b v above below =
      rw (newest-none xs (λ j c. above (suc j) (omega arith) (omega arith)), v)
  newest_at (x ∷ xs) (suc i) b v above below =
      let ih =
        newest_at xs i (omega arith) v (λ j c d. above (suc j) (omega arith) (omega arith))
          (λ j c d. below (suc j) (omega arith) d) in
      rw ih (ground (arith, below 0 (omega arith)))

-- The file holds the records `rs`, in this order.
pub record Holds (file : PropertyDeltaFile) (rs : List PropertyDeltaRecord) : Type 0 where
  pub offset : ℕ → ℕ
  pub count : file.metadata.record_count ≡ length rs
  pub loads :
      (i : ℕ)
      → i < length rs
      → load_disk_record file.mapping file.records_offset i ≡ disk_record (rs ! i) (offset i)
  pub reads :
      (i : ℕ)
      → i < length rs
      → selected_value file (disk_record (rs ! i) (offset i))
        ≡ some ((rs ! i).value, (rs ! i).commit_sequence)
  pub least : (i : ℕ) → i < length rs → file.metadata.min_commit_sequence ≤ (rs ! i).commit_sequence
  pub greatest :
      (i : ℕ) → i < length rs → (rs ! i).commit_sequence ≤ file.metadata.max_commit_sequence
  pub sorted : IsSorted rs

-- What a lookup hands out of the record found.
abbrev pub answer : Option PropertyDeltaRecord → Option (List ℕ × ℕ)
answer none = none
answer (some r) = some (r.value, r.commit_sequence)

module _ (file : PropertyDeltaFile) (rs : List PropertyDeltaRecord) (holds : Holds file rs)
    (k : LogicalKey) (read : ℕ) where
  compare-rank :
      (i : ℕ)
      → i < length rs
      → compare_disk_logical_key (load_disk_record file.mapping file.records_offset i) k
        ≡ rank k (rs ! i)
  compare-rank i h =
      rw (holds.loads i h) (compare_disk_logical_key-lex (disk_record (rs ! i) (holds.offset i)) k)

  before_key-rank : (i : ℕ) → i < length rs → before_key file k read i ≡ is_lt (rank k (rs ! i))
  before_key-rank i h = ap is_lt (compare-rank i h)

  before_version-rank :
      (i : ℕ) → i < length rs → before_version file k read i ≡ not_newer k read (rs ! i)
  before_version-rank i h = rw (compare-rank i h) (
      ap
        (λ (d : DeltaDiskRecord).
          is_lt (rank k (rs ! i)) || (is_eq (rank k (rs ! i)) && leb d.commit_sequence read))
        (holds.loads i h))

  before_key-Falls : Falls (before_key file k read) 0 (length rs)
  before_key-Falls i j a b c t =
      let t' = sym (before_key-rank j c) ∙ t in
      before_key-rank i (omega arith)
      ∙ rank-lt k (rs ! i) (rs ! j) (IsSorted-at rs i j holds.sorted b c) t'

  before_version-Falls : (first : ℕ) → Falls (before_version file k read) first (length rs)
  before_version-Falls first i j a b c t =
      let t' = sym (before_version-rank j c) ∙ t in
      before_version-rank i (omega arith)
      ∙ not_newer_falls k (rs ! i) (rs ! j) (IsSorted-at rs i j holds.sorted b c) read t'

  module _ (first : ℕ) (starts : Splits (before_key file k read) 0 (length rs) first) where
    below_first : (i : ℕ) → i < first → is_visible k read (rs ! i) ≡ false
    below_first i h = ground (
      arith,
      starts.within,
      sym (before_key-rank i (omega (arith, starts.within))) ∙ starts.passes i (omega arith) h,
      is_visible-rank k read (rs ! i),
    )

    from_first : (i : ℕ) → first ≤ i → i < length rs → is_lt (rank k (rs ! i)) ≡ false
    from_first i h b = sym (before_key-rank i b) ∙ starts.fails i h b

    -- If the first candidate has another key, then no record has the key.
    key_absent :
        first < length rs
        → is_eq (rank k (rs ! first)) ≡ false
        → (j : ℕ) → j < length rs
        → is_visible k read (rs ! j) ≡ false
    key_absent b e j c = elim (Bool-cases (ltb j first)) [
      | inl l ↦ below_first j (ground arith)
      | inr l ↦ ground (
        arith,
        from_first first (omega arith) b,
        is_visible-rank k read (rs ! j),
        rank-le k (rs ! first) (rs ! j) (IsSorted-at rs first j holds.sorted (ground arith) c),
      )
    ]

    module _ (last : ℕ) (ends : Splits (before_version file k read) first (length rs) last) where
      from_last : (j : ℕ) → last ≤ j → j < length rs → is_visible k read (rs ! j) ≡ false
      from_last j h b =
          ground (
            arith,
            sym (before_version-rank j b) ∙ ends.fails j h b,
            is_visible-rank k read (rs ! j),
          )

      none_visible : last ≡ first → (j : ℕ) → j < length rs → is_visible k read (rs ! j) ≡ false
      none_visible e j b = elim (Bool-cases (ltb j first)) [
        | inl l ↦ below_first j (ground arith)
        | inr l ↦ from_last j (ground arith) b
      ]

      module _ (found : first < last) where
        chosen_inside : last - 1 < length rs
        chosen_inside = omega (arith, ends.within)

        chosen_not_newer : not_newer k read (rs ! (last - 1)) ≡ true
        chosen_not_newer =
            sym (before_version-rank (last - 1) chosen_inside)
            ∙ ends.passes (last - 1) (omega arith) (omega arith)

        chosen_visible : is_visible k read (rs ! (last - 1)) ≡ true
        chosen_visible = ground (
          arith,
          chosen_not_newer,
          is_visible-rank k read (rs ! (last - 1)),
          from_first (last - 1) (omega arith) chosen_inside,
        )

        earlier_older :
            (j : ℕ)
            → j < last - 1
            → is_visible k read (rs ! j) ≡ true
            → (rs ! j).commit_sequence ≤ (rs ! (last - 1)).commit_sequence
        earlier_older j h v = ground (
          arith,
          chosen_visible,
          is_visible-rank k read (rs ! (last - 1)),
          is_visible-rank k read (rs ! j),
          rank-commit k (rs ! j) (rs ! (last - 1))
              (IsSorted-at rs j (last - 1) holds.sorted (omega arith) chosen_inside),
        )

        newest_chosen : newest k read rs ≡ some (rs ! (last - 1))
        newest_chosen =
            newest_at k read rs (last - 1) chosen_inside chosen_visible
              (λ j b c. from_last j (omega arith) c) earlier_older

        select-newest : select file k read last ≡ answer (newest k read rs)
        select-newest = rw newest_chosen (
            ground (
              arith,
              compare-rank (last - 1) chosen_inside,
              chosen_visible,
              is_visible-rank k read (rs ! (last - 1)),
              holds.loads (last - 1) chosen_inside,
              holds.reads (last - 1) chosen_inside,
            ))

    lookup_from-newest : lookup_from file k read first ≡ answer (newest k read rs)
    lookup_from-newest =
        let n = length rs in
        let last = bisect (n - first) (before_version file k read) first n in
        let ends =
          bisect-Splits (before_version file k read) (n - first) first n
            (before_version-Falls first) starts.within (omega arith) in
        rw holds.count (elim (Bool-cases (first == n)) [
          | inl e ↦ rw (e, newest-none k read rs (λ j b. below_first j (ground arith)))
          | inr e ↦
              let b : first < n = ground (arith, starts.within) in
              elim (Bool-cases (is_eq (rank k (rs ! first)))) [
                | inr o ↦ rw (e, compare-rank first b, o, newest-none k read rs (key_absent b o))
                | inl o ↦ elim (Bool-cases (last == first)) [
                  | inl l ↦ rw (
                    e,
                    compare-rank first b,
                    o,
                    l,
                    newest-none k read rs (none_visible last ends (ground arith)),
                  )
                  | inr l ↦
                      rw (e, compare-rank first b, o, l)
                        (select-newest last ends (ground (arith, ends.above)))
                ]
              ]
        ])

  pub early_none : ltb read file.metadata.min_commit_sequence ≡ true → newest k read rs ≡ none
  early_none e =
      newest-none k read rs λ j b. ground (arith, holds.least j b, is_visible-rank k read (rs ! j))

  first_Splits :
      let count = file.metadata.record_count in
      Splits (before_key file k read) 0 (length rs) (bisect count (before_key file k read) 0 count)
  first_Splits =
      subst
        (λ m. Splits (before_key file k read) 0 (length rs) (bisect m (before_key file k read) 0 m))
        (sym holds.count)
        (bisect-Splits (before_key file k read) (length rs) 0 (length rs) before_key-Falls
          (omega arith) (omega arith))

  -- On a file that holds a sorted list of records, Lookup answers with the newest version of the
  -- key that the read sequence admits.
  pub lookup-newest : lookup file k read ≡ answer (newest k read rs)
  unfolding lookup
  lookup-newest = elim (Bool-cases (file.metadata.record_count == 0)) [
    | inl e ↦ rw (e, newest-none k read rs (λ j b. absurd (ground (arith, holds.count))))
    | inr e ↦ elim (Bool-cases (ltb read file.metadata.min_commit_sequence)) [
      | inl m ↦ rw (e, m, early_none m)
      | inr m ↦ rw (e, m) (lookup_from-newest _ first_Splits)
    ]
  ]
