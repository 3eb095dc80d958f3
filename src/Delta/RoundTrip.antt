-- ===== src/Delta/RoundTrip.antt =====
-- PropertyDeltaFile::Create and Open together: what is submitted is what a lookup finds, and the
-- file appears at its path as a whole or not at all.
use rich_graph.Base.{
  ℕ, ◌+◌, ◌<◌, ◌^◌, Bool, true, false, none, some, List, [], ◌∷◌, ◌++◌, length, All, ◌≡◌, ◌≢◌, refl,
  ap, ◌∙◌, ◌⊎◌, inl, inr, arith, append-nil, Bool-cases,
}
use rich_graph.Io.{WriteReturn, write_all, write_all-done}
use rich_graph.Delta.{PropertyDeltaTarget, PropertyDeltaRecord, LogicalKey}
use rich_graph.Delta.Error.{Result, ok, err}
use rich_graph.Delta.Build.{stable_sort, dedup_from, deduplicate, build_start, BuildState, insert}
use rich_graph.Delta.Image.{encode_header, encode_records, create_header, create_bytes}
use rich_graph.Delta.File.{PropertyDeltaFile, lookup, open_and_validate}
use rich_graph.Delta.Create.{
  DeltaDurability, CreateIo, Directory, create_state, write_parts, publish, create, invalid_id,
  create_from,
}
use rich_graph.Delta.Newest.{newest, newest-deduplicate}
use rich_graph.Delta.Search.{answer, lookup-newest, Holds}
use rich_graph.Delta.Sorted.{written-IsSorted}
use rich_graph.Delta.Kept.{InRange, stored_size, written, All-written, stored_size-written}
use rich_graph.Delta.Layout.{build-built, built}
use rich_graph.Delta.Accept.{opened, open_and_validate-opened}
use rich_graph.Delta.Reopen.{TargetInRange, opened-Holds, header-Passes, decode_header-mapping}

-- What the three calls of WriteAll are given.
abbrev pub parts : PropertyDeltaTarget → ℕ → BuildState → List (List ℕ)
parts target generation s =
    encode_header (create_header target generation s)
    ∷ encode_records s.disk_records
    ∷ s.values
    ∷ []

abbrev pub flatten : List (List ℕ) → List ℕ
flatten [] = []
flatten (xs ∷ xss) = xs ++ flatten xss

pub write_parts-flatten :
    (answers : List WriteReturn) (xss : List (List ℕ))
    → (write_parts answers xss).0 ≡ true
    → (write_parts answers xss).1 ≡ flatten xss
unfolding write_parts
write_parts-flatten answers [] h = refl
write_parts-flatten answers (xs ∷ xss) h =
    ground
      (arith, write_all-done answers xs, write_parts-flatten (write_all answers xs).answers xss)

pub flatten-parts :
    (target : PropertyDeltaTarget) (generation : ℕ) (s : BuildState)
    → flatten (parts target generation s) ≡ create_bytes target generation s
unfolding create_bytes
flatten-parts target generation s = simp append-nil

-- Every record that was submitted is written, or a later one of the same version is.
length-dedup_from :
    (x : PropertyDeltaRecord) (xs : List PropertyDeltaRecord) → 0 < length (dedup_from x xs)
unfolding dedup_from
length-dedup_from x [] = omega arith
length-dedup_from x (y ∷ ys) = ground (arith, length-dedup_from y ys)

length-insert : (x : PropertyDeltaRecord) (xs : List PropertyDeltaRecord) → insert x xs ≢ []
unfolding insert
length-insert x [] e = cc
length-insert x (y ∷ ys) e = ground arith

length-written : (rs : List PropertyDeltaRecord) → rs ≢ [] → 0 < length (written rs)
unfolding stable_sort deduplicate
length-written [] h = absurd (h refl)
length-written (x ∷ xs) h =
    some_written (insert x (stable_sort xs)) (length-insert x (stable_sort xs))
  where
    some_written : (ys : List PropertyDeltaRecord) → ys ≢ [] → 0 < length (deduplicate ys)
    some_written [] k = absurd (k refl)
    some_written (y ∷ ys) k = length-dedup_from y ys

create_state-built :
    (target : PropertyDeltaTarget) (rs : List PropertyDeltaRecord)
    → rs ≢ []
    → target.base_file_id ≢ invalid_id
    → All InRange rs
    → 120 + stored_size rs < 2 ^ 64
    → create_state target rs ≡ ok (built (written rs) build_start)
unfolding create_state
create_state-built target [] h k ranges room = absurd (h refl)
create_state-built target (r ∷ rs) h k ranges room = ground (
  arith,
  build-built (written (r ∷ rs)) build_start (All-written InRange (r ∷ rs) ranges)
      (omega (arith, stored_size-written (r ∷ rs))),
)

-- Every call that Create makes to the operating system succeeds.
pub record Succeeds (io : CreateIo) (image_parts : List (List ℕ)) : Type 0 where
  pub opens : io.opens ≡ true
  pub writes : (write_parts io.writes image_parts).0 ≡ true
  pub fdatasyncs : io.fdatasyncs ≡ true
  pub closes : io.closes ≡ true
  pub renames : io.renames ≡ true
  pub syncs_directory : io.syncs_directory ≡ true
  pub reopen : io.reopen ≡ none

publish-Succeeds :
    (path : List ℕ) (durability : DeltaDurability) (io : CreateIo) (dir : Directory)
    (xss : List (List ℕ)) (content : List ℕ) (file : PropertyDeltaFile)
    → Succeeds io xss
    → flatten xss ≡ content
    → open_and_validate path content ≡ ok file
    → publish path durability io dir (write_parts io.writes xss)
      ≡ (ok file, record { at_path = some content; at_temporary = none })
unfolding publish
publish-Succeeds path durability io dir xss content file ok_io e o =
    ground (arith, write_parts-flatten io.writes xss)

publish_atomic :
    (path : List ℕ) (durability : DeltaDurability) (io : CreateIo) (dir : Directory)
    (w : Bool × List ℕ)
    → ((publish path durability io dir w).1.at_path ≡ dir.at_path)
      ⊎ ((w.0 ≡ true) × ((publish path durability io dir w).1.at_path ≡ some w.1))
unfolding publish
publish_atomic path durability io dir (false, content) = inl refl
publish_atomic path durability io dir (true, content) = ground arith

create_from_atomic :
    (path : List ℕ) (target : PropertyDeltaTarget) (generation : ℕ) (durability : DeltaDurability)
    (io : CreateIo) (dir : Directory) (r : Result BuildState)
    → ((create_from path target generation durability io dir r).1.at_path ≡ dir.at_path)
      ⊎ ((s : BuildState) × (r ≡ ok s)
          × ((create_from path target generation durability io dir r).1.at_path
              ≡ some (create_bytes target generation s)))
create_from_atomic path target generation durability io dir (err e) = inl refl
create_from_atomic path target generation durability io dir (ok s) = elim (Bool-cases io.opens) [
  | inr e ↦ simp e (inl refl)
  | inl e ↦ simp e (
      let xss = parts target generation s in
      elim (publish_atomic path durability io dir (write_parts io.writes xss)) [
        | inl kept ↦ inl kept
        | inr there ↦ inr (
          s,
          refl,
          there.1
              ∙ ap some
                  (write_parts-flatten io.writes xss there.0 ∙ flatten-parts target generation s),
        )
      ])
]

-- The file that Create leaves and returns.
abbrev pub created : List ℕ → PropertyDeltaTarget → ℕ → List PropertyDeltaRecord → PropertyDeltaFile
created path target generation rs =
    let s = built (written rs) build_start in
    opened path (create_bytes target generation s) (create_header target generation s)

module _ (path : List ℕ) (target : PropertyDeltaTarget) (generation : ℕ)
    (rs : List PropertyDeltaRecord) (durability : DeltaDurability) (io : CreateIo)
    (dir : Directory) where
  -- Whatever the system calls of Create return, the path keeps what it had or holds the whole of
  -- the new file.
  pub create_atomic :
      ((create path target generation rs durability io dir).1.at_path ≡ dir.at_path)
      ⊎ ((s : BuildState) × (create_state target rs ≡ ok s)
          × ((create path target generation rs durability io dir).1.at_path
              ≡ some (create_bytes target generation s)))
  unfolding create
  create_atomic =
      create_from_atomic path target generation durability io dir (create_state target rs)

  module _ (target_fits : TargetInRange target) (generation_fits : generation < 2 ^ 64)
      (valid_id : target.base_file_id ≢ invalid_id) (some_record : rs ≢ [])
      (ranges : All InRange rs) (room : 120 + stored_size rs < 2 ^ 64)
      (succeeds : Succeeds io (parts target generation (built (written rs) build_start))) where
    pub created-Holds : Holds (created path target generation rs) (written rs)
    created-Holds =
        opened-Holds target generation (written rs) target_fits generation_fits
          (All-written InRange rs ranges) (omega (arith, stored_size-written rs))
          (length-written rs some_record) (written-IsSorted rs) path

    pub create-created : create path target generation rs durability io dir ≡ (
      ok (created path target generation rs),
      record {
        at_path = some (create_bytes target generation (built (written rs) build_start));
        at_temporary = none;
      },
    )
    unfolding create
    create-created =
        let kept = written rs in
        let kept_ranges = All-written InRange rs ranges in
        let kept_room : 120 + stored_size kept < 2 ^ 64 = omega (arith, stored_size-written rs) in
        let s = built kept build_start in
        let h = create_header target generation s in
        let bytes = create_bytes target generation s in
        let opens =
          open_and_validate-opened path bytes h
            (decode_header-mapping target generation kept target_fits generation_fits kept_ranges
              kept_room)
            (header-Passes target generation kept target_fits generation_fits kept_ranges kept_room
              (length-written rs some_record) (written-IsSorted rs)) in
        rw (create_state-built target rs some_record valid_id ranges room) (
          simp succeeds.opens (
            publish-Succeeds path durability io dir (parts target generation s) bytes _ succeeds
              (flatten-parts target generation s) opens))

    module _ (key : LogicalKey) (read_sequence : ℕ) where
      -- For some records and a target whose fields are in range, with a valid file id and less
      -- than 2 ^ 64 bytes in all, and when every system call succeeds, Create returns an open
      -- file, and Lookup in it answers with the newest version of the key that the read sequence
      -- admits among the records submitted.
      pub create-lookup :
          (file : PropertyDeltaFile) × ((create path target generation rs durability io dir).0
            ≡ ok file)
          × (lookup file key read_sequence ≡ answer (newest key read_sequence rs))
      create-lookup = (
        created path target generation rs,
        ap (λ (x : Result PropertyDeltaFile × Directory). x.0) create-created,
        lookup-newest (created path target generation rs) (written rs) created-Holds key
              read_sequence
            ∙ ap answer (newest-deduplicate key read_sequence rs),
      )
