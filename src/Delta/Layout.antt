-- ===== src/Delta/Layout.antt =====
-- Where Create puts each value, and that its loop over the records goes through when they fit.
use rich_graph.Base.{
  ℕ, zero, suc, ◌+◌, ◌*◌, ◌^◌, ◌≤◌, ◌<◌, Bool, true, false, List, [], ◌∷◌, ◌++◌, take, drop, length,
  get_or, All, ◌≡◌, refl, ap, ◌∙◌, arith, append_assoc, append-nil, take_append, drop_append,
  drop_add, length-append, min, max,
}
use rich_graph.Delta.{PropertyDeltaRecord, DeltaDiskRecord, direction}
use rich_graph.Delta.Error.{ok}
use rich_graph.Delta.Kept.{InRange, stored_size}
use rich_graph.Delta.Build.{BuildState, disk_record, push_record, build}
use rich_graph.Delta.Ranks.{◌!◌}
use rich_graph.Delta.Codec.{IsStorable}

abbrev pub disks : ℕ → List PropertyDeltaRecord → List DeltaDiskRecord
disks offset [] = []
disks offset (r ∷ rs) = disk_record r offset ∷ disks (offset + length r.value) rs

abbrev pub contents : List PropertyDeltaRecord → List ℕ
contents [] = []
contents (r ∷ rs) = r.value ++ contents rs

abbrev pub least_commit : ℕ → List PropertyDeltaRecord → ℕ
least_commit m [] = m
least_commit m (r ∷ rs) = least_commit (min m r.commit_sequence) rs

abbrev pub greatest_commit : ℕ → List PropertyDeltaRecord → ℕ
greatest_commit m [] = m
greatest_commit m (r ∷ rs) = greatest_commit (max m r.commit_sequence) rs

abbrev pub built : List PropertyDeltaRecord → BuildState → BuildState
built rs s = record {
  disk_records = s.disk_records ++ disks (length s.values) rs;
  values = s.values ++ contents rs;
  min_commit = least_commit s.min_commit rs;
  max_commit = greatest_commit s.max_commit rs;
}

built_step :
    (r : PropertyDeltaRecord) (rs : List PropertyDeltaRecord) (s : BuildState)
    → built rs (push_record r s) ≡ built (r ∷ rs) s
built_step r rs s = simp (append_assoc, length-append s.values r.value)

pub build-built :
    (rs : List PropertyDeltaRecord) (s : BuildState)
    → All InRange rs
    → length s.values + stored_size rs < 2 ^ 64
    → build rs s ≡ ok (built rs s)
unfolding build
build-built [] s h k = simp (append-nil s.disk_records, append-nil s.values)
build-built (r ∷ rs) s h k =
    let small = h.0.value in
    let ih = build-built rs (push_record r s) h.1 (omega (arith, length-append s.values r.value)) in
    ground (arith, small, ih, built_step r rs s)

-- The number of value bytes before the record at an index.
abbrev pub offset_at : List PropertyDeltaRecord → ℕ → ℕ
offset_at [] i = 0
offset_at (r ∷ rs) zero = 0
offset_at (r ∷ rs) (suc i) = length r.value + offset_at rs i

pub length-disks : (o : ℕ) (rs : List PropertyDeltaRecord) → length (disks o rs) ≡ length rs
length-disks o [] = refl
length-disks o (r ∷ rs) = ap suc (length-disks (o + length r.value) rs)

pub disks-at :
    (o : ℕ) (rs : List PropertyDeltaRecord) (i : ℕ) (d : DeltaDiskRecord)
    → i < length rs
    → get_or (disks o rs) i d ≡ disk_record (rs ! i) (o + offset_at rs i)
disks-at o [] i d h = absurd (omega arith)
disks-at o (r ∷ rs) zero d h = ap (disk_record r) (omega arith)
disks-at o (r ∷ rs) (suc i) d h =
    disks-at (o + length r.value) rs i d (omega arith) ∙ ap (disk_record (rs ! i)) (omega arith)

pub contents-at :
    (rs : List PropertyDeltaRecord) (i : ℕ)
    → i < length rs
    → take (length (rs ! i).value) (drop (offset_at rs i) (contents rs)) ≡ (rs ! i).value
contents-at [] i h = absurd (omega arith)
contents-at (r ∷ rs) zero h = take_append r.value (contents rs) (length r.value) refl
contents-at (r ∷ rs) (suc i) h =
    rw
      (
        drop_add (length r.value) (offset_at rs i) (r.value ++ contents rs),
        drop_append r.value (contents rs) (length r.value) refl,
      )
      (contents-at rs i (omega arith))

-- No value reaches over the end of the values.
pub offset_at-le :
    (rs : List PropertyDeltaRecord) (i : ℕ)
    → i < length rs
    → offset_at rs i + length (rs ! i).value ≤ length (contents rs)
offset_at-le [] i h = absurd (omega arith)
offset_at-le (r ∷ rs) zero h = omega (arith, length-append r.value (contents rs))
offset_at-le (r ∷ rs) (suc i) h =
    omega (arith, length-append r.value (contents rs), offset_at-le rs i (omega arith))

pub stored_size-eq :
    (rs : List PropertyDeltaRecord) → stored_size rs ≡ length rs * 48 + length (contents rs)
stored_size-eq [] = refl
stored_size-eq (r ∷ rs) = omega (arith, length-append r.value (contents rs), stored_size-eq rs)

direction-le : (b : Bool) → direction b ≤ 1
direction-le true = omega arith
direction-le false = omega arith

pub disks-IsStorable :
    (o : ℕ) (rs : List PropertyDeltaRecord)
    → All InRange rs
    → o + stored_size rs < 2 ^ 64
    → All IsStorable (disks o rs)
disks-IsStorable o [] h k = tt
disks-IsStorable o (r ∷ rs) h k = (
  record {
    src = h.0.src;
    dst = h.0.dst;
    base_sequence = h.0.base_sequence;
    commit_sequence = h.0.commit_sequence;
    value_offset = omega arith;
    value_length = h.0.value;
    edge_type = h.0.edge_type;
    is_out = omega (arith, direction-le r.is_out);
  },
  disks-IsStorable (o + length r.value) rs h.1 (omega arith),
)

least_commit-le : (m : ℕ) (rs : List PropertyDeltaRecord) → least_commit m rs ≤ m
least_commit-le m [] = omega arith
least_commit-le m (r ∷ rs) = omega (arith, least_commit-le (min m r.commit_sequence) rs)

pub least_commit-at :
    (m : ℕ) (rs : List PropertyDeltaRecord) (i : ℕ)
    → i < length rs
    → least_commit m rs ≤ (rs ! i).commit_sequence
least_commit-at m [] i h = absurd (omega arith)
least_commit-at m (r ∷ rs) zero h = omega (arith, least_commit-le (min m r.commit_sequence) rs)
least_commit-at m (r ∷ rs) (suc i) h = least_commit-at (min m r.commit_sequence) rs i (omega arith)

pub greatest_commit-lt :
    (m : ℕ) (rs : List PropertyDeltaRecord)
    → m < 2 ^ 64
    → All InRange rs
    → greatest_commit m rs < 2 ^ 64
greatest_commit-lt m [] h k = h
greatest_commit-lt m (r ∷ rs) h k =
    let c = k.0.commit_sequence in greatest_commit-lt (max m r.commit_sequence) rs (omega arith) k.1

pub least_commit-lt :
    (m : ℕ) (rs : List PropertyDeltaRecord) → m < 2 ^ 64 → least_commit m rs < 2 ^ 64
least_commit-lt m rs h = omega (arith, least_commit-le m rs)

greatest_commit-ge : (m : ℕ) (rs : List PropertyDeltaRecord) → m ≤ greatest_commit m rs
greatest_commit-ge m [] = omega arith
greatest_commit-ge m (r ∷ rs) = omega (arith, greatest_commit-ge (max m r.commit_sequence) rs)

pub greatest_commit-at :
    (m : ℕ) (rs : List PropertyDeltaRecord) (i : ℕ)
    → i < length rs
    → (rs ! i).commit_sequence ≤ greatest_commit m rs
greatest_commit-at m [] i h = absurd (omega arith)
greatest_commit-at m (r ∷ rs) zero h =
    omega (arith, greatest_commit-ge (max m r.commit_sequence) rs)
greatest_commit-at m (r ∷ rs) (suc i) h =
    greatest_commit-at (max m r.commit_sequence) rs i (omega arith)
