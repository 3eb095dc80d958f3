-- ===== src/Delta/Reopen.antt =====
-- OpenAndValidate accepts what Create wrote, and the file that it opens holds the records.
use rich_graph.Base.{
  ℕ, ◌+◌, ◌-◌, ◌*◌, ◌^◌, ◌≤◌, ◌<◌, false, List, ◌++◌, drop, length, All, ◌≡◌, refl, sym, ap, ◌∙◌,
  arith, ltb, some, length-append, drop_append, drop_add, eq_bytes_refl, ==_iff, lt→ltb,
}
use rich_graph.Pod.Laws.{Fits}
use rich_graph.Fnv.{extend_checksum, fnv_offset, checksum}
use rich_graph.Delta.{PropertyDeltaTarget, PropertyDeltaRecord, kind_code}
use rich_graph.Delta.Build.{BuildState, build_start, disk_record}
use rich_graph.Delta.Image.{
  DeltaDiskHeader, magic_bytes, header_fields, encode_header, decode_header, header_checksum,
  fresh_header, create_header, create_bytes, encode_records, load_disk_record,
}
use rich_graph.Delta.File.{value_outside, mapped_checksum, selected_value, wrap64}
use rich_graph.Delta.Sorted.{IsSorted}
use rich_graph.Delta.Ranks.{◌!◌, blank}
use rich_graph.Delta.Codec.{
  decode_header-encode_header, length-encode_header, length-encode_records,
  load_disk_record-encode_records, extend_checksum-append, extend_checksum-lt,
}
use rich_graph.Delta.Kept.{InRange, stored_size}
use rich_graph.Delta.Layout.{
  disks, contents, built, offset_at, length-disks, disks-at, contents-at, offset_at-le,
  stored_size-eq, disks-IsStorable, least_commit-at, greatest_commit-lt, least_commit-lt,
  greatest_commit-at,
}
use rich_graph.Delta.Search.{Holds}
use rich_graph.Delta.Accept.{opened, Passes, check_records-ok}

-- The fields of a target hold its values.
pub record TargetInRange (t : PropertyDeltaTarget) : Type 0 where
  pub shard_id : t.shard_id < 2 ^ 32
  pub base_file_id : t.base_file_id < 2 ^ 32
  pub base_generation : t.base_generation < 2 ^ 64
  pub property_id : t.property_id < 2 ^ 32

kind_code-le : (t : PropertyDeltaTarget) → kind_code t.kind < 256
kind_code-le t = ground arith

module _ (target : PropertyDeltaTarget) (generation : ℕ) (rs : List PropertyDeltaRecord)
    (target_fits : TargetInRange target) (generation_fits : generation < 2 ^ 64)
    (ranges : All InRange rs) (room : 120 + stored_size rs < 2 ^ 64) where
  -- What the loop over the records leaves.
  abbrev pub state : BuildState
  state = built rs build_start

  abbrev pub header : DeltaDiskHeader
  header = create_header target generation state

  abbrev pub mapping : List ℕ
  mapping = create_bytes target generation state

  fresh_Fits :
      (c : ℕ)
      → c < 2 ^ 64
      → Fits (header_fields (record (fresh_header target generation state) { header_checksum = c }))
  fresh_Fits c h = omega (
    arith,
    kind_code-le target,
    length-disks 0 rs,
    stored_size-eq rs,
    least_commit-lt (2 ^ 64 - 1) rs (omega arith),
    greatest_commit-lt 0 rs (omega arith) ranges,
    extend_checksum-lt (extend_checksum fnv_offset (encode_records (disks 0 rs))) (contents rs)
        (extend_checksum-lt fnv_offset (encode_records (disks 0 rs)) (omega arith)),
  )

  checksum-lt : (bytes : List ℕ) → checksum bytes < 2 ^ 64
  unfolding checksum
  checksum-lt bytes = extend_checksum-lt fnv_offset bytes (omega arith)

  header_Fits : Fits (header_fields header)
  unfolding create_header header_checksum
  header_Fits = fresh_Fits _ (checksum-lt _)

  pub decode_header-mapping : decode_header mapping ≡ header
  unfolding create_bytes
  decode_header-mapping =
      decode_header-encode_header header _ (unfold create_header in refl) header_Fits

  length-header : length (encode_header header) ≡ 120
  length-header = length-encode_header header (unfold create_header in refl)

  length-mapping : length mapping ≡ 120 + stored_size rs
  unfolding create_bytes
  length-mapping = omega (
    arith,
    length-append (encode_header header) (encode_records (disks 0 rs) ++ contents rs),
    length-append (encode_records (disks 0 rs)) (contents rs),
    length-header,
    length-encode_records (disks 0 rs),
    length-disks 0 rs,
    stored_size-eq rs,
  )

  drop-mapping : drop 120 mapping ≡ encode_records (disks 0 rs) ++ contents rs
  unfolding create_bytes
  drop-mapping = drop_append (encode_header header) _ 120 (sym length-header)

  load-mapping :
      (i : ℕ)
      → i < length rs
      → load_disk_record mapping 120 i ≡ disk_record (rs ! i) (offset_at rs i)
  unfolding create_bytes
  load-mapping i h =
      load_disk_record-encode_records (encode_header header) (disks 0 rs) (contents rs) i
        (disk_record blank 0) length-header (disks-IsStorable 0 rs ranges (omega (arith, room)))
        (omega (arith, length-disks 0 rs))
      ∙ (disks-at 0 rs i (disk_record blank 0) h ∙ ap (disk_record (rs ! i)) (omega arith))

  inside-mapping :
      (i : ℕ)
      → i < length rs
      → value_outside (disk_record (rs ! i) (offset_at rs i)) (length (contents rs)) ≡ false
  inside-mapping i h = ground (arith, offset_at-le rs i h)

  module _ (some_record : 0 < length rs) (sorted : IsSorted rs) where
    long_mapping : 168 ≤ length mapping
    long_mapping = omega (arith, length-mapping, stored_size-eq rs)

    header-checksum : header_checksum header ≡ header.header_checksum
    unfolding create_header header_checksum
    header-checksum = refl

    payload-checksum : mapped_checksum header mapping ≡ header.payload_checksum
    unfolding create_header
    payload-checksum = rw (
      lt→ltb 120 (length mapping) (omega (arith, long_mapping)),
      drop-mapping,
      extend_checksum-append fnv_offset (encode_records (disks 0 rs)) (contents rs),
    )

    pub header-Passes : Passes mapping header
    unfolding create_header
    header-Passes = record {
      long = ground (arith, long_mapping);
      header = ground (arith, eq_bytes_refl magic_bytes);
      checked = (==_iff _ _).1 header-checksum;
      records = ground (arith, length-disks 0 rs, stored_size-eq rs);
      values = ground (arith, length-disks 0 rs, stored_size-eq rs);
      bounds = ground (arith, length-mapping, length-disks 0 rs, stored_size-eq rs);
      payload = (==_iff _ _).1 payload-checksum;
      ordered =
          check_records-ok mapping header rs (offset_at rs) load-mapping inside-mapping sorted
            (length (disks 0 rs)) 0 (omega (arith, length-disks 0 rs));
    }

    drop-values : (o : ℕ) → drop (120 + (length rs * 48 + o)) mapping ≡ drop o (contents rs)
    drop-values o =
        drop_add 120 (length rs * 48 + o) mapping
        ∙ (ap (drop (length rs * 48 + o)) drop-mapping
            ∙ (drop_add (length rs * 48) o _
                ∙ ap (drop o) (
                    drop_append (encode_records (disks 0 rs)) (contents rs) (length rs * 48)
                      (omega (arith, length-encode_records (disks 0 rs), length-disks 0 rs)))))

    value_begin :
        (i : ℕ)
        → i < length rs
        → wrap64 (header.values_offset + offset_at rs i) ≡ 120 + (length rs * 48 + offset_at rs i)
    unfolding create_header
    value_begin i h = omega (arith, length-disks 0 rs, offset_at-le rs i h, stored_size-eq rs)

    value_end :
        (i : ℕ)
        → i < length rs
        → ltb
            (length mapping)
            (wrap64 (120 + (length rs * 48 + offset_at rs i) + length (rs ! i).value))
          ≡ false
    value_end i h = ground (arith, length-mapping, offset_at-le rs i h, stored_size-eq rs)

    read-mapping :
        (path : List ℕ) (i : ℕ)
        → i < length rs
        → selected_value (opened path mapping header) (disk_record (rs ! i) (offset_at rs i))
          ≡ some ((rs ! i).value, (rs ! i).commit_sequence)
    read-mapping path i h =
        rw (value_begin i h, value_end i h, drop-values (offset_at rs i), contents-at rs i h)

    pub opened-Holds : (path : List ℕ) → Holds (opened path mapping header) rs
    unfolding create_header
    opened-Holds path = record {
      offset = offset_at rs;
      count = length-disks 0 rs;
      loads = load-mapping;
      reads = read-mapping path;
      least = least_commit-at (2 ^ 64 - 1) rs;
      greatest = greatest_commit-at 0 rs;
      sorted = sorted;
    }
