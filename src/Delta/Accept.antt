-- ===== src/Delta/Accept.antt =====
-- When OpenAndValidate accepts: each test on the header, and the loop over the records.
use rich_graph.Base.{
  ℕ, zero, suc, ◌+◌, ◌-◌, ◌/◌, ◌<◌, true, false, not, List, length, ◌≡◌, refl, ap, arith, ltb, ◌==◌,
  ◌&&◌,
}
use rich_graph.Delta.{PropertyDeltaRecord, DeltaDiskRecord}
use rich_graph.Delta.Order.{record_less}
use rich_graph.Delta.Build.{disk_record}
use rich_graph.Delta.Image.{
  DeltaDiskHeader, header_size, record_size, decode_header, header_checksum, load_disk_record,
}
use rich_graph.Delta.File.{
  PropertyDeltaFile, open_and_validate, check_records, key_record, value_outside, header_refused,
  bounds_refused, mapped_checksum, metadata_of, max_u64,
}
use rich_graph.Delta.Error.{ok}
use rich_graph.Delta.Sorted.{IsSorted, Le-record_less}
use rich_graph.Delta.Ranks.{◌!◌, IsSorted-at}

-- The object that Open returns.
abbrev pub opened : List ℕ → List ℕ → DeltaDiskHeader → PropertyDeltaFile
opened path mapping h = record {
  path = path;
  mapping = mapping;
  records_offset = h.records_offset;
  values_offset = h.values_offset;
  metadata = metadata_of h (length mapping);
}

pub record Passes (mapping : List ℕ) (h : DeltaDiskHeader) : Type 0 where
  pub long : ltb (length mapping) header_size ≡ false
  pub header : header_refused h ≡ false
  pub checked : (header_checksum h == h.header_checksum) ≡ true
  pub records : ltb ((max_u64 - h.records_offset) / record_size) h.record_count ≡ false
  pub values : ltb (max_u64 - h.values_offset) h.values_bytes ≡ false
  pub bounds : bounds_refused h (length mapping) ≡ false
  pub payload : (mapped_checksum h mapping == h.payload_checksum) ≡ true
  pub ordered : check_records mapping h h.record_count 0 ≡ ok tt

pub open_and_validate-opened :
    (path mapping : List ℕ) (h : DeltaDiskHeader)
    → decode_header mapping ≡ h
    → Passes mapping h
    → open_and_validate path mapping ≡ ok (opened path mapping h)
unfolding open_and_validate
open_and_validate-opened path mapping h e p =
    rw (p.long, e, p.header, p.checked, p.records, p.values, p.bounds, p.payload, p.ordered)

record_less-key_record :
    (a b : PropertyDeltaRecord) (m n : ℕ)
    → record_less (key_record (disk_record a m)) (key_record (disk_record b n)) ≡ record_less a b
unfolding record_less
record_less-key_record a b m n = ground arith

module _ (mapping : List ℕ) (h : DeltaDiskHeader) (rs : List PropertyDeltaRecord) (offset : ℕ → ℕ)
    (loads : (i : ℕ)
      → i < length rs
      → load_disk_record mapping h.records_offset i ≡ disk_record (rs ! i) (offset i))
    (inside : (i : ℕ)
      → i < length rs
      → value_outside (disk_record (rs ! i) (offset i)) h.values_bytes ≡ false)
    (sorted : IsSorted rs) where
  in_order :
      (i : ℕ)
      → i < length rs
      → (not (i == 0)
          && record_less
              (key_record (load_disk_record mapping h.records_offset i))
              (key_record (load_disk_record mapping h.records_offset (i - 1))))
        ≡ false
  in_order zero b = refl
  in_order (suc i) b =
      let before : suc i - 1 < length rs = omega arith in
      rw (loads (suc i) b, loads (suc i - 1) before)
        (ground (
          arith,
          record_less-key_record (rs ! suc i) (rs ! (suc i - 1)) (offset (suc i))
              (offset (suc i - 1)),
          Le-record_less (rs ! (suc i - 1)) (rs ! suc i)
              (IsSorted-at rs (suc i - 1) (suc i) sorted (omega arith) b),
        ))

  pub check_records-ok :
      (left i : ℕ) → i + left ≡ length rs → check_records mapping h left i ≡ ok tt
  unfolding check_records
  check_records-ok zero i e = refl
  check_records-ok (suc left) i e =
      let b : i < length rs = omega arith in
      let outside = ap (λ (d : DeltaDiskRecord). value_outside d h.values_bytes) (loads i b) in
      ground (arith, outside, inside i b, in_order i b, check_records-ok left (i + 1) (omega arith))
