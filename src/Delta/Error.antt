-- ===== src/Delta/Error.antt =====
-- The ways in which a property delta file is refused: a constructor for each message that
-- src/property_delta.cpp hands to SetError. The path and the text of errno are left out.
pub data DeltaError : Type 0 where
  empty_delta invalid_file_id value_too_long values_overflow : DeltaError
  open_failed write_failed fdatasync_failed close_failed rename_failed sync_failed : DeltaError
  fstat_failed mmap_failed shorter_than_header invalid_header header_checksum_mismatch : DeltaError
  record_bounds_overflow value_bounds_overflow invalid_bounds payload_checksum_mismatch : DeltaError
  value_out_of_bounds not_sorted : DeltaError

pub data Result {ℓ} (A : Type ℓ) : Type ℓ where
  err : DeltaError → Result A
  ok : A → Result A

infixl 5 ◌>>=◌ ◌>>◌
abbrev pub ◌>>=◌ {κ ℓ} : {B : Type κ} {A : Type ℓ} → Result A → (A → Result B) → Result B
err why >>= next = err why
ok value >>= next = next value

abbrev pub ◌>>◌ {κ} : {B : Type κ} → Result (Unit {0}) → Result B → Result B
err why >> next = err why
ok done >> next = next
