-- ===== src/Fnv.antt =====
-- ExtendChecksum and Checksum of src/property_delta.cpp; src/property_delta_manifest.cpp has a copy
-- of the first. FNV-1a over bytes, in 64-bit words.
use mathlib.Core.List.{foldl}
use rich_graph.Base.{ℕ, ◌*◌, ◌%◌, ◌^◌, List, bit_xor}

abbrev pub fnv_prime : ℕ
fnv_prime = 1099511628211

abbrev pub fnv_offset : ℕ
fnv_offset = 14695981039346656037

-- One round of the loop: `hash ^= byte; hash *= kPrime`.
unfoldable pub checksum_step : ℕ → ℕ → ℕ
checksum_step hash byte = bit_xor hash byte * fnv_prime % 2 ^ 64

unfoldable pub extend_checksum : ℕ → List ℕ → ℕ
unfolding checksum_step
extend_checksum hash bytes = foldl checksum_step hash bytes

unfoldable pub checksum : List ℕ → ℕ
unfolding extend_checksum
checksum bytes = extend_checksum fnv_offset bytes
