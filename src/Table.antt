-- ===== src/Table.antt =====
-- src/SSTable.cpp: the searches in the index of a table file. `keys` gives the key at each position
-- of the vector of indexes, and low_bound reads the bytes of the index in the file; the end of a range is one after its last position, and -1 is `none`.
pub mod Search
use rich_graph.Base.{
  ℕ, zero, suc, ◌+◌, ◌-◌, ◌*◌, ◌/◌, ◌^◌, Bool, true, false, Option, none, some, ◌==◌, ltb, leb,
  ◌||◌, List, take, drop, length, if◌then◌else◌,
}
use rich_graph.Pod.{decode_le}

-- SSTableCache::find, on fuel for the length of the range.
unfoldable pub find_from : ℕ → (ℕ → ℕ) → ℕ → ℕ → ℕ → Option ℕ
find_from zero keys key start stop = none
find_from (suc fuel) keys key start stop =
    let mid = start + (stop - 1 - start) / 2 in
    let rest =
      find_from fuel keys key (if ltb (keys mid) key then mid + 1 else start)
        (if ltb (keys mid) key then stop else mid) in
    if ltb start stop then if keys mid == key then some mid else rest else none

-- SSTableCache::get.
unfoldable pub get : (ℕ → ℕ) → ℕ → ℕ → Option ℕ
get keys size src = find_from size keys src 0 size

-- The largest int.
abbrev pub int_max : ℕ
int_max = 2 ^ 31 - 1

-- The key of a position: an entry is 12 bytes, and its key the first 8.
unfoldable pub index_key : List ℕ → ℕ → ℕ
index_key index_buf mid = decode_le (take 8 (drop (mid * 12) index_buf))

-- A sum or a product that is over the largest int and a key behind the end of the buffer are errors.
abbrev pub bad_mid : List ℕ → ℕ → ℕ → Bool
bad_mid index_buf sum mid =
    ltb int_max sum || (ltb int_max (mid * 12) || ltb (length index_buf) (mid * 12 + 8))

-- SSTableCache::low_bound on the bytes of the index, on fuel for the length of the range.
unfoldable pub low_bound_from : ℕ → List ℕ → ℕ → ℕ → ℕ → Option ℕ
low_bound_from zero index_buf key start last = some start
low_bound_from (suc fuel) index_buf key start last =
    let mid = (start + last) / 2 in
    let rest =
      low_bound_from fuel index_buf key
        (if leb key (index_key index_buf mid) then start else mid + 1)
        (if leb key (index_key index_buf mid) then mid else last) in
    if ltb start last
    then if bad_mid index_buf (start + last) mid then none else rest
    else some start

unfoldable pub low_bound : ℕ → ℕ → ℕ → List ℕ → Option ℕ
low_bound key start last index_buf = low_bound_from (last - start) index_buf key start last
