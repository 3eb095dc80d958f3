-- ===== src/Edge.antt =====
-- core/graph/edge.h: EdgeBody_t_Dym, and the readers of its bytes in src/storage_internal.cpp. The bit
-- operations are written with division and remainder: `x & (2 ^ k - 1)` is `x % 2 ^ k`, and a field
-- of `prop_pointer` is put between what stands below and above it. An assertion that fails is
-- `none`; a build without assertions drops the bits that do not fit.
pub mod Laws
pub mod Bytes
use rich_graph.Base.{
  ℕ, ◌+◌, ◌*◌, ◌/◌, ◌%◌, ◌^◌, ◌<◌, Bool, true, false, List, [], ◌∷◌, ◌==◌, ltb, leb, take, drop,
  ◌-◌, Option, none, some, if◌then◌else◌,
}
use rich_graph.Pod.{encode_fields, decode_le}

pub record EdgeBody : Type 0 where
  pub prop_pointer : ℕ
  pub dst_low : ℕ
  pub seq_low : ℕ
  pub dst_high : ℕ
  pub seq_high : ℕ

abbrev pub flag_bit : Bool → ℕ
flag_bit true = 1
flag_bit false = 0

unfoldable pub set_dst : ℕ → EdgeBody → Option EdgeBody
set_dst dst e =
    if leb dst ((2 ^ 16 - 1) * 2 ^ 32 + (2 ^ 32 - 1))
    then some (record e { dst_high = dst / 2 ^ 32 % 2 ^ 16; dst_low = dst % 2 ^ 32 })
    else none

unfoldable pub get_dst : EdgeBody → ℕ
get_dst e = e.dst_high * 2 ^ 32 + e.dst_low

unfoldable pub set_seq : ℕ → EdgeBody → Option EdgeBody
set_seq seq e =
    if leb seq ((2 ^ 16 - 1) * 2 ^ 32 + (2 ^ 32 - 1))
    then some (record e { seq_high = seq / 2 ^ 32 % 2 ^ 16; seq_low = seq % 2 ^ 32 })
    else none

unfoldable pub get_seq : EdgeBody → ℕ
get_seq e = e.seq_high * 2 ^ 32 + e.seq_low

-- The payload is bits 0 to 21.
unfoldable pub set_offset : ℕ → EdgeBody → EdgeBody
set_offset offset e = record e { prop_pointer = offset % 2 ^ 22 + e.prop_pointer / 2 ^ 22 * 2 ^ 22 }

unfoldable pub get_offset : EdgeBody → ℕ
get_offset e = e.prop_pointer % 2 ^ 22

-- The marker is bit 31, the highest.
unfoldable pub set_marker : Bool → EdgeBody → EdgeBody
set_marker marker e = record e { prop_pointer = e.prop_pointer % 2 ^ 31 + flag_bit marker * 2 ^ 31 }

unfoldable pub get_marker : EdgeBody → Bool
get_marker e = e.prop_pointer / 2 ^ 31 % 2 == 1

-- The direction is bit 30.
unfoldable pub set_is_out : Bool → EdgeBody → EdgeBody
set_is_out is_out e = record e {
  prop_pointer =
      e.prop_pointer % 2 ^ 30 + flag_bit is_out * 2 ^ 30 + e.prop_pointer / 2 ^ 31 * 2 ^ 31;
}

unfoldable pub get_is_out : EdgeBody → Bool
get_is_out e = e.prop_pointer / 2 ^ 30 % 2 == 1

-- The edge type is bits 22 to 29.
unfoldable pub set_edge_type : ℕ → EdgeBody → EdgeBody
set_edge_type edge_type e = record e {
  prop_pointer =
      e.prop_pointer % 2 ^ 22 + edge_type % 2 ^ 8 * 2 ^ 22 + e.prop_pointer / 2 ^ 30 * 2 ^ 30;
}

unfoldable pub get_edge_type : EdgeBody → ℕ
get_edge_type e = e.prop_pointer / 2 ^ 22 % 2 ^ 8

abbrev pub with_seq : ℕ → Option EdgeBody → Option EdgeBody
with_seq seq none = none
with_seq seq (some e) = set_seq seq e

abbrev pub with_word : ℕ → Bool → Bool → ℕ → Option EdgeBody → Option EdgeBody
with_word offset marker is_out edge_type none = none
with_word offset marker is_out edge_type (some e) =
    some (set_edge_type edge_type (set_is_out is_out (set_marker marker (set_offset offset e))))

-- The constructor, on the memory that it stands in: only `prop_pointer` has an initial value.
unfoldable pub edge_body : ℕ → ℕ → ℕ → Bool → Bool → ℕ → EdgeBody → Option EdgeBody
edge_body dst seq offset marker is_out edge_type memory =
    with_word offset marker is_out edge_type
      (with_seq seq (set_dst dst (record memory { prop_pointer = 0 })))

-- The newer edge of two to one destination stands before the other.
unfoldable pub body_less : EdgeBody → EdgeBody → Bool
body_less a b =
    if ltb (get_dst a) (get_dst b)
    then true
    else if get_dst a == get_dst b
    then ltb (get_seq b) (get_seq a)
    else false

-- The struct as it stands in a table file, and the three readers that take its bytes.
unfoldable pub body_bytes : EdgeBody → List ℕ
body_bytes e =
    encode_fields (
      (4, e.prop_pointer)
      ∷ (4, e.dst_low)
      ∷ (4, e.seq_low)
      ∷ (2, e.dst_high)
      ∷ (2, e.seq_high)
      ∷ [])

abbrev pub read_uint32 : List ℕ → ℕ
read_uint32 bytes = decode_le (take 4 bytes)

unfoldable pub dst_of_bytes : List ℕ → ℕ
dst_of_bytes bytes = read_uint32 (drop 4 bytes) + read_uint32 (drop 12 bytes) % 2 ^ 16 * 2 ^ 32

unfoldable pub seq_of_bytes : List ℕ → ℕ
seq_of_bytes bytes =
    read_uint32 (drop 8 bytes) + read_uint32 (drop 12 bytes) / 2 ^ 16 % 2 ^ 16 * 2 ^ 32

unfoldable pub marker_of_bytes : List ℕ → Bool
marker_of_bytes bytes = read_uint32 bytes / 2 ^ 31 % 2 == 1
