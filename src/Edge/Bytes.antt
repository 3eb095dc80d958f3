-- ===== src/Edge/Bytes.antt =====
-- src/storage_internal.cpp: get_dst, get_seq and get_marker on the bytes of an edge body.
use rich_graph.Base.{
  ℕ, ◌+◌, ◌*◌, ◌/◌, ◌%◌, ◌^◌, ◌<◌, Bool, List, ◌++◌, drop, ◌≡◌, ap, ap₂, ◌∙◌, arith, ◌==◌,
  take_append, sym, some,
}
use rich_graph.Pod.{encode_le, encode_fields, decode_le}
use rich_graph.Pod.Laws.{length-encode_le, decode_le-encode_le}
use rich_graph.Edge.Laws.{flag_bit_lt, body_of, body_of_fields, edge_body-body_of}
use rich_graph.Edge.{
  EdgeBody, edge_body, get_dst, get_seq, get_marker, body_bytes, read_uint32, dst_of_bytes,
  seq_of_bytes, marker_of_bytes,
}

-- Each field of the body fits into its type.
pub record InRange (e : EdgeBody) : Type 0 where
  pub prop_pointer : e.prop_pointer < 2 ^ 32
  pub dst_low : e.dst_low < 2 ^ 32
  pub seq_low : e.seq_low < 2 ^ 32
  pub dst_high : e.dst_high < 2 ^ 16
  pub seq_high : e.seq_high < 2 ^ 16

read_uint32-encode_le :
    (v : ℕ) (rest : List ℕ) → v < 2 ^ 32 → read_uint32 (encode_le 4 v ++ rest) ≡ v
read_uint32-encode_le v rest h =
    ap decode_le (take_append (encode_le 4 v) rest 4 (sym (length-encode_le 4 v)))
    ∙ decode_le-encode_le 4 v (omega (arith, h))

-- The two halves at the end are read as one word.
high_halves :
    (a b : ℕ) (rest : List ℕ)
    → a < 2 ^ 16
    → b < 2 ^ 16
    → read_uint32 (encode_le 2 a ++ (encode_le 2 b ++ rest)) ≡ a + b * 2 ^ 16
unfolding encode_le decode_le
high_halves a b rest h k = omega (arith, h, k)

module _ (e : EdgeBody) (rest : List ℕ) (fits : InRange e) where
  -- For a body whose fields fit into their types, followed by any other bytes, the readers of the
  -- bytes give the destination, the sequence and the marker that the body has.
  pub bytes_read_back :
      (dst_of_bytes (body_bytes e ++ rest) ≡ get_dst e)
      × (seq_of_bytes (body_bytes e ++ rest) ≡ get_seq e)
      × (marker_of_bytes (body_bytes e ++ rest) ≡ get_marker e)
  unfolding dst_of_bytes seq_of_bytes marker_of_bytes body_bytes encode_fields encode_le get_dst
      get_seq get_marker
  bytes_read_back =
      let bytes = body_bytes e ++ rest in
      let halves = encode_le 2 e.dst_high ++ (encode_le 2 e.seq_high ++ rest) in
      let last = encode_le 4 e.seq_low ++ halves in
      let pointer : read_uint32 bytes ≡ e.prop_pointer =
        read_uint32-encode_le e.prop_pointer (encode_le 4 e.dst_low ++ last) fits.prop_pointer in
      let low : read_uint32 (drop 4 bytes) ≡ e.dst_low =
        read_uint32-encode_le e.dst_low last fits.dst_low in
      let seq : read_uint32 (drop 8 bytes) ≡ e.seq_low =
        read_uint32-encode_le e.seq_low halves fits.seq_low in
      let high : read_uint32 (drop 12 bytes) ≡ e.dst_high + e.seq_high * 2 ^ 16 =
        high_halves e.dst_high e.seq_high rest fits.dst_high fits.seq_high in
      (
        ap₂ (λ x y. x + y % 2 ^ 16 * 2 ^ 32) low high ∙ omega (arith, fits.dst_high, fits.seq_high),
        ap₂ (λ x y. x + y / 2 ^ 16 % 2 ^ 16 * 2 ^ 32) seq high
            ∙ omega (arith, fits.dst_high, fits.seq_high),
        ap (λ x. x / 2 ^ 31 % 2 == 1) pointer,
      )

body_of-InRange :
    (dst seq offset edge_type : ℕ) (marker is_out : Bool)
    → dst < 2 ^ 48
    → seq < 2 ^ 48
    → offset < 2 ^ 22
    → edge_type < 2 ^ 8
    → InRange (body_of dst seq offset marker is_out edge_type)
body_of-InRange dst seq offset edge_type marker is_out a b c d = record {
  prop_pointer = omega (arith, flag_bit_lt marker, flag_bit_lt is_out);
  dst_low = omega arith;
  seq_low = omega arith;
  dst_high = omega arith;
  seq_high = omega arith;
}

-- For a destination and a sequence below 2 ^ 48, an offset below 2 ^ 22 and an edge type below 2 ^
-- 8, the assertions of the constructor hold, and get_dst, get_seq and get_marker on the bytes of
-- the body that it makes, with any bytes behind them, give the destination, the sequence and the
-- marker.
pub stored_edge :
    (dst seq offset edge_type : ℕ) (marker is_out : Bool) (memory : EdgeBody) (rest : List ℕ)
    → dst < 2 ^ 48
    → seq < 2 ^ 48
    → offset < 2 ^ 22
    → edge_type < 2 ^ 8
    → (e : EdgeBody) × (edge_body dst seq offset marker is_out edge_type memory ≡ some e)
      × (dst_of_bytes (body_bytes e ++ rest) ≡ dst)
      × (seq_of_bytes (body_bytes e ++ rest) ≡ seq)
      × (marker_of_bytes (body_bytes e ++ rest) ≡ marker)
unfolding get_dst get_seq get_marker
stored_edge dst seq offset edge_type marker is_out memory rest a b c d =
    let e = body_of dst seq offset marker is_out edge_type in
    let fits = body_of-InRange dst seq offset edge_type marker is_out a b c d in
    let (dst_back, seq_back, marker_back) = bytes_read_back e rest fits in
    let (dst_kept, seq_kept, marker_kept) =
      body_of_fields dst seq offset edge_type marker is_out c d in
    (
      e,
      edge_body-body_of dst seq offset edge_type marker is_out memory a b c d,
      dst_back ∙ dst_kept,
      seq_back ∙ seq_kept,
      marker_back ∙ marker_kept,
    )
