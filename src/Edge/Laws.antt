-- ===== src/Edge/Laws.antt =====
-- core/graph/edge.h: the fields of an edge body do not overlap, and its bytes are read back.
use rich_graph.Base.{
  ℕ, ◌+◌, ◌*◌, ◌/◌, ◌%◌, ◌^◌, ◌<◌, Bool, ◌≡◌, ap, ◌∙◌, arith, ◌==◌, some, leb, true, ◌-◌,
}
use rich_graph.Edge.{
  EdgeBody, flag_bit, set_dst, get_dst, set_seq, get_seq, set_offset, get_offset, set_marker,
  get_marker, set_is_out, get_is_out, set_edge_type, get_edge_type, edge_body,
}

bit_of : (b : Bool) → (flag_bit b == 1) ≡ b
bit_of b = ground arith

-- The place of each field in `prop_pointer`.
abbrev pub packed : ℕ → ℕ → ℕ → ℕ → ℕ
packed offset edge_type o k = offset + edge_type * 2 ^ 22 + o * 2 ^ 30 + k * 2 ^ 31

packed_fields :
    (offset edge_type o k : ℕ)
    → offset < 2 ^ 22
    → edge_type < 2 ^ 8
    → o < 2
    → k < 2
    → let p = packed offset edge_type o k in
      (p % 2 ^ 22 ≡ offset)
      × (p / 2 ^ 22 % 2 ^ 8 ≡ edge_type)
      × (p / 2 ^ 30 % 2 ≡ o)
      × (p / 2 ^ 31 % 2 ≡ k)
packed_fields offset edge_type o k a b c d = (omega arith, omega arith, omega arith, omega arith)

pub flag_bit_lt : (b : Bool) → flag_bit b < 2
flag_bit_lt b = ground arith

-- What the setters make of a `prop_pointer` of 0.
prop_pointer_of :
    (offset edge_type : ℕ) (marker is_out : Bool)
    → offset < 2 ^ 22
    → edge_type < 2 ^ 8
    → (set_edge_type edge_type (
        set_is_out is_out (
          set_marker marker (
            set_offset offset (record {
              prop_pointer = 0;
              dst_low = 0;
              seq_low = 0;
              dst_high = 0;
              seq_high = 0;
            }))))).prop_pointer
      ≡ packed offset edge_type (flag_bit is_out) (flag_bit marker)
unfolding set_offset set_marker set_is_out set_edge_type
prop_pointer_of offset edge_type marker is_out a b =
    omega (arith, flag_bit_lt marker, flag_bit_lt is_out)

-- The body that the constructor makes, field by field.
abbrev pub body_of : ℕ → ℕ → ℕ → Bool → Bool → ℕ → EdgeBody
body_of dst seq offset marker is_out edge_type = record {
  prop_pointer = packed offset edge_type (flag_bit is_out) (flag_bit marker);
  dst_low = dst % 2 ^ 32;
  seq_low = seq % 2 ^ 32;
  dst_high = dst / 2 ^ 32;
  seq_high = seq / 2 ^ 32;
}

pub edge_body-body_of :
    (dst seq offset edge_type : ℕ) (marker is_out : Bool) (memory : EdgeBody)
    → dst < 2 ^ 48
    → seq < 2 ^ 48
    → offset < 2 ^ 22
    → edge_type < 2 ^ 8
    → edge_body dst seq offset marker is_out edge_type memory
      ≡ some (body_of dst seq offset marker is_out edge_type)
unfolding edge_body set_dst set_seq set_offset set_marker set_is_out set_edge_type
edge_body-body_of dst seq offset edge_type marker is_out memory a b c d =
    let dst_fits : leb dst ((2 ^ 16 - 1) * 2 ^ 32 + (2 ^ 32 - 1)) ≡ true = ground (arith, a) in
    let seq_fits : leb seq ((2 ^ 16 - 1) * 2 ^ 32 + (2 ^ 32 - 1)) ≡ true = ground (arith, b) in
    let place = prop_pointer_of offset edge_type marker is_out c d in
    let dst_top : dst / 2 ^ 32 % 2 ^ 16 ≡ dst / 2 ^ 32 = omega (arith, a) in
    let seq_top : seq / 2 ^ 32 % 2 ^ 16 ≡ seq / 2 ^ 32 = omega (arith, b) in
    rw (dst_fits, seq_fits, dst_top, seq_top)
      (ap
        (λ p. some (record {
          prop_pointer = p;
          dst_low = dst % 2 ^ 32;
          seq_low = seq % 2 ^ 32;
          dst_high = dst / 2 ^ 32;
          seq_high = seq / 2 ^ 32;
        }))
        place)

pub body_of_fields :
    (dst seq offset edge_type : ℕ) (marker is_out : Bool)
    → offset < 2 ^ 22
    → edge_type < 2 ^ 8
    → let e = body_of dst seq offset marker is_out edge_type in
      (get_dst e ≡ dst) × (get_seq e ≡ seq) × (get_marker e ≡ marker)
unfolding get_dst get_seq get_marker
body_of_fields dst seq offset edge_type marker is_out c d =
    let (_, _, _, p3) =
      packed_fields offset edge_type (flag_bit is_out) (flag_bit marker) c d (flag_bit_lt is_out)
        (flag_bit_lt marker) in
    (omega arith, omega arith, ap (λ x. x == 1) p3 ∙ bit_of marker)

-- On a body whose prop_pointer is a 32-bit word, setting the marker, the direction, an edge type
-- below 2 ^ 8 or an offset below 2 ^ 22 changes that field to the value given and none of the
-- other three.
pub setters_separate :
    (e : EdgeBody) (b : Bool) (edge_type offset : ℕ)
    → e.prop_pointer < 2 ^ 32
    → edge_type < 2 ^ 8
    → offset < 2 ^ 22
    → ((get_marker (set_marker b e) ≡ b)
        × (get_is_out (set_marker b e) ≡ get_is_out e)
        × (get_edge_type (set_marker b e) ≡ get_edge_type e)
        × (get_offset (set_marker b e) ≡ get_offset e))
      × ((get_is_out (set_is_out b e) ≡ b)
          × (get_marker (set_is_out b e) ≡ get_marker e)
          × (get_edge_type (set_is_out b e) ≡ get_edge_type e)
          × (get_offset (set_is_out b e) ≡ get_offset e))
      × ((get_edge_type (set_edge_type edge_type e) ≡ edge_type)
          × (get_marker (set_edge_type edge_type e) ≡ get_marker e)
          × (get_is_out (set_edge_type edge_type e) ≡ get_is_out e)
          × (get_offset (set_edge_type edge_type e) ≡ get_offset e))
      × ((get_offset (set_offset offset e) ≡ offset)
          × (get_marker (set_offset offset e) ≡ get_marker e)
          × (get_is_out (set_offset offset e) ≡ get_is_out e)
          × (get_edge_type (set_offset offset e) ≡ get_edge_type e))
unfolding get_offset get_edge_type get_is_out get_marker set_offset set_edge_type set_is_out
    set_marker
setters_separate e b edge_type offset fits t o =
    let bit = flag_bit_lt b in
    let same = bit_of b in
    let p = e.prop_pointer in
    (
      (
        ap (λ x. x == 1) (omega (arith, bit)) ∙ same,
        ap (λ x. x == 1) (omega (arith, bit)),
        omega (arith, bit),
        omega (arith, bit),
      ),
      (
        ap (λ x. x == 1) (omega (arith, bit)) ∙ same,
        ap (λ x. x == 1) (omega (arith, bit)),
        omega (arith, bit),
        omega (arith, bit),
      ),
      (omega arith, ap (λ x. x == 1) (omega arith), ap (λ x. x == 1) (omega arith), omega arith),
      (omega arith, ap (λ x. x == 1) (omega arith), ap (λ x. x == 1) (omega arith), omega arith),
    )
