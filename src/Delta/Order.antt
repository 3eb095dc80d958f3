-- ===== src/Delta/Order.antt =====
-- src/property_delta.cpp: CompareLogicalKey, RecordLess, SameVersion and CompareDiskLogicalKey.
-- A result of -1, 0 or 1 is `lt`, `eq` or `gt`.
use Prim.Native.Nat.{Ordering}
use rich_graph.Base.{
  ℤ, pos, Bool, not, List, [], ◌∷◌, ◌≡◌, ltb, ◌==◌, lt_ℤ, eq_ℤ, if◌then◌else◌, ◌&&◌, arith, lex,
  is_lt, is_eq,
}
use rich_graph.Delta.{PropertyDeltaRecord, DeltaDiskRecord, LogicalKey, direction}

unfoldable pub compare_logical_key : PropertyDeltaRecord → PropertyDeltaRecord → Ordering
compare_logical_key lhs rhs =
    if not (lhs.src == rhs.src)
    then if ltb lhs.src rhs.src then Ordering.lt else Ordering.gt
    else if not (lhs.dst == rhs.dst)
    then if ltb lhs.dst rhs.dst then Ordering.lt else Ordering.gt
    else if not (direction lhs.is_out == direction rhs.is_out)
    then if lhs.is_out then Ordering.gt else Ordering.lt
    else if not (lhs.edge_type == rhs.edge_type)
    then if ltb lhs.edge_type rhs.edge_type then Ordering.lt else Ordering.gt
    else if not (eq_ℤ lhs.base_sequence rhs.base_sequence)
    then if lt_ℤ lhs.base_sequence rhs.base_sequence then Ordering.lt else Ordering.gt
    else Ordering.eq

unfoldable pub record_less : PropertyDeltaRecord → PropertyDeltaRecord → Bool
unfolding compare_logical_key
record_less lhs rhs =
    let key_comparison = compare_logical_key lhs rhs in
    if not (is_eq key_comparison)
    then is_lt key_comparison
    else ltb lhs.commit_sequence rhs.commit_sequence

unfoldable pub same_version : PropertyDeltaRecord → PropertyDeltaRecord → Bool
unfolding compare_logical_key
same_version lhs rhs =
    is_eq (compare_logical_key lhs rhs) && lhs.commit_sequence == rhs.commit_sequence

unfoldable pub compare_disk_logical_key : DeltaDiskRecord → LogicalKey → Ordering
compare_disk_logical_key r k =
    if not (r.src == k.src)
    then if ltb r.src k.src then Ordering.lt else Ordering.gt
    else if not (r.dst == k.dst)
    then if ltb r.dst k.dst then Ordering.lt else Ordering.gt
    else if not (r.is_out == direction k.is_out)
    then if ltb r.is_out (direction k.is_out) then Ordering.lt else Ordering.gt
    else if not (r.edge_type == k.edge_type)
    then if ltb r.edge_type k.edge_type then Ordering.lt else Ordering.gt
    else if not (eq_ℤ r.base_sequence k.base_sequence)
    then if lt_ℤ r.base_sequence k.base_sequence then Ordering.lt else Ordering.gt
    else Ordering.eq

-- The fields of a key in the order in which they are compared.
abbrev pub key_list : LogicalKey → List ℤ
key_list k =
    pos k.src ∷ pos k.dst ∷ pos (direction k.is_out) ∷ pos k.edge_type ∷ k.base_sequence ∷ []

abbrev pub logical_key : PropertyDeltaRecord → LogicalKey
logical_key r = record {
  src = r.src;
  dst = r.dst;
  base_sequence = r.base_sequence;
  is_out = r.is_out;
  edge_type = r.edge_type;
}

abbrev pub version_list : PropertyDeltaRecord → List ℤ
version_list r =
    pos r.src
    ∷ pos r.dst
    ∷ pos (direction r.is_out)
    ∷ pos r.edge_type
    ∷ r.base_sequence
    ∷ pos r.commit_sequence
    ∷ []

abbrev pub disk_key_list : DeltaDiskRecord → List ℤ
disk_key_list r = pos r.src ∷ pos r.dst ∷ pos r.is_out ∷ pos r.edge_type ∷ r.base_sequence ∷ []

pub compare_logical_key-lex :
    (a b : PropertyDeltaRecord)
    → compare_logical_key a b ≡ lex (key_list (logical_key a)) (key_list (logical_key b))
unfolding compare_logical_key lex
compare_logical_key-lex a b = ground arith

pub record_less-lex :
    (a b : PropertyDeltaRecord) → record_less a b ≡ is_lt (lex (version_list a) (version_list b))
unfolding record_less lex
record_less-lex a b = ground arith

pub same_version-lex :
    (a b : PropertyDeltaRecord) → same_version a b ≡ is_eq (lex (version_list a) (version_list b))
unfolding same_version lex
same_version-lex a b = ground arith

pub compare_disk_logical_key-lex :
    (r : DeltaDiskRecord) (k : LogicalKey)
    → compare_disk_logical_key r k ≡ lex (disk_key_list r) (key_list k)
unfolding compare_disk_logical_key lex
compare_disk_logical_key-lex r k = ground arith
