-- ===== src/Payload/Laws.antt =====
-- src/graph_db.cpp and src/lsmstore.cpp: a property is taken out of the payload that was built.
use rich_graph.Base.{
  ℕ, zero, suc, false, Option, some, List, [], ◌∷◌, ◌++◌, All, get_elem?, ◌==◌, ◌≡◌, refl, ap, ◌∙◌,
  pos,
}
use rich_graph.Payload.{
  shard_values, join_values, segment, behind_bar, extract_segment, value_or_empty,
  build_shard_property_string, extract_sub_property,
}

abbrev pub NoBar : List ℕ → Type 0
NoBar [] = Unit {0}
NoBar (c ∷ cs) = ((c == b'|') ≡ false) × NoBar cs

segment_alone : (v : List ℕ) → NoBar v → segment v ≡ v
unfolding segment
segment_alone [] h = refl
segment_alone (c ∷ cs) (a, h) = rw (a, segment_alone cs h) refl

segment-append : (v rest : List ℕ) → NoBar v → segment (v ++ (b'|' ∷ rest)) ≡ v
unfolding segment
segment-append [] rest h = refl
segment-append (c ∷ cs) rest (a, h) = rw (a, segment-append cs rest h) refl

behind_bar-append : (v rest : List ℕ) → NoBar v → behind_bar (v ++ (b'|' ∷ rest)) ≡ some rest
unfolding behind_bar
behind_bar-append [] rest h = refl
behind_bar-append (c ∷ cs) rest (a, h) = rw (a, behind_bar-append cs rest h) refl

some_value : (v w : List ℕ) → some v ≡ some w → v ≡ w
some_value v w e = cc

extract_segment-join_values :
    (vs : List (List ℕ)) (i : ℕ) (v : List ℕ)
    → All NoBar vs
    → get_elem? vs i ≡ some v
    → extract_segment i (join_values vs) ≡ v
unfolding extract_segment join_values
extract_segment-join_values [] i v h e = cc
extract_segment-join_values (x ∷ []) zero v (a, h) e = segment_alone x a ∙ some_value x v e
extract_segment-join_values (x ∷ []) (suc i) v (a, h) e = cc
extract_segment-join_values (x ∷ w ∷ vs) zero v (a, h) e =
    segment-append x (join_values (w ∷ vs)) a ∙ some_value x v e
extract_segment-join_values (x ∷ w ∷ vs) (suc i) v (a, h) e =
    rw (behind_bar-append x (join_values (w ∷ vs)) a) (extract_segment-join_values (w ∷ vs) i v h e)

get_elem?-shard_values :
    (names : List (List ℕ)) (incoming : List ℕ → Option (List ℕ)) (i : ℕ) (name : List ℕ)
    → get_elem? names i ≡ some name
    → get_elem? (shard_values names incoming) i ≡ some (value_or_empty (incoming name))
unfolding shard_values
get_elem?-shard_values [] incoming i name e = cc
get_elem?-shard_values (n ∷ ns) incoming zero name e =
    ap (λ m. some (value_or_empty (incoming m))) (some_value n name e)
get_elem?-shard_values (n ∷ ns) incoming (suc i) name e =
    get_elem?-shard_values ns incoming i name e

-- When no value has a bar in it, ExtractSubProperty takes the value of the property at each place
-- of the shard out of the payload that BuildShardPropertyString makes, and nothing for a property
-- that was not given.
pub extract_sub_property-build_shard_property_string :
    (names : List (List ℕ)) (incoming : List ℕ → Option (List ℕ)) (i : ℕ) (name : List ℕ)
    → All NoBar (shard_values names incoming)
    → get_elem? names i ≡ some name
    → extract_sub_property (build_shard_property_string names incoming) (pos i)
      ≡ value_or_empty (incoming name)
extract_sub_property-build_shard_property_string names incoming i name h e =
    extract_segment-join_values (shard_values names incoming) i _ h
      (get_elem?-shard_values names incoming i name e)
