-- ===== src/Payload.antt =====
-- src/graph_db.cpp: BuildShardPropertyString, and src/lsmstore.cpp: ExtractSubProperty. The incoming
-- properties are a function from names to values.
pub mod Laws
use rich_graph.Base.{
  ℕ, zero, suc, Bool, true, false, Option, none, some, List, [], ◌∷◌, ◌++◌, ◌==◌, if◌then◌else◌, ℤ,
  pos, negsuc,
}

abbrev pub value_or_empty : Option (List ℕ) → List ℕ
value_or_empty none = []
value_or_empty (some value) = value

unfoldable pub shard_values : List (List ℕ) → (List ℕ → Option (List ℕ)) → List (List ℕ)
shard_values [] incoming = []
shard_values (name ∷ names) incoming = value_or_empty (incoming name) ∷ shard_values names incoming

-- A bar stands before every value but the first.
unfoldable pub join_values : List (List ℕ) → List ℕ
join_values [] = []
join_values (v ∷ []) = v
join_values (v ∷ w ∷ vs) = v ++ (b'|' ∷ join_values (w ∷ vs))

abbrev pub build_shard_property_string : List (List ℕ) → (List ℕ → Option (List ℕ)) → List ℕ
build_shard_property_string names incoming = join_values (shard_values names incoming)

-- The segment that begins here, and what stands behind its bar.
unfoldable pub segment : List ℕ → List ℕ
segment [] = []
segment (c ∷ cs) = let rest = segment cs in if c == b'|' then [] else c ∷ rest

unfoldable pub behind_bar : List ℕ → Option (List ℕ)
behind_bar [] = none
behind_bar (c ∷ cs) = let rest = behind_bar cs in if c == b'|' then some cs else rest

abbrev pub and_extract : Option (List ℕ) → (List ℕ → List ℕ) → List ℕ
and_extract none next = []
and_extract (some cs) next = next cs

unfoldable pub extract_segment : ℕ → List ℕ → List ℕ
extract_segment zero payload = segment payload
extract_segment (suc n) payload = and_extract (behind_bar payload) (extract_segment n)

abbrev pub extract_sub_property : List ℕ → ℤ → List ℕ
extract_sub_property payload (negsuc n) = payload
extract_sub_property payload (pos id) = extract_segment id payload
