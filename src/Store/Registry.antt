-- ===== src/Store/Registry.antt =====
-- src/property_delta_store.cpp: the registry of chains as a map.
use rich_graph.Base.{
  Bool, true, false, Option, some, List, [], ◌∷◌, ◌≡◌, refl, arith, ◌||◌, if◌then◌else◌, Bool-cases,
  inl, inr,
}
use rich_graph.Delta.{PropertyDeltaTarget, target_eq}
use rich_graph.Store.{
  Chain, PropertyDeltaStore, find_chain, set_chain, chain_at, get_or_create_chain, contains_id,
  schedule_if, schedule_merge,
}

target_eq_right :
    (a b k : PropertyDeltaTarget) → target_eq a b ≡ true → target_eq a k ≡ target_eq b k
target_eq_right a b k h = ground arith

target_eq_apart :
    (a b k : PropertyDeltaTarget)
    → target_eq a b ≡ false
    → target_eq b k ≡ true
    → target_eq a k ≡ false
target_eq_apart a b k h e = ground arith

pub target_eq_refl : (t : PropertyDeltaTarget) → target_eq t t ≡ true
target_eq_refl t = ground arith

-- Two tests that do not both hold may be made in either order.
swap_chain_tests :
    (p q : Bool) (x y z : Option Chain)
    → (q ≡ true → p ≡ false)
    → (if p then x else if q then y else z) ≡ (if q then y else if p then x else z)
swap_chain_tests true true x y z h = absurd (ground (arith, h refl))
swap_chain_tests true false x y z h = refl
swap_chain_tests false q x y z h = refl

pub find_chain-set_chain :
    (t k : PropertyDeltaTarget) (c : Chain) (chains : List (PropertyDeltaTarget × Chain))
    → find_chain k (set_chain t c chains) ≡ (if target_eq t k then some c else find_chain k chains)
unfolding find_chain set_chain
find_chain-set_chain t k c [] = refl
find_chain-set_chain t k c ((t', d) ∷ chains) = elim (Bool-cases (target_eq t' t)) [
  | inl e ↦ rw (e, target_eq_right t' t k e) (ground arith)
  | inr e ↦
      rw (e, find_chain-set_chain t k c chains)
        (swap_chain_tests (target_eq t' k) (target_eq t k) (some d) (some c) (find_chain k chains)
          (target_eq_apart t' t k e))
]

pub find_chain_self :
    (t : PropertyDeltaTarget) (c : Chain) (chains : List (PropertyDeltaTarget × Chain))
    → find_chain t (set_chain t c chains) ≡ some c
find_chain_self t c chains = rw (find_chain-set_chain t t c chains, target_eq_refl t) refl

pub find_chain-other :
    (t k : PropertyDeltaTarget) (c : Chain) (chains : List (PropertyDeltaTarget × Chain))
    → target_eq t k ≡ false
    → find_chain k (set_chain t c chains) ≡ find_chain k chains
find_chain-other t k c chains e = rw (find_chain-set_chain t k c chains, e) refl

pub schedule_if-registry :
    (b : Bool) (t : PropertyDeltaTarget) (s : PropertyDeltaStore)
    → (schedule_if b t s).registry ≡ s.registry
unfolding schedule_merge
schedule_if-registry true t s = refl
schedule_if-registry false t s = refl

-- The chain that GetOrCreateChain returns has the view that the target had.
pub get_or_create_chain_self :
    (t : PropertyDeltaTarget) (persistent : Bool) (s : PropertyDeltaStore)
    → find_chain t (get_or_create_chain t persistent s).registry
      ≡ some (record (chain_at t s) {
        target_is_persistent =
            (persistent || contains_id t.base_file_id s.persistent_base_files)
            || (chain_at t s).target_is_persistent;
      })
unfolding get_or_create_chain
get_or_create_chain_self t persistent s = find_chain_self t _ s.registry

pub get_or_create_chain-other :
    (t k : PropertyDeltaTarget) (persistent : Bool) (s : PropertyDeltaStore)
    → target_eq t k ≡ false
    → find_chain k (get_or_create_chain t persistent s).registry ≡ find_chain k s.registry
unfolding get_or_create_chain
get_or_create_chain-other t k persistent s e = find_chain-other t k _ s.registry e
