-- ===== src/Updates/Pending.antt =====
-- src/property_update_manager.cpp: what PublishPending and RetirePending do to a lookup.
use rich_graph.Base.{
  ℕ, ◌+◌, Bool, true, false, Option, none, some, List, [], ◌∷◌, ◌==◌, leb, ◌&&◌, ◌||◌, not,
  if◌then◌else◌, ◌≡◌, refl, sym, ap, ◌∙◌, arith, Bool-cases, Option-cases, inl, inr,
}
use rich_graph.Updates.{
  BufferedPropertyUpdate, PendingKey, PendingValue, key_eq, make_pending_key, find, assign, erase,
  pending_value, publish_pending, retire_one,
}

key_eq_right : (a b k : PendingKey) → key_eq a b ≡ true → key_eq a k ≡ key_eq b k
key_eq_right a b k h = ground arith

key_eq_apart : (a b k : PendingKey) → key_eq a b ≡ false → key_eq b k ≡ true → key_eq a k ≡ false
key_eq_apart a b k h e = ground arith

-- Two tests that do not both hold may be made in either order.
swap_tests :
    (p q : Bool) (x y z : Option PendingValue)
    → (q ≡ true → p ≡ false)
    → (if p then x else if q then y else z) ≡ (if q then y else if p then x else z)
swap_tests true true x y z h = absurd (ground (arith, h refl))
swap_tests true false x y z h = refl
swap_tests false q x y z h = refl

key_eq_left : (a b k : PendingKey) → key_eq a b ≡ true → key_eq k a ≡ key_eq k b
key_eq_left a b k h = ground arith

find_same :
    (a b : PendingKey) (pending : List (PendingKey × PendingValue))
    → key_eq a b ≡ true
    → find a pending ≡ find b pending
unfolding find
find_same a b [] h = refl
find_same a b ((k, v) ∷ pending) h = rw (key_eq_left a b k h, find_same a b pending h) refl

pub key_eq_refl : (k : PendingKey) → key_eq k k ≡ true
key_eq_refl k = ground arith

pub find-assign :
    (key k : PendingKey) (v : PendingValue) (pending : List (PendingKey × PendingValue))
    → find k (assign key v pending) ≡ (if key_eq key k then some v else find k pending)
unfolding find assign
find-assign key k v [] = refl
find-assign key k v ((k', w) ∷ pending) = elim (Bool-cases (key_eq k' key)) [
  | inl e ↦ rw (e, key_eq_right k' key k e) (ground arith)
  | inr e ↦
      rw (e, find-assign key k v pending)
        (swap_tests (key_eq k' k) (key_eq key k) (some w) (some v) (find k pending)
          (key_eq_apart k' key k e))
]

pub find-erase :
    (key k : PendingKey) (pending : List (PendingKey × PendingValue))
    → find k (erase key pending) ≡ (if key_eq key k then none else find k pending)
unfolding find erase
find-erase key k [] = ground arith
find-erase key k ((k', w) ∷ pending) = elim (Bool-cases (key_eq k' key)) [
  | inl e ↦ rw (e, key_eq_right k' key k e, find-erase key k pending) (ground arith)
  | inr e ↦
      rw (e, find-erase key k pending)
        (swap_tests (key_eq k' k) (key_eq key k) (some w) none (find k pending)
          (key_eq_apart k' key k e))
]

-- The commit sequence that a reader of the pending values sees for a key is not below `commit`.
abbrev pub at_least : ℕ → Option PendingValue → Bool
at_least commit none = false
at_least commit (some v) = leb commit v.commit_sequence

-- After PublishPending a lookup of the key of the update finds the update, unless a later one was
-- pending, and lookups of other keys find what they found before.
pub find-publish_pending :
    (u : BufferedPropertyUpdate) (k : PendingKey) (pending : List (PendingKey × PendingValue))
    → find k (publish_pending u pending) ≡ (
        if key_eq (make_pending_key u) k
          && not (at_least (u.entry.commit_sequence + 1) (find (make_pending_key u) pending))
        then some (pending_value u.entry)
        else find k pending)
unfolding publish_pending
find-publish_pending u k pending = elim (Option-cases (find (make_pending_key u) pending)) [
  | inl e ↦
      rw (e, find-assign (make_pending_key u) k (pending_value u.entry) pending) (ground arith)
  | inr (v, e) ↦ elim (Bool-cases (leb v.commit_sequence u.entry.commit_sequence)) [
    | inl l ↦
        rw (e, l, find-assign (make_pending_key u) k (pending_value u.entry) pending) (ground arith)
    | inr l ↦ rw (e, l) (ground arith)
  ]
]

over :
    (o : Option PendingValue) (c : ℕ) (v : PendingValue) (commit : ℕ)
    → v.commit_sequence ≡ c
    → at_least commit o ≡ true
    → at_least commit (if not (at_least (c + 1) o) then some v else o) ≡ true
over none c v commit e h = ground arith
over (some w) c v commit e h = ground arith

-- Publishing never lowers what a reader sees.
pub publish_pending-at_least :
    (u : BufferedPropertyUpdate) (k : PendingKey) (pending : List (PendingKey × PendingValue))
    (commit : ℕ)
    → at_least commit (find k pending) ≡ true
    → at_least commit (find k (publish_pending u pending)) ≡ true
publish_pending-at_least u k pending commit h =
    rw (find-publish_pending u k pending) (elim (Bool-cases (key_eq (make_pending_key u) k)) [
      | inr e ↦ rw e h
      | inl e ↦
          rw (e, find_same (make_pending_key u) k pending e)
            (over (find k pending) u.entry.commit_sequence (pending_value u.entry) commit refl h)
    ])

-- Afterwards a reader sees the update or a later one.
pub publish_pending-published :
    (u : BufferedPropertyUpdate) (pending : List (PendingKey × PendingValue))
    → at_least u.entry.commit_sequence (find (make_pending_key u) (publish_pending u pending))
      ≡ true
publish_pending-published u pending =
    rw (find-publish_pending u (make_pending_key u) pending, key_eq_refl (make_pending_key u))
      (seen (find (make_pending_key u) pending))
  where
    seen :
        (o : Option PendingValue)
        → at_least u.entry.commit_sequence (
            if not (at_least (u.entry.commit_sequence + 1) o)
            then some (pending_value u.entry)
            else o)
          ≡ true
    seen none = ground arith
    seen (some w) = ground arith

-- What a reader of the delta files sees of the updates that the flush callback has taken.
unfoldable pub has_published : PendingKey → ℕ → List BufferedPropertyUpdate → Bool
has_published key commit [] = false
has_published key commit (u ∷ published) =
    (key_eq (make_pending_key u) key && leb commit u.entry.commit_sequence)
    || has_published key commit published

-- A value that one retirement takes away is that of the retired update.
pub retire_one-at_least :
    (u : BufferedPropertyUpdate) (k : PendingKey) (pending : List (PendingKey × PendingValue))
    (commit : ℕ)
    → at_least commit (find k pending) ≡ true
    → (at_least commit (find k (retire_one u pending))
        || (key_eq (make_pending_key u) k && leb commit u.entry.commit_sequence))
      ≡ true
unfolding retire_one
retire_one-at_least u k pending commit h = elim (Option-cases (find (make_pending_key u) pending)) [
  | inl e ↦ rw (e, h) refl
  | inr (v, e) ↦ elim (Bool-cases (v.commit_sequence == u.entry.commit_sequence)) [
    | inr l ↦ rw (e, l, h) refl
    | inl l ↦
        rw (e, l, find-erase (make_pending_key u) k pending)
          (elim (Bool-cases (key_eq (make_pending_key u) k)) [
            | inr a ↦ rw (a, h) refl
            | inl a ↦ rw a (
                let seen : at_least commit (some v) ≡ true =
                  ap (at_least commit) (sym e ∙ find_same (make_pending_key u) k pending a) ∙ h in
                ground arith)
          ])
  ]
]
