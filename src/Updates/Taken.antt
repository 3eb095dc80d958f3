-- ===== src/Updates/Taken.antt =====
-- src/property_update_manager.cpp: the groups that FlushBuffer makes of the updates of a buffer hold all
-- of them.
use rich_graph.Base.{
  ℕ, Bool, true, false, List, [], ◌∷◌, ◌++◌, ◌||◌, ◌&&◌, leb, ◌≡◌, arith, Bool-cases, inl, inr,
}
use rich_graph.Delta.{PropertyDeltaRecord, PropertyDeltaTarget, target_eq}
use rich_graph.Updates.{BufferedPropertyUpdate, PendingKey, key_eq, make_pending_key}
use rich_graph.Updates.Pending.{has_published}
use rich_graph.Updates.Worker.{Group, add_to_groups, group_updates}

-- The key of a record in a delta file of the target.
abbrev pub record_key : PropertyDeltaTarget → PropertyDeltaRecord → PendingKey
record_key target r = record {
  kind = target.kind;
  shard_id = target.shard_id;
  property_id = target.property_id;
  src = r.src;
  dst = r.dst;
  is_out = r.is_out;
  edge_type = r.edge_type;
}

unfoldable pub has_record : PendingKey → ℕ → PropertyDeltaTarget → List PropertyDeltaRecord → Bool
has_record key commit target [] = false
has_record key commit target (r ∷ records) =
    (key_eq (record_key target r) key && leb commit r.commit_sequence)
    || has_record key commit target records

-- A record of the key at the commit sequence or a later one is in what the callback was given.
unfoldable pub has_taken : PendingKey → ℕ → List Group → Bool
has_taken key commit [] = false
has_taken key commit (g ∷ groups) =
    has_record key commit g.target g.records || has_taken key commit groups

module _ (k : PendingKey) (c : ℕ) where
  has_record-snoc :
      (t : PropertyDeltaTarget) (rs : List PropertyDeltaRecord) (r : PropertyDeltaRecord)
      → has_record k c t (rs ++ (r ∷ []))
        ≡ (has_record k c t rs || (key_eq (record_key t r) k && leb c r.commit_sequence))
  unfolding has_record
  has_record-snoc t [] r = ground arith
  has_record-snoc t (x ∷ rs) r = ground (arith, has_record-snoc t rs r)

  same_target :
      (t t' : PropertyDeltaTarget) (r : PropertyDeltaRecord)
      → target_eq t t' ≡ true
      → key_eq (record_key t r) k ≡ key_eq (record_key t' r) k
  same_target t t' r h = ground arith

  has_taken-add_to_groups :
      (u : BufferedPropertyUpdate) (gs : List Group)
      → has_taken k c (add_to_groups u gs)
        ≡ (has_taken k c gs || (key_eq (make_pending_key u) k && leb c u.entry.commit_sequence))
  unfolding has_taken add_to_groups has_record
  has_taken-add_to_groups u [] = ground arith
  has_taken-add_to_groups u (g ∷ gs) = elim (Bool-cases (target_eq g.target u.target)) [
    | inl e ↦
        rw (e, has_record-snoc g.target g.records u.entry, same_target g.target u.target u.entry e)
          (ground arith)
    | inr e ↦ rw (e, has_taken-add_to_groups u gs) (ground arith)
  ]

  pub has_taken-group_updates :
      (us : List BufferedPropertyUpdate) (gs : List Group)
      → has_taken k c (group_updates us gs) ≡ (has_taken k c gs || has_published k c us)
  unfolding group_updates has_published
  has_taken-group_updates [] gs = ground arith
  has_taken-group_updates (u ∷ us) gs =
      rw (has_taken-group_updates us (add_to_groups u gs), has_taken-add_to_groups u gs)
        (ground arith)
