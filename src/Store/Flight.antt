-- ===== src/Store/Flight.antt =====
-- src/property_delta_store.cpp: each operation against the merges that wait or run.
use rich_graph.Base.{
  ℕ, ◌+◌, ◌%◌, ◌^◌, Bool, true, false, Option, none, some, List, [], ◌∷◌, length, ◌≡◌, refl, sym,
  ap, ◌∙◌, arith, ◌&&◌, ◌||◌,
}
use rich_graph.Delta.{PropertyDeltaTarget, PropertyDeltaRecord}
use rich_graph.Delta.Error
use rich_graph.Delta.File.{PropertyDeltaFile}
use rich_graph.Delta.Create.{CreateIo, Directory}
use rich_graph.Manifest.Recover
use rich_graph.Manifest.Append.{Manifest, AppendIo, append_add}
use rich_graph.Store.{
  Chain, PropertyDeltaStore, chain_at, get_or_create_chain, is_due, chain_or_fresh, find_chain,
}
use rich_graph.Store.Attach.{
  attach, keep_file, entry_of, attach_created, attach_appended, publish_file,
  mark_target_persistent, mark_found, mark_chain,
}
use rich_graph.Store.Jobs.{InFlight, flag, InFlight-put}

due_free :
    (p : Bool) (s : PropertyDeltaStore) (c : Chain) (n : ℕ)
    → (p && is_due s c n) ≡ true
    → c.merge_scheduled_or_running ≡ false
due_free p s c n e = ground arith

module _ {running : List PropertyDeltaTarget} where
  get_or_create_chain-InFlight :
      (t : PropertyDeltaTarget) (persistent : Bool) (s : PropertyDeltaStore)
      → InFlight running s
      → InFlight running (get_or_create_chain t persistent s)
  unfolding get_or_create_chain
  get_or_create_chain-InFlight t persistent s h =
      InFlight-put t false _ s _ h refl refl refl (λ e. cc)

  publish_file-InFlight :
      (t : PropertyDeltaTarget) (file : PropertyDeltaFile) (g : ℕ) (s : PropertyDeltaStore)
      → InFlight running s
      → InFlight running (publish_file t file g s)
  unfolding publish_file
  publish_file-InFlight t file g s h =
      let c = chain_at t s in
      InFlight-put t (c.target_is_persistent && is_due s c (length c.read_view.deltas + 1)) _ s _ h
        refl refl refl (due_free c.target_is_persistent s c (length c.read_view.deltas + 1))

  attach_appended-InFlight :
      (t : PropertyDeltaTarget) (name : List ℕ) (file : PropertyDeltaFile) (g : ℕ)
      (s : PropertyDeltaStore) (r : Recover.Result (Unit {0}) × Manifest)
      → InFlight running s
      → InFlight running (attach_appended t name file g s r).1
  attach_appended-InFlight t name file g s (Recover.err e, m) h = record { counted = h.counted }
  attach_appended-InFlight t name file g s (Recover.ok u, m) h =
      publish_file-InFlight t file g (record s { manifest = m }) (record { counted = h.counted })

  attach_created-InFlight :
      (t : PropertyDeltaTarget) (name : List ℕ) (g : ℕ) (io : AppendIo) (s : PropertyDeltaStore)
      (r : Error.Result PropertyDeltaFile × Directory)
      → InFlight running s
      → InFlight running (attach_created t name g io s r).1
  attach_created-InFlight t name g io s (Error.err e, dir) h = record { counted = h.counted }
  attach_created-InFlight t name g io s (Error.ok file, dir) h =
      attach_appended-InFlight t name file g
        (record s { directory = keep_file name dir.at_path s.directory })
        (append_add (entry_of name file (chain_at t s).target_is_persistent) io s.manifest)
        (record { counted = h.counted })

  pub attach-InFlight :
      (t : PropertyDeltaTarget) (rs : List PropertyDeltaRecord) (persistent : Bool)
      (create_io : CreateIo) (append_io : AppendIo) (s : PropertyDeltaStore)
      → InFlight running s
      → InFlight running (attach t rs persistent create_io append_io s).1
  unfolding attach
  attach-InFlight t [] persistent create_io append_io s h = h
  attach-InFlight t (r ∷ rs) persistent create_io append_io s h =
      attach_created-InFlight t _ _ append_io
        (record (get_or_create_chain t persistent s) {
          next_file_generation = (s.next_file_generation + 1) % 2 ^ 64;
        })
        _ (record { counted = (get_or_create_chain-InFlight t persistent s h).counted })

  mark_chain-InFlight :
      (t : PropertyDeltaTarget) (c : Chain) (s : PropertyDeltaStore)
      (r : Option Recover.ManifestError × Manifest)
      → c.merge_scheduled_or_running ≡ flag t s
      → InFlight running s
      → InFlight running (mark_chain t c s r).1
  mark_chain-InFlight t c s (some e, m) same h = record { counted = h.counted }
  mark_chain-InFlight t c s (none, m) same h =
      let due = is_due s c (length c.read_view.deltas) in
      InFlight-put t due _ s _ h refl refl (ap (λ b. due || b) same)
        (λ e. sym same ∙ due_free true s c (length c.read_view.deltas) e)

  mark_found-InFlight :
      (t : PropertyDeltaTarget) (ios : ℕ → AppendIo) (s : PropertyDeltaStore) (o : Option Chain)
      → find_chain t s.registry ≡ o
      → InFlight running s
      → InFlight running (mark_found t ios s o).1
  mark_found-InFlight t ios s none e h = h
  mark_found-InFlight t ios s (some c) e h =
      mark_chain-InFlight t c s _ (ap (λ o. (chain_or_fresh o).merge_scheduled_or_running) (sym e))
        h

  pub mark_target_persistent-InFlight :
      (t : PropertyDeltaTarget) (ios : ℕ → AppendIo) (s : PropertyDeltaStore)
      → InFlight running s
      → InFlight running (mark_target_persistent t ios s).1
  unfolding mark_target_persistent
  mark_target_persistent-InFlight t ios s h =
      mark_found-InFlight t ios
        (record s { persistent_base_files = t.base_file_id ∷ s.persistent_base_files })
        (find_chain t s.registry) refl (record { counted = h.counted })
