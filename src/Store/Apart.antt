-- ===== src/Store/Apart.antt =====
-- src/property_delta_store.cpp: Attach against the chains of other targets.
use rich_graph.Base.{ℕ, Bool, false, List, [], ◌∷◌, ◌≡◌, refl, ap, ◌∙◌}
use rich_graph.Delta.{PropertyDeltaTarget, PropertyDeltaRecord, target_eq}
use rich_graph.Delta.Error
use rich_graph.Delta.File.{PropertyDeltaFile}
use rich_graph.Delta.Create.{CreateIo, Directory}
use rich_graph.Manifest.Recover
use rich_graph.Manifest.Append.{Manifest, AppendIo, append_add}
use rich_graph.Store.{PropertyDeltaStore, find_chain, chain_at, view_of, read_view}
use rich_graph.Store.Attach.{
  attach, keep_file, attach_created, attach_appended, publish_file, entry_of,
}
use rich_graph.Store.Registry.{find_chain-other, schedule_if-registry, get_or_create_chain-other}

publish_file-other :
    (t k : PropertyDeltaTarget) (file : PropertyDeltaFile) (g : ℕ) (s : PropertyDeltaStore)
    → target_eq t k ≡ false
    → find_chain k (publish_file t file g s).registry ≡ find_chain k s.registry
unfolding publish_file
publish_file-other t k file g s e =
    rw (schedule_if-registry _ t _) (find_chain-other t k _ s.registry e)

-- What a call that attaches does to the chain of another target.
attach_appended-other :
    (t k : PropertyDeltaTarget) (name : List ℕ) (file : PropertyDeltaFile) (g : ℕ)
    (s : PropertyDeltaStore) (r : Recover.Result (Unit {0}) × Manifest)
    → target_eq t k ≡ false
    → find_chain k (attach_appended t name file g s r).1.registry ≡ find_chain k s.registry
attach_appended-other t k name file g s (Recover.err e, m) n = refl
attach_appended-other t k name file g s (Recover.ok u, m) n =
    publish_file-other t k file g (record s { manifest = m }) n

attach_created-other :
    (t k : PropertyDeltaTarget) (name : List ℕ) (g : ℕ) (io : AppendIo) (s : PropertyDeltaStore)
    (r : Error.Result PropertyDeltaFile × Directory)
    → target_eq t k ≡ false
    → find_chain k (attach_created t name g io s r).1.registry ≡ find_chain k s.registry
attach_created-other t k name g io s (Error.err e, dir) n = refl
attach_created-other t k name g io s (Error.ok file, dir) n =
    attach_appended-other t k name file g
      (record s { directory = keep_file name dir.at_path s.directory })
      (append_add (entry_of name file (chain_at t s).target_is_persistent) io s.manifest) n

-- Attach leaves the view of every other target as it was, whatever the system calls return.
pub attach-other :
    (t k : PropertyDeltaTarget) (rs : List PropertyDeltaRecord) (persistent : Bool)
    (create_io : CreateIo) (append_io : AppendIo) (s : PropertyDeltaStore)
    → target_eq t k ≡ false
    → read_view k (attach t rs persistent create_io append_io s).1 ≡ read_view k s
unfolding attach read_view
attach-other t k [] persistent create_io append_io s n = refl
attach-other t k (r ∷ rs) persistent create_io append_io s n =
    ap view_of
      (attach_created-other t k _ _ append_io _ _ n ∙ get_or_create_chain-other t k persistent s n)
