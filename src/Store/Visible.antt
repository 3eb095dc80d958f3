-- ===== src/Store/Visible.antt =====
-- src/property_delta_store.cpp: Attach followed by ReadView and Lookup.
use rich_graph.Base.{
  false, ℕ, ◌+◌, ◌%◌, ◌^◌, ◌<◌, Bool, Option, some, List, [], ◌∷◌, ◌++◌, All, ◌≡◌, ◌≢◌, refl, ap,
  ◌∙◌,
}
use rich_graph.Delta.{PropertyDeltaTarget, PropertyDeltaRecord, LogicalKey, target_eq}
use rich_graph.Delta.Error
use rich_graph.Delta.File.{PropertyDeltaFile}
use rich_graph.Delta.Build.{build_start}
use rich_graph.Delta.Create.{CreateIo, Directory, create, invalid_id}
use rich_graph.Delta.Kept.{InRange, stored_size, written}
use rich_graph.Delta.Layout.{built}
use rich_graph.Delta.Newest.{newest}
use rich_graph.Delta.Search.{answer}
use rich_graph.Delta.Reopen.{TargetInRange}
use rich_graph.Delta.RoundTrip.{Succeeds, parts, created, created-Holds, create-created}
use rich_graph.Manifest.Recover
use rich_graph.Manifest.Append.{Manifest, AppendIo, append_add}
use rich_graph.Store.{
  Result, ok, Chain, PropertyDeltaStore, chain_at, chain_or_fresh, get_or_create_chain, file_path,
  view_of, read_view,
}
use rich_graph.Store.View.{PropertyDeltaReadView, LookupCounters, view_lookup}
use rich_graph.Store.View.Laws.{AllHold, all_records, view_lookup-newest}
use rich_graph.Store.View.Append.{AllHold-append, newest-written}
use rich_graph.Store.Name.{delta_file_name}
use rich_graph.Store.Apart.{attach-other}
use rich_graph.Store.Attach.{
  attach, keep_file, attach_created, attach_appended, publish_file, view_with, entry_of,
  blank_directory,
}
use rich_graph.Store.Registry.{find_chain_self, schedule_if-registry, get_or_create_chain_self}

publish_file-view :
    (t : PropertyDeltaTarget) (file : PropertyDeltaFile) (g : ℕ) (s : PropertyDeltaStore)
    → read_view t (publish_file t file g s) ≡ some (view_with file g (chain_at t s).read_view)
unfolding publish_file read_view
publish_file-view t file g s =
    rw (schedule_if-registry _ t _) (ap view_of (find_chain_self t _ s.registry))

old_view :
    (t : PropertyDeltaTarget) (persistent : Bool) (s : PropertyDeltaStore)
    → (chain_at t (get_or_create_chain t persistent s)).read_view ≡ (chain_at t s).read_view
old_view t persistent s =
    ap (λ (c : Option Chain). (chain_or_fresh c).read_view)
      (get_or_create_chain_self t persistent s)

-- What Attach gives when its append to the manifest succeeds.
abbrev Attached :
    PropertyDeltaTarget
    → PropertyDeltaFile
    → ℕ
    → PropertyDeltaReadView
    → Result × PropertyDeltaStore
    → Type 0
Attached t file g view (r, s) = (r ≡ ok) × (read_view t s ≡ some (view_with file g view))

attach_appended-Attached :
    (t : PropertyDeltaTarget) (name : List ℕ) (file : PropertyDeltaFile) (g : ℕ)
    (s : PropertyDeltaStore) (r : Recover.Result (Unit {0}) × Manifest)
    → r.0 ≡ Recover.ok tt
    → Attached t file g (chain_at t s).read_view (attach_appended t name file g s r)
attach_appended-Attached t name file g s (Recover.err e, m) h = cc
attach_appended-Attached t name file g s (Recover.ok u, m) h =
    (refl, publish_file-view t file g (record s { manifest = m }))

attach_created-Attached :
    (t : PropertyDeltaTarget) (io : AppendIo) (s : PropertyDeltaStore)
    (r : Error.Result PropertyDeltaFile × Directory) (file : PropertyDeltaFile) (dir : Directory)
    (g : ℕ)
    → r ≡ (Error.ok file, dir)
    → (append_add
        (entry_of (delta_file_name t g) file (chain_at t s).target_is_persistent)
        io
        s.manifest).0
      ≡ Recover.ok tt
    → Attached t file g (chain_at t s).read_view (attach_created t (delta_file_name t g) g io s r)
attach_created-Attached t io s r file dir g e h = rw e (
    attach_appended-Attached t (delta_file_name t g) file g
      (record s { directory = keep_file (delta_file_name t g) dir.at_path s.directory })
      (append_add (entry_of (delta_file_name t g) file (chain_at t s).target_is_persistent) io
        s.manifest)
      h)

-- The store when Create is called.
abbrev pub made : PropertyDeltaTarget → Bool → PropertyDeltaStore → PropertyDeltaStore
made t persistent s = record (get_or_create_chain t persistent s) {
  next_file_generation = (s.next_file_generation + 1) % 2 ^ 64;
}

attach-nonempty :
    (t : PropertyDeltaTarget) (rs : List PropertyDeltaRecord) (persistent : Bool)
    (create_io : CreateIo) (append_io : AppendIo) (s : PropertyDeltaStore)
    → rs ≢ []
    → attach t rs persistent create_io append_io s
      ≡ attach_created t
          (delta_file_name t s.next_file_generation)
          s.next_file_generation
          append_io
          (made t persistent s)
          (create
            (file_path s (delta_file_name t s.next_file_generation))
            t
            s.next_file_generation
            rs
            s.durability
            create_io
            blank_directory)
unfolding attach
attach-nonempty t [] persistent create_io append_io s h = absurd (h refl)
attach-nonempty t (r ∷ rs) persistent create_io append_io s h = refl

module _ (t : PropertyDeltaTarget) (rs : List PropertyDeltaRecord) (s : PropertyDeltaStore) where
  -- The file that Attach makes.
  abbrev pub new_file : PropertyDeltaFile
  new_file = let g = s.next_file_generation in created (file_path s (delta_file_name t g)) t g rs

  module _ (persistent : Bool) (create_io : CreateIo) (append_io : AppendIo)
      (target_fits : TargetInRange t) (generation_fits : s.next_file_generation < 2 ^ 64)
      (valid_id : t.base_file_id ≢ invalid_id) (some_record : rs ≢ []) (ranges : All InRange rs)
      (room : 120 + stored_size rs < 2 ^ 64)
      (succeeds : Succeeds create_io
        (parts t s.next_file_generation (built (written rs) build_start)))
      (appends : (append_add
          (entry_of
            (delta_file_name t s.next_file_generation)
            new_file
            (chain_at t (made t persistent s)).target_is_persistent)
          append_io
          (made t persistent s).manifest).0
        ≡ Recover.ok tt) where
    attach-Attached :
        Attached t new_file s.next_file_generation
          (chain_at t s).read_view
          (attach t rs persistent create_io append_io s)
    attach-Attached =
        let g = s.next_file_generation in
        let created_ok =
          create-created (file_path s (delta_file_name t g)) t g rs s.durability create_io
            blank_directory target_fits generation_fits valid_id some_record ranges room succeeds in
        let (done, view) =
          attach_created-Attached t append_io (made t persistent s) _ new_file _ g created_ok
            appends in
        rw (attach-nonempty t rs persistent create_io append_io s some_record)
          (done, view ∙ ap (λ v. some (view_with new_file g v)) (old_view t persistent s))

    -- For some records and a target whose fields are in range, with a valid file id and less than
    -- 2 ^ 64 bytes in all, when every system call of Create and the append to the manifest
    -- succeed, Attach succeeds, and a view of the target taken after it answers every lookup with
    -- the newest version admitted among the records that its files held before the call and the
    -- records submitted; the views of the other targets are as before.
    pub attach_visible :
        (rss : List (List PropertyDeltaRecord)) (key : LogicalKey) (read : ℕ)
        (counters : LookupCounters)
        → AllHold (chain_at t s).read_view.deltas rss
        → let (result, after) = attach t rs persistent create_io append_io s in
          (result ≡ ok)
          × ((view : PropertyDeltaReadView) × (read_view t after ≡ some view)
              × ((view_lookup view key read counters).0
                  ≡ answer (newest key read (all_records rss ++ rs))))
          × ((k : PropertyDeltaTarget) → target_eq t k ≡ false → read_view k after ≡ read_view k s)
    attach_visible rss key read counters h =
        let g = s.next_file_generation in
        let old = (chain_at t s).read_view in
        let holds = AllHold-append new_file (written rs) h (
          created-Holds (file_path s (delta_file_name t g)) t g rs s.durability create_io
            blank_directory target_fits generation_fits valid_id some_record ranges room
            succeeds) in
        (
          attach-Attached.0,
          (
            view_with new_file g old,
            attach-Attached.1,
            view_lookup-newest key read (view_with new_file g old) (rss ++ (written rs ∷ []))
                  counters holds
                ∙ ap answer (newest-written key read rss rs),
          ),
          λ k n. attach-other t k rs persistent create_io append_io s n,
        )
