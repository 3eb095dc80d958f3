-- ===== src/Store/Restart.antt =====
-- src/property_delta_store.cpp: the chains that the loop of OpenAndRecover builds have no merge.
use rich_graph.Base.{
  Bool, true, false, none, some, List, [], ◌∷◌, ◌≡◌, refl, sym, ap, ◌∙◌, subst, arith,
  if◌then◌else◌, Bool-cases, inl, inr,
}
use rich_graph.Delta.{PropertyDeltaTarget, target_eq}
use rich_graph.Delta.Error
use rich_graph.Delta.File.{PropertyDeltaFile}
use rich_graph.Manifest.{PropertyDeltaManifestEntry}
use rich_graph.Store.{Chain, PropertyDeltaStore, find_chain, set_chain, get_or_create_chain}
use rich_graph.Store.Name.{metadata_matches}
use rich_graph.Store.Registry.{find_chain-set_chain}
use rich_graph.Store.Jobs.{flag, flag_put}
use rich_graph.Store.Recover.{
  RecoverIo, Recovered, RecoverResult, recovered, failed, recover_file, recover_opened,
  recover_entry, recover_entries, and_then,
}

-- A target has one chain in the registry.
abbrev pub Distinct : List (PropertyDeltaTarget × Chain) → Type 0
Distinct [] = Unit {0}
Distinct ((t, c) ∷ chains) = (find_chain t chains ≡ none) × Distinct chains

set_chain-Distinct :
    (t : PropertyDeltaTarget) (c : Chain) (chains : List (PropertyDeltaTarget × Chain))
    → Distinct chains
    → Distinct (set_chain t c chains)
unfolding set_chain find_chain
set_chain-Distinct t c [] h = (refl, tt)
set_chain-Distinct t c ((u, d) ∷ chains) (alone, h) = elim (Bool-cases (target_eq u t)) [
  | inl e ↦ rw e (alone, h)
  | inr e ↦
      let apart : target_eq t u ≡ false = ground (arith, e) in
      rw e (
        find_chain-set_chain t u c chains
            ∙ ap (λ b. if b then some c else find_chain u chains) apart
            ∙ alone,
        set_chain-Distinct t c chains h,
      )
]

-- What holds while the entries are recovered.
pub record Fresh (s : PropertyDeltaStore) : Type 0 where
  pub no_jobs : s.jobs ≡ []
  pub clear : (k : PropertyDeltaTarget) → flag k s ≡ false
  pub distinct : Distinct s.registry

with_chain-Fresh :
    (t : PropertyDeltaTarget) (c : Chain) (s s1 : PropertyDeltaStore)
    → Fresh s
    → s1.jobs ≡ s.jobs
    → s1.registry ≡ set_chain t c s.registry
    → c.merge_scheduled_or_running ≡ false
    → Fresh s1
with_chain-Fresh t c s s1 h jobs chains clear = record {
  no_jobs = jobs ∙ h.no_jobs;
  clear =
      λ k. flag_put t c false s s1 chains clear k ∙ (let old = h.clear k in ground (arith, old));
  distinct = subst Distinct (sym chains) (set_chain-Distinct t c s.registry h.distinct);
}

recover_file-Fresh :
    (e : PropertyDeltaManifestEntry) (file : PropertyDeltaFile) (s : PropertyDeltaStore)
    → Fresh s
    → Fresh (recover_file e file s)
unfolding recover_file get_or_create_chain
recover_file-Fresh e file s h =
    let t = e.metadata.target in
    let made = get_or_create_chain t e.target_is_persistent s in
    let first = with_chain-Fresh t _ s made h refl refl (h.clear t) in
    with_chain-Fresh t _ made _ first refl refl (first.clear t)

abbrev pub FreshResult : RecoverResult Recovered → Type 0
FreshResult (recovered r) = Fresh r.store
FreshResult (failed e) = Unit {0}

matched-FreshResult :
    (b : Bool) (good bad : RecoverResult Recovered)
    → FreshResult good
    → FreshResult bad
    → FreshResult (if b then good else bad)
matched-FreshResult true good bad h k = h
matched-FreshResult false good bad h k = k

recover_opened-FreshResult :
    (e : PropertyDeltaManifestEntry) (o : Error.Result PropertyDeltaFile) (r : Recovered)
    → Fresh r.store
    → FreshResult (recover_opened e o r)
recover_opened-FreshResult e (Error.err x) r h = tt
recover_opened-FreshResult e (Error.ok file) r h =
    matched-FreshResult (metadata_matches e.metadata file.metadata) _ (failed _)
      (recover_file-Fresh e file r.store h) tt

recover_entry-FreshResult :
    (io : RecoverIo) (e : PropertyDeltaManifestEntry) (r : Recovered)
    → Fresh r.store
    → FreshResult (recover_entry io e r)
unfolding recover_entry
recover_entry-FreshResult io e r h =
    matched-FreshResult e.target_is_persistent _ _ (recover_opened-FreshResult e _ _ h) (
      matched-FreshResult (io.has_table e.metadata.target.base_file_id) _ _
        (recover_opened-FreshResult _ _ _ h) h)

and_then-FreshResult :
    (x : RecoverResult Recovered) (next : Recovered → RecoverResult Recovered)
    → FreshResult x
    → ((r : Recovered) → Fresh r.store → FreshResult (next r))
    → FreshResult (and_then x next)
and_then-FreshResult (recovered r) next h k = k r h
and_then-FreshResult (failed e) next h k = tt

pub recover_entries-FreshResult :
    (io : RecoverIo) (entries : List PropertyDeltaManifestEntry) (r : Recovered)
    → Fresh r.store
    → FreshResult (recover_entries io entries r)
unfolding recover_entries
recover_entries-FreshResult io [] r h = h
recover_entries-FreshResult io (e ∷ entries) r h =
    and_then-FreshResult (recover_entry io e r) (recover_entries io entries)
      (recover_entry-FreshResult io e r h) (recover_entries-FreshResult io entries)
