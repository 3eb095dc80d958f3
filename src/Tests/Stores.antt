-- ===== src/Tests/Stores.antt =====
-- src/property_delta_store.cpp: the theorems at a store without files, and at one of two files.
use rich_graph.Base.{◌+◌, true, false, none, some, List, [], ◌∷◌, ◌++◌, eq_bytes, ◌≡◌, refl, arith}
use rich_graph.Io.{wrote, write_all}
use rich_graph.Pod.{encode_fields}
use rich_graph.Delta.{PropertyDeltaTarget, target_eq}
use rich_graph.Delta.File.{PropertyDeltaFile}
use rich_graph.Delta.Create.{process_crash_safe}
use rich_graph.Delta.Search.{answer}
use rich_graph.Delta.Newest.{newest}
use rich_graph.Manifest.{valid_file_name, encode_add}
use rich_graph.Manifest.Record.{record_bytes, encode_header, record_header}
use rich_graph.Manifest.Append.{AppendIo, append_add, append_record, open_and_recover}
use rich_graph.Manifest.Recover
use rich_graph.Manifest.Recover.{recover, recover_loop}
use rich_graph.Store.{
  ok, Chain, PropertyDeltaStore, read_view, find_chain, set_chain, get_or_create_chain, contains_id,
  chain_at,
}
use rich_graph.Store.View.{PropertyDeltaReadView, MappedPropertyFile, view_lookup}
use rich_graph.Store.View.Laws.{nil}
use rich_graph.Store.Name.{delta_file_name, decimal, digits_before}
use rich_graph.Store.Attach.{attach, entry_of}
use rich_graph.Store.Visible.{attach_visible, made, new_file}
use rich_graph.Store.Merge.{begin_merge, publish_merge}
use rich_graph.Store.Published.{merge_keeps_attached}
use rich_graph.Store.Recover.{
  RecoverIo, recovered, recover_store, recover_entries, promote_all, schedule_chains, remove_files,
  remove_orphan_files,
}
use rich_graph.Store.Jobs.{count, claim, flag}
use rich_graph.Store.Steps.{start, step, attaches, one_merge_per_target}
use rich_graph.Tests.Data.{target, records, key, path, good_io, new_version}
use rich_graph.Tests.DeltaFiles.{target_fits, records_fit, good_io-Succeeds}
use rich_graph.Tests.Manifests.{fresh, good_open}
use rich_graph.Tests.Views.{no_lookups, view, file_of}

abbrev empty : PropertyDeltaStore
empty = record {
  directory_path = path;
  merge_threshold = 2;
  has_merge_callback = true;
  durability = process_crash_safe;
  manifest = fresh;
  registry = [];
  next_file_generation = 1;
  maximum_commit_sequence = 0;
  persistent_base_files = [];
  jobs = [];
  running_jobs = 0;
  background_error = none;
  files_created = 0;
  files_recovered = 0;
  records_written = 0;
  bytes_written = 0;
  merges_started = 0;
  merges_completed = 0;
  merge_failures = 0;
  directory = [];
}

abbrev one_write : AppendIo
one_write = record { writes = wrote 138 ∷ []; fdatasyncs = true }

appends :
    (append_add
      (entry_of
        (delta_file_name target 1)
        (new_file target records empty)
        (chain_at target (made target true empty)).target_is_persistent)
      one_write
      (made target true empty).manifest).0
    ≡ Recover.ok tt
unfolding append_add valid_file_name eq_bytes append_record encode_add encode_fields write_all
    record_bytes encode_header record_header delta_file_name decimal digits_before
    get_or_create_chain find_chain set_chain contains_id
appends = refl

attach_visible_example :
    let (result, after) = attach target records true good_io one_write empty in
    (result ≡ ok)
    × ((view : PropertyDeltaReadView) × (read_view target after ≡ some view)
        × ((view_lookup view key 7 no_lookups).0 ≡ answer (newest key 7 records)))
    × ((k : PropertyDeltaTarget)
        → target_eq target k ≡ false
        → read_view k after ≡ read_view k empty)
unfolding find_chain
attach_visible_example =
    attach_visible target records empty true good_io one_write target_fits (omega arith)
      (λ e. ground arith) (λ e. cc) records_fit (omega arith) good_io-Succeeds appends [] key 7
      no_lookups nil

abbrev full : Chain
full = record { read_view = view; target_is_persistent = true; merge_scheduled_or_running = true }

abbrev merging : PropertyDeltaStore
merging = record empty { registry = (target, full) ∷ []; next_file_generation = 5 }

abbrev grown : PropertyDeltaStore
grown = record merging {
  registry =
      (
        target,
        record full {
          read_view = record view { deltas = view.deltas ++ (file_of new_version ∷ []) };
        },
      )
      ∷ [];
}

abbrev column : MappedPropertyFile
column = record { mapping = 1 ∷ 2 ∷ []; generation = 5 }

merge_keeps_attached_example :
    let (r, after) = publish_merge target false view.deltas 5 column grown in
    (r ≡ ok)
    × ((rest : List PropertyDeltaFile) × (view.deltas ++ rest
          ≡ view.deltas ++ (file_of new_version ∷ []))
        × (read_view target after
            ≡ some (record { merged_base = some column; deltas = rest; generation = 5 })))
    × ((k : PropertyDeltaTarget)
        → target_eq target k ≡ false
        → read_view k after ≡ read_view k grown)
unfolding begin_merge find_chain
merge_keeps_attached_example =
    merge_keeps_attached target false merging (record merging { next_file_generation = 6 }) grown
      view view.deltas (file_of new_version ∷ []) 5 column refl refl

abbrev once : PropertyDeltaStore
once = (attach target records true good_io one_write empty).1

abbrev twice : PropertyDeltaStore
twice = (attach target records true good_io one_write once).1

abbrev recover_io : RecoverIo
recover_io = record {
  open_manifest = good_open;
  open_error = λ name. none;
  has_table = λ id. true;
  promote = λ i. one_write;
  abandon = one_write;
}

empty_recovered : recover_store recover_io path 2 process_crash_safe true [] [] ≡ recovered empty
unfolding recover_store open_and_recover recover recover_loop recover_entries promote_all
    schedule_chains remove_files remove_orphan_files
empty_recovered = refl

one_merge_per_target_example : count target twice.jobs + count target [] ≡ claim (flag target twice)
one_merge_per_target_example =
    one_merge_per_target recover_io path 2 process_crash_safe true [] [] empty twice []
      empty_recovered
      (step (step start (attaches target records true good_io one_write))
        (attaches target records true good_io one_write))
      target
