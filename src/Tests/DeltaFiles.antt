-- ===== src/Tests/DeltaFiles.antt =====
-- src/property_delta.cpp: the theorems at three records, two of them versions of one key.
use rich_graph.Base.{none, some, [], ◌∷◌, All, ◌≡◌, refl, ◌⊎◌, arith, ltb}
use rich_graph.Io.{
  done, interrupted, wrote, failed, write_all, Prefix, write_all-Prefix, write_all-done,
  write_all_returns,
}
use rich_graph.Delta.Build.{stable_sort, deduplicate, build_start, BuildState}
use rich_graph.Pod.{encode_fields}
use rich_graph.Delta.Order.{record_less, same_version}
use rich_graph.Delta.Image.{
  create_bytes, encode_header, create_header, encode_records, encode_record,
}
use rich_graph.Delta.Error.{ok}
use rich_graph.Delta.File.{PropertyDeltaFile, lookup, bisect}
use rich_graph.Delta.Create.{process_crash_safe, create, create_state, write_parts}
use rich_graph.Delta.Kept.{InRange, written}
use rich_graph.Delta.Layout.{built}
use rich_graph.Delta.Newest.{newest, newest-deduplicate}
use rich_graph.Delta.Sorted.{IsSorted, written-IsSorted}
use rich_graph.Delta.Bisect.{Splits, bisect-Splits}
use rich_graph.Delta.Reopen.{TargetInRange}
use rich_graph.Delta.RoundTrip.{Succeeds, parts, create-lookup, create_atomic}
use rich_graph.Tests.Data.{
  old_version, new_version, other_key, target, records, key, path, empty_directory, good_io,
}

pub target_fits : TargetInRange target
target_fits = record {
  shard_id = omega arith;
  base_file_id = omega arith;
  base_generation = omega arith;
  property_id = omega arith;
}

pub new_fits : InRange new_version
new_fits = record {
  src = omega arith;
  dst = omega arith;
  base_sequence = (omega arith, omega arith);
  commit_sequence = omega arith;
  edge_type = omega arith;
  value = omega arith;
}

pub old_fits : InRange old_version
old_fits = record {
  src = omega arith;
  dst = omega arith;
  base_sequence = (omega arith, omega arith);
  commit_sequence = omega arith;
  edge_type = omega arith;
  value = omega arith;
}

other_fits : InRange other_key
other_fits = record {
  src = omega arith;
  dst = omega arith;
  base_sequence = (omega arith, omega arith);
  commit_sequence = omega arith;
  edge_type = omega arith;
  value = omega arith;
}

pub records_fit : All InRange records
records_fit = (new_fits, (old_fits, (other_fits, tt)))

pub good_io-Succeeds : Succeeds good_io (parts target 1 (built (written records) build_start))
unfolding write_parts write_all encode_header create_header encode_fields encode_records deduplicate
    stable_sort record_less same_version encode_record
good_io-Succeeds = record {
  opens = refl;
  writes = refl;
  fdatasyncs = refl;
  closes = refl;
  renames = refl;
  syncs_directory = refl;
  reopen = refl;
}

create-lookup_example :
    (file : PropertyDeltaFile) × ((create path target 1 records process_crash_safe good_io
        empty_directory).0
      ≡ ok file)
    × (lookup file key 7 ≡ some (65 ∷ [], 5))
unfolding newest
create-lookup_example =
    create-lookup path target 1 records process_crash_safe good_io empty_directory target_fits
      (omega arith) (λ e. ground arith) (λ e. cc) records_fit (omega arith) good_io-Succeeds key 7

create_atomic_example :
    ((create path target 1 records process_crash_safe good_io empty_directory).1.at_path ≡ none)
    ⊎ ((s : BuildState) × (create_state target records ≡ ok s)
        × ((create path target 1 records process_crash_safe good_io empty_directory).1.at_path
            ≡ some (create_bytes target 1 s)))
create_atomic_example =
    create_atomic path target 1 records process_crash_safe good_io empty_directory

newest-deduplicate_example : newest key 9 (deduplicate (stable_sort records)) ≡ newest key 9 records
newest-deduplicate_example = newest-deduplicate key 9 records

written-IsSorted_example : IsSorted (written records)
written-IsSorted_example = written-IsSorted records

write_all-done_example :
    (write_all (wrote 1 ∷ interrupted ∷ wrote 2 ∷ []) (5 ∷ 6 ∷ 7 ∷ [])).bytes ≡ 5 ∷ 6 ∷ 7 ∷ []
unfolding write_all
write_all-done_example = write_all-done (wrote 1 ∷ interrupted ∷ wrote 2 ∷ []) (5 ∷ 6 ∷ 7 ∷ []) refl

write_all-Prefix_example :
    Prefix (write_all (wrote 1 ∷ failed ∷ []) (5 ∷ 6 ∷ 7 ∷ [])).bytes (5 ∷ 6 ∷ 7 ∷ [])
write_all-Prefix_example = write_all-Prefix (wrote 1 ∷ failed ∷ []) (5 ∷ 6 ∷ 7 ∷ [])

write_all_returns_example :
    (write_all (wrote 1 ∷ interrupted ∷ wrote 2 ∷ []) (5 ∷ 6 ∷ 7 ∷ [])).status ≡ done
write_all_returns_example =
    write_all_returns (wrote 1 ∷ interrupted ∷ wrote 2 ∷ []) (5 ∷ 6 ∷ 7 ∷ []) tt

bisect-Splits_example : Splits (λ i. ltb i 3) 0 8 (bisect 8 (λ i. ltb i 3) 0 8)
bisect-Splits_example =
    bisect-Splits (λ i. ltb i 3) 8 0 8 (λ i j a b c d. ground arith) (omega arith) (omega arith)
