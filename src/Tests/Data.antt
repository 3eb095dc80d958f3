-- ===== src/Tests/Data.antt =====
-- Small inputs for src/property_delta.cpp and src/property_delta_manifest.cpp.
use rich_graph.Base.{ℕ, true, none, List, [], ◌∷◌, negsuc}
use rich_graph.Io.{interrupted, wrote}
use rich_graph.Delta.{edge, PropertyDeltaTarget, PropertyDeltaRecord, LogicalKey}
use rich_graph.Delta.Create.{CreateIo, Directory}

abbrev pub target : PropertyDeltaTarget
target = record {
  kind = edge;
  shard_id = 1;
  base_file_id = 2;
  base_generation = 3;
  property_id = 4;
}

abbrev pub old_version : PropertyDeltaRecord
old_version = record {
  src = 7;
  dst = 9;
  base_sequence = negsuc 0;
  commit_sequence = 5;
  is_out = true;
  edge_type = 1;
  value = 65 ∷ [];
}

abbrev pub new_version : PropertyDeltaRecord
new_version = record old_version { commit_sequence = 8; value = 66 ∷ 67 ∷ [] }

abbrev pub other_key : PropertyDeltaRecord
other_key = record old_version { dst = 4; commit_sequence = 6; value = [] }

abbrev pub records : List PropertyDeltaRecord
records = new_version ∷ old_version ∷ other_key ∷ []

abbrev pub key : LogicalKey
key = record { src = 7; dst = 9; base_sequence = negsuc 0; is_out = true; edge_type = 1 }

abbrev pub path : List ℕ
path = b'd' ∷ []

abbrev pub empty_directory : Directory
empty_directory = record { at_path = none; at_temporary = none }

-- The header in two writes, with a signal between them.
abbrev pub good_io : CreateIo
good_io = record {
  opens = true;
  writes = wrote 100 ∷ interrupted ∷ wrote 20 ∷ wrote 144 ∷ wrote 3 ∷ [];
  fdatasyncs = true;
  closes = true;
  renames = true;
  syncs_directory = true;
  reopen = none;
}
