-- ===== src/Lib.antt =====
-- RichGraph keeps graph properties in columns, and the updates of a column in immutable property
-- delta files. A delta file (src/property_delta.cpp) holds versions of property values, sorted by
-- logical key and commit sequence. A manifest (src/property_delta_manifest.cpp) is a log of the
-- delta files that are in use. A store (src/property_delta_store.cpp) keeps a chain of delta files for each
-- target, attaches new ones and merges them into the column; a read view looks a key up in them. The update manager (src/property_update_manager.cpp) keeps new updates in buffers and
-- in a map of pending values until a callback has made delta files of them.
--
-- The files:
-- Base: names and lemmas that all modules share, on lists, numbers and lexicographic order.
-- Pod: packed structs as bytes, little-endian. Fnv: ExtendChecksum and Checksum.
-- Io: WriteAll, over the list of what the kernel answers to `write`.
-- Delta: the records of core/property_delta.h. Delta.Order: CompareLogicalKey, RecordLess and
--   SameVersion. Delta.Build: the sorting, the removal of duplicates and the loop that lays the
--   records out. Delta.Image: the header and the records as bytes. Delta.Create: Create.
--   Delta.File: OpenAndValidate, Lookup, ForEachRecord. The other modules below Delta are proofs.
-- Manifest: EncodeAdd, DecodeAdd, EncodeRemove, DecodeRemove, ApplyAdd, ApplyRemove.
--   Manifest.Record: a record of the log. Manifest.Recover: the loop of OpenAndRecover.
--   Manifest.Append: OpenAndRecover, AppendAdd, AppendRemove. The other modules below are proofs.
-- Store: the state of the property delta store, with GetOrCreateChain, FindChain, ReadView and
--   ScheduleMerge. Store.View: PropertyDeltaReadView::Lookup. Store.Name: the names of files.
--   Store.Attach: Attach and MarkTargetPersistent. Store.Merge: MergeChain, WorkerMain,
--   MergeAllForBaseFiles and MergeAllPersistent. Store.Merging: what a caller does after MergeChain.
--   Store.Recover: OpenAndRecover. Store.Steps: the critical sections as a step relation. The other
--   modules below Store are proofs. Store.Overlay: core/property_delta_overlay_iterator.h.
-- Versions: the version set (src/version_set.cpp, core/version_set.h) with the reference counts of
--   versions and table files (src/SSTable.cpp). Versions.Steps: flushes, compactions and readers
--   (src/superversion.cpp) as a step relation. The other modules below Versions are proofs.
-- Edge: edge bodies (core/graph/edge.h) and the readers of their bytes (src/storage_internal.cpp).
-- Table: the searches in the index of a table file (src/SSTable.cpp).
-- Columns: the slots of property columns (core/fixed_property_layout.h).
-- Compaction: the choice of the files that a compaction merges (src/compaction.cpp): GetRange,
--   GetOverlappingInputs, SetupOtherInputs and PickCompactioFile. The other modules below it are
--   proofs.
-- Payload: BuildShardPropertyString (src/graph_db.cpp) and ExtractSubProperty (src/lsmstore.cpp).
-- Options: GraphDbOptions::Validate (src/options.cpp).
-- Updates: the pending values of src/property_update_manager.cpp and their lookups.
--   Updates.Manager: the buffers, EnsureActiveBuffer, QueueActiveBuffer and SubmitBatch.
--   Updates.Start: the constructor. Updates.Worker: FlushBuffer, WorkerMain and FlushAndWait.
--   Updates.Calls: the critical sections of the callers, from the beginning of a call or from a wait
--   in it. Updates.Steps: these and the steps of the worker as a step relation, where each call of
--   the flush callback and each update that RetirePending looks at is a step. The other modules
--   below Updates are proofs.
-- Tests: small inputs, and the theorems applied to them.
--
-- State is passed explicitly: an operation takes the object and returns the result beside the
-- object after the call. The operating system is not modelled; whether its calls succeed is a
-- record of Booleans, what `write` answers is a list, and a file is a list of bytes. Integers are
-- natural numbers, with the ranges of the C++ types as hypotheses and the sums that may wrap around
-- reduced by 2 ^ 64; int64_t is the type of integers. Where low_bound computes an int that does not
-- fit, or reads behind its buffer, and where an assertion of an edge body fails, there is no result.
-- The searches of Lookup and of a table index run on fuel, as much as there are positions in the
-- range, and the loop of OpenAndRecover on as much as there are bytes.
--
-- Threads are the order of the critical sections: each is a step, and a call that waits on a
-- condition variable ends there and goes on in another step. Locks, and the reference counts of
-- delta files and mappings, are not modelled. Nor are Stats and StopWorker of the property delta
-- store, Stats and the destructor of the update manager, the LSM store, the merge of a compaction,
-- the MemTable, the loading of table files, the edge iterators and the vendored utilities.
pub mod Base
pub mod Pod
pub mod Fnv
pub mod Io
pub mod Delta
pub mod Manifest
pub mod Store
pub mod Options
pub mod Updates
pub mod Versions
pub mod Edge
pub mod Table
pub mod Columns
pub mod Compaction
pub mod Payload
pub mod Tests
