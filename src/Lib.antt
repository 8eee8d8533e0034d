-- ===== src/Lib.antt =====
-- usagedb: a store for usage events and their totals.
-- Events come in by HTTP, pass validation, a cache of known events, a write-ahead log and a buffer in
-- memory (the memtable); a flusher writes the buffer as segments, one for each bucket of accounts, and
-- commits them in the manifest; queries scan segments and memtable; rollups add events up by the hour;
-- compaction merges small segments.
--
-- The parts, with the files of the repository that they model:
--   Model            src/model: the event schema and the bucket of an account
--   Validate         src/api/http_server.rs: `validate_event`
--   Ingest.Dedupe    src/ingest/dedupe.rs: the hot cache (`HotDedupe`), all its operations
--   Ingest.Memtable  src/ingest/memtable.rs: the buffer
--   Ingest.Wal       src/ingest/wal.rs: the log, as lines, whole or torn, in a buffer, in the kernel and on
--                    disk
--   Ingest.Handler   src/api/http_server.rs: `handle_ingest` and `ingest_critical_section`, which call
--                    the four parts above, with `compute_event_hashes` and `period_for_ts`
--   Ingest.Segments  src/ingest/flusher.rs: the canonical order and the metadata of a segment
--   Ingest.Flusher   src/ingest/flusher.rs: `handle_message`, which writes buckets and saves the manifest
--   Storage.Manifest, Storage.Generations
--                    src/storage/manifest.rs: the types, `save`, `load` and the pruning of generations
--   Storage.Encoding src/storage/encoding.rs: dictionary, deltas, zigzag
--   Query            src/query/plan.rs and src/query/executor.rs: filters, pruning, the raw scan
--   Query.Aggregate  src/query/executor.rs: `aggregate`
--   Query.Sources    src/query/executor.rs: `execute_plan`, from raw events or from rollups
--   Rollup           src/rollup/builder.rs and src/rollup/hourly.rs
--   Rollup.Hours, Rollup.Worker
--                    src/rollup/worker.rs: the loop over the hours; `tick` and `rebuild_rollups`
--   Recovery         src/runtime/recovery.rs: `run_startup_recovery`
--   Storage.Columns  src/storage/segment_writer.rs, src/storage/segment_reader.rs: the encodings of columns
--   Storage.DedupeIndex
--                    src/storage/dedupe_index.rs: the bytes of a sidecar
--   Rollup.Files     src/rollup/writer.rs and src/rollup/reader.rs: the bytes of a file of rollups
--   Compact          src/compact: the planner, the merge and the swap of segments, and the sweep
--   Prelude          lists, integers, texts and maps; Prelude.Entries is a loop that updates one entry of
--                    a map for each item, which the aggregation and the rollup share
--   Tests            sample data, and each property at a concrete input
--
-- A function keeps its Rust name, and a method that changes `self` returns the new state. A call into
-- the operating system takes its success as an argument; the clock, the calendar (chrono), the hash
-- (blake3) and the encodings (serde_json, bincode) are parameters. An `i64` or `i128` is an integer, and
-- its wrap-around or saturation is written out where the code computes with it. A `HashMap` or
-- `BTreeMap` is an association list, sorted where the code relies on the order. Three
-- loops take fuel: the one over the hours of a tick, as many turns as there are milliseconds up to its
-- target; the one that writes a `u128` in groups of 7 bits, 18 turns before the last group; and the one
-- that reads a file of rollups, as many turns as it has bytes.
--
-- Not modelled: the timers of the workers, the framing of segment files, the
-- flusher's call that writes a sidecar, the closing of periods, the SQL front end, the HTTP routing, and
-- administration.
-- A segment file holds the rows that were written to it, or cannot be read.
mod Prelude
pub mod Model
pub mod Validate
pub mod Ingest
pub mod Storage
pub mod Query
pub mod Rollup
pub mod Compact
pub mod Recovery
mod Tests
