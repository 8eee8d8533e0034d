-- ===== src/Ingest.antt =====
-- src/ingest: the write path.
pub mod Dedupe
pub mod Memtable
pub mod Wal
pub mod Handler
pub mod Segments
pub mod Flusher
