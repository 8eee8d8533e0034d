-- ===== src/Tests.antt =====
-- Sample data, and each property at a concrete input.
mod Data
mod Ingest
mod Logs
mod Store
mod Flush
mod Queries
mod Rows
mod Rollups
mod Compaction
mod Restart
mod Columns
mod Torn
