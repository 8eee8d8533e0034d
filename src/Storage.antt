-- ===== src/Storage.antt =====
-- src/storage: the manifest, and the encodings of segment columns.
pub mod Manifest
pub mod Generations
pub mod Encoding
pub mod Columns
pub mod DedupeIndex
