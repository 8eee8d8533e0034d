-- ===== src/Storage/Manifest.antt =====
-- src/storage/manifest.rs: the types of the manifest.
-- The sets of identifiers are lists; the JSON text of a manifest (serde_json) is not modelled, a file
-- holds a manifest or is corrupt.
use usagedb.Prelude.{ℕ, Option, List, [], String}
use usagedb.Prelude.Int.{ℤ, pos}

pub data SegmentKind : Type 0 where
  raw rollup : SegmentKind

pub record SegmentMeta : Type 0 where
  pub segment_id : String
  pub kind : SegmentKind
  pub min_timestamp_ms : ℤ
  pub max_timestamp_ms : ℤ
  pub bucket : ℕ
  pub row_count : ℕ
  pub min_account_id : Option String
  pub max_account_id : Option String
  pub product_ids : List String
  pub meter_ids : List String
  pub model_ids : List String
  pub quantity_sum : Option ℤ
  pub checksum : ℕ
  pub input_segment_ids : List String

pub record ReplacementRecord : Type 0 where
  pub old_segments : List String
  pub new_segments : List String
  pub committed_at_ms : ℤ

pub record ClosedPeriod : Type 0 where
  pub account_id : String
  pub year : ℕ
  pub month : ℕ
  pub closed_at_ms : ℤ
  pub frozen_quantity : Option ℤ
  pub frozen_event_count : Option ℕ
  pub watermark_at_close_ms : Option ℤ

-- `hourly_rollup_ms` is the one field of `Watermarks`.
pub record Manifest : Type 0 where
  pub db_version : ℕ
  pub bucket_count : ℕ
  pub raw_segments : List SegmentMeta
  pub rollup_segments : List SegmentMeta
  pub compacted_replacements : List ReplacementRecord
  pub hourly_rollup_ms : ℤ
  pub last_sealed_wal_id : ℕ
  pub closed_periods : List ClosedPeriod
  pub current_generation : ℕ

abbrev pub default_manifest : Manifest
default_manifest = record {
  db_version = 0;
  bucket_count = 0;
  raw_segments = [];
  rollup_segments = [];
  compacted_replacements = [];
  hourly_rollup_ms = pos 0;
  last_sealed_wal_id = 0;
  closed_periods = [];
  current_generation = 0;
}
