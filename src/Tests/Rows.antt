-- ===== src/Tests/Rows.antt =====
-- A query over a rollup and the tail above its watermark.
use usagedb.Prelude.{none, some, [], ◌∷◌, String}
use usagedb.Prelude.Int.{pos}
use usagedb.Model.{SmallDimensions}
use usagedb.Storage.Manifest.{Manifest, default_manifest}
use usagedb.Ingest.Segments.{build_segment_meta}
use usagedb.Rollup.{process_events, finalize}
use usagedb.Query.{QueryPlan, rollup_hourly, sum}
use usagedb.Query.Sources.{Reader, collect_events}
use usagedb.Query.Sources.Range.{AllInRange, collect_events-AllInRange}
use usagedb.Tests.Data.{first, second, sample_env}

abbrev to_json : SmallDimensions → String
to_json d = "{}"

abbrev reader : Reader
reader = record {
  blake3 = sample_env.blake3;
  read = λ id. some (second ∷ []);
  read_rollup = λ id checksum. some (finalize (process_events to_json (first ∷ [])));
  parse_dimensions = λ s. some (record { inner = [] });
  rollup_id = λ t. "rollup";
  decimal = λ z. "0";
}

abbrev plan : QueryPlan
plan = record {
  source = rollup_hourly;
  account_id = none;
  from_ms = pos 0;
  to_ms = pos 7200000;
  filters = [];
  group_by = [];
  metrics = ("total", sum) ∷ [];
  limit = none;
}

abbrev manifest : Manifest
manifest = record default_manifest {
  rollup_segments = build_segment_meta "r" (first ∷ []) 0 0 ∷ [];
  raw_segments = build_segment_meta "s" (second ∷ []) 0 0 ∷ [];
  hourly_rollup_ms = pos 1500;
}

collect_events-AllInRange_example :
    AllInRange (pos 0) (pos 7200000) (collect_events reader manifest (second ∷ []) plan)
collect_events-AllInRange_example = collect_events-AllInRange reader manifest (second ∷ []) plan
