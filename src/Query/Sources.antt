-- ===== src/Query/Sources.antt =====
-- src/query/executor.rs: `execute_plan` and its two sources of rows.
-- A rollup file is read by a parameter, from its identifier and checksum: `none` where it is missing or
-- cannot be opened. The JSON of the dimensions (serde_json) is a parameter, `none` where it does not
-- parse.
pub mod Range
use usagedb.Prelude.{
  ℕ, Bool, true, false, not, ◌&&◌, Option, none, some, List, [], ◌∷◌, ◌++◌, String, retain, map,
  ◌==◌, if◌then◌else◌,
}
use usagedb.Prelude.Int.{ℤ, ltb_ℤ, leb_ℤ, min_ℤ, max_ℤ}
use usagedb.Prelude.Text
use usagedb.Model.{UsageEvent, SmallDimensions, usage, bucket_for_account, at_least_one}
use usagedb.Storage.Manifest.{Manifest, SegmentMeta}
use usagedb.Rollup.{HourlyRollupRecord}
use usagedb.Query.{QueryPlan, QuerySource, raw_events, rollup_hourly, collect_raw_events}
use usagedb.Query.Aggregate.{Value, aggregate}

-- What the executor calls and does not define. `rollup_id` is the text `rollup_{hour}`.
pub record Reader : Type 0 where
  pub blake3 : List ℕ → List ℕ
  pub read : String → Option (List UsageEvent)
  pub read_rollup : String → ℕ → Option (List HourlyRollupRecord)
  pub parse_dimensions : String → Option SmallDimensions
  pub rollup_id : ℤ → String
  pub decimal : ℤ → String

-- `unwrap_or_default`.
unfoldable pub dimensions_or_empty : Option SmallDimensions → SmallDimensions
dimensions_or_empty none = record { inner = [] }
dimensions_or_empty (some d) = d

unfoldable pub rollup_record_to_event : Reader → HourlyRollupRecord → UsageEvent
unfolding dimensions_or_empty
rollup_record_to_event reader r = record {
  event_id = reader.rollup_id r.hour_start_ms;
  kind = usage;
  correction_ref = none;
  account_id = r.account_id;
  subscription_id = r.subscription_id;
  product_id = r.product_id;
  meter_id = r.meter_id;
  timestamp_ms = r.hour_start_ms;
  quantity = r.quantity_sum;
  unit = r.unit;
  source = r.source;
  model_id = r.model_id;
  dimensions = dimensions_or_empty (reader.parse_dimensions r.dimensions_canonical);
  ingested_at_ms = r.last_event_ms;
}

unfoldable pub bucket_possible : (List ℕ → List ℕ) → Option String → ℕ → SegmentMeta → Bool
bucket_possible blake3 none bucket_count s = true
bucket_possible blake3 (some account) bucket_count s =
    s.bucket == bucket_for_account blake3 account bucket_count

unfoldable pub rollup_possible : Reader → QueryPlan → ℤ → ℕ → SegmentMeta → Bool
unfolding bucket_possible
rollup_possible reader plan rollup_upper bucket_count s =
    (ltb_ℤ s.min_timestamp_ms rollup_upper && leb_ℤ plan.from_ms s.max_timestamp_ms)
    && bucket_possible reader.blake3 plan.account_id bucket_count s

unfoldable pub records_in : Reader → ℤ → ℤ → Option (List HourlyRollupRecord) → List UsageEvent
unfolding rollup_record_to_event
records_in reader from_ms upper none = []
records_in reader from_ms upper (some records) = map (rollup_record_to_event reader) (
    retain
      (λ (r : HourlyRollupRecord). leb_ℤ from_ms r.hour_start_ms && ltb_ℤ r.hour_start_ms upper)
      records)

unfoldable pub read_rollups : Reader → ℤ → ℤ → List SegmentMeta → List UsageEvent
unfolding records_in
read_rollups reader from_ms upper [] = []
read_rollups reader from_ms upper (s ∷ ss) =
    records_in reader from_ms upper (reader.read_rollup s.segment_id s.checksum)
    ++ read_rollups reader from_ms upper ss

unfoldable pub raw_rows : Reader → Manifest → List UsageEvent → QueryPlan → ℤ → ℤ → List UsageEvent
unfolding collect_raw_events
raw_rows reader m memtable plan from_ms to_ms =
    collect_raw_events reader.blake3 reader.read m.raw_segments m.bucket_count memtable plan from_ms
      to_ms

unfoldable pub collect_rollup_then_raw_tail :
    Reader → Manifest → List UsageEvent → QueryPlan → List UsageEvent
unfolding rollup_possible read_rollups raw_rows
collect_rollup_then_raw_tail reader m memtable plan =
    let watermark = m.hourly_rollup_ms in
    let rollup_upper = min_ℤ plan.to_ms watermark in
    let segments =
      retain (rollup_possible reader plan rollup_upper (at_least_one m.bucket_count))
        m.rollup_segments in
    read_rollups reader plan.from_ms rollup_upper segments
    ++ (if ltb_ℤ watermark plan.to_ms
        then raw_rows reader m memtable plan (max_ℤ plan.from_ms watermark) plan.to_ms
        else [])

unfoldable pub collect_events : Reader → Manifest → List UsageEvent → QueryPlan → List UsageEvent
unfolding collect_rollup_then_raw_tail
collect_events reader m memtable plan = elim plan.source [
  | raw_events ↦ raw_rows reader m memtable plan plan.from_ms plan.to_ms
  | rollup_hourly ↦ collect_rollup_then_raw_tail reader m memtable plan
]

unfoldable pub execute_plan : Reader → Manifest → List UsageEvent → QueryPlan → List Value
unfolding collect_events aggregate
execute_plan reader m memtable plan =
    aggregate reader.decimal plan (collect_events reader m memtable plan)
