-- ===== src/Query.antt =====
-- src/query/plan.rs and src/query/executor.rs: the plan of a query, its filters, the pruning of
-- segments and the aggregation.
-- A segment file is read by a parameter: `none` where it is missing or cannot be opened, else the rows
-- up to the first read error. The hash (blake3) and the decimal text of an integer are parameters. A
-- JSON object is an association list.
pub mod Pruning
pub mod Scan
pub mod Aggregate
pub mod Sources
use usagedb.Prelude.{
  ℕ, suc, ◌≡◌, Bool, true, false, not, Option, none, some, List, [], ◌∷◌, ◌++◌, map, String, ite,
  ◌&&◌, ◌||◌, ◌==◌, any, retain, is_empty, if◌then◌else◌, ap,
}
use usagedb.Prelude.Int.{ℤ, pos, ltb_ℤ, leb_ℤ, div_trunc, scale, saturating_add}
use usagedb.Prelude.Text.{String_discrete, str_lt}
use usagedb.Prelude.Map.{get, insert}
use usagedb.Model.{
  UsageEvent, EventKind, usage, correction, retraction, bucket_for_account, at_least_one,
}
use usagedb.Storage.Manifest.{SegmentMeta}
use usagedb.Ingest.Segments.{contains}

-- plan.rs
pub data QuerySource : Type 0 where
  raw_events rollup_hourly : QuerySource

pub record QueryFilter : Type 0 where
  pub field : String
  pub values : List String

pub data AggregationFunction : Type 0 where
  sum count : AggregationFunction

pub record QueryPlan : Type 0 where
  pub source : QuerySource
  pub account_id : Option String
  pub from_ms : ℤ
  pub to_ms : ℤ
  pub filters : List QueryFilter
  pub group_by : List String
  pub metrics : List (String × AggregationFunction)
  pub limit : Option ℕ

-- executor.rs
unfoldable pub kind_name : EventKind → String
kind_name usage = "Usage"
kind_name correction = "Correction"
kind_name retraction = "Retraction"

-- The columns that a filter knows by name; `none` is the arm `other`.
unfoldable pub column : String → UsageEvent → Option (Option String)
unfolding kind_name
column field e = ite (String_discrete field "account_id") (some (some e.account_id)) (
    ite (String_discrete field "subscription_id") (some e.subscription_id) (
      ite (String_discrete field "product_id") (some (some e.product_id)) (
        ite (String_discrete field "meter_id") (some (some e.meter_id)) (
          ite (String_discrete field "model_id") (some e.model_id) (
            ite (String_discrete field "source") (some (some e.source)) (
              ite (String_discrete field "unit") (some (some e.unit))
                (ite (String_discrete field "kind") (some (some (kind_name e.kind))) none)))))))

unfoldable pub actual_value : String → UsageEvent → Option String
unfolding column
actual_value field e = elim (column field e) [
  | some v ↦ v
  | none ↦ get String_discrete field e.dimensions.inner
]

unfoldable pub passes : QueryFilter → UsageEvent → Bool
unfolding actual_value
passes f e = elim (actual_value f.field e) [ none ↦ false | some v ↦ contains v f.values ]

unfoldable pub passes_all : List QueryFilter → UsageEvent → Bool
unfolding passes
passes_all [] e = true
passes_all (f ∷ fs) e = passes f e && passes_all fs e

unfoldable pub is_account : Option String → UsageEvent → Bool
is_account none e = true
is_account (some a) e = ite (String_discrete e.account_id a) true false

unfoldable pub in_range : ℤ → ℤ → UsageEvent → Bool
in_range from_ms to_ms e = leb_ℤ from_ms e.timestamp_ms && ltb_ℤ e.timestamp_ms to_ms

unfoldable pub matches_plan : QueryPlan → UsageEvent → Bool
unfolding passes_all is_account in_range
matches_plan plan e =
    in_range plan.from_ms plan.to_ms e
    && (is_account plan.account_id e && passes_all plan.filters e)

-- The values that the filters on a field allow, together.
unfoldable pub values_on : String → List QueryFilter → List String
values_on field [] = []
values_on field (f ∷ fs) =
    let rest = values_on field fs in ite (String_discrete f.field field) (f.values ++ rest) rest

unfoldable pub filter_intersects : List QueryFilter → String → List String → Bool
unfolding values_on
filter_intersects filters field ids =
    let values = values_on field filters in
    if is_empty values then true else any (λ id. contains id values) ids

unfoldable pub outside : String → Option String → Option String → Bool
outside account none max = false
outside account (some min) none = false
outside account (some min) (some max) = str_lt account min || str_lt max account

unfoldable pub account_possible : (List ℕ → List ℕ) → SegmentMeta → Option String → ℕ → Bool
unfolding outside
account_possible blake3 s none bucket_count = true
account_possible blake3 s (some account) bucket_count =
    if s.bucket == bucket_for_account blake3 account bucket_count
    then not (outside account s.min_account_id s.max_account_id)
    else false

unfoldable pub segment_overlaps_plan :
    (List ℕ → List ℕ) → SegmentMeta → QueryPlan → ℤ → ℤ → ℕ → Bool
unfolding account_possible filter_intersects
segment_overlaps_plan blake3 s plan from_ms to_ms bucket_count =
    (ltb_ℤ s.min_timestamp_ms to_ms && leb_ℤ from_ms s.max_timestamp_ms)
    && (account_possible blake3 s plan.account_id bucket_count
        && (filter_intersects plan.filters "product_id" s.product_ids
            && (filter_intersects plan.filters "meter_id" s.meter_ids
                && filter_intersects plan.filters "model_id" s.model_ids)))

-- The rows of one segment file that lie in [from, to).
unfoldable pub rows_in : ℤ → ℤ → Option (List UsageEvent) → List UsageEvent
unfolding in_range
rows_in from_ms to_ms none = []
rows_in from_ms to_ms (some rows) = retain (in_range from_ms to_ms) rows

unfoldable pub read_segment :
    (String → Option (List UsageEvent)) → ℤ → ℤ → SegmentMeta → List UsageEvent
unfolding rows_in
read_segment read from_ms to_ms s = rows_in from_ms to_ms (read s.segment_id)

unfoldable pub read_segments :
    (String → Option (List UsageEvent)) → ℤ → ℤ → List SegmentMeta → List UsageEvent
unfolding read_segment
read_segments read from_ms to_ms [] = []
read_segments read from_ms to_ms (s ∷ ss) =
    read_segment read from_ms to_ms s ++ read_segments read from_ms to_ms ss

unfoldable pub collect_raw_events :
    (List ℕ → List ℕ)
    → (String → Option (List UsageEvent))
    → List SegmentMeta
    → ℕ
    → List UsageEvent
    → QueryPlan
    → ℤ
    → ℤ
    → List UsageEvent
unfolding segment_overlaps_plan read_segments at_least_one
collect_raw_events blake3 read segments bucket_count memtable plan from_ms to_ms =
    let bc = at_least_one bucket_count in
    let paths = retain (λ s. segment_overlaps_plan blake3 s plan from_ms to_ms bc) segments in
    read_segments read from_ms to_ms paths ++ retain (in_range from_ms to_ms) memtable

unfoldable pub group_key_value : (ℤ → String) → String → UsageEvent → String
unfolding actual_value
group_key_value decimal field e =
    ite (String_discrete field "hour_start_ms")
      (decimal (scale (div_trunc e.timestamp_ms 3600000) 3600000))
      (ite (String_discrete field "day")
        (decimal (scale (div_trunc e.timestamp_ms 86400000) 86400000))
        (elim (actual_value field e) [ none ↦ "" | some v ↦ v ]))
