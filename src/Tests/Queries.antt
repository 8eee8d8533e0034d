-- ===== src/Tests/Queries.antt =====
-- A segment with one event, and a query that asks for it; grouping and rolling up two events.
use usagedb.Prelude.{
  ℕ, ◌≡◌, ◌≤◌, ◌++◌, ◌∙◌, refl, none, some, Option, List, [], ◌∷◌, String, arith, All, retain,
  length, true, if_pos,
}
use usagedb.Prelude.Int.{ℤ, pos}
use usagedb.Prelude.Map.{get, get-insert}
use usagedb.Prelude.Entries.{total, amounts, update_entries}
use usagedb.Model.{UsageEvent, SmallDimensions, bucket_for_account, at_least_one}
use usagedb.Storage.Manifest.{SegmentMeta}
use usagedb.Ingest.Segments.{build_segment_meta}
use usagedb.Ingest.Segments.Bounds.{AllI64, Describes, build_segment_meta-Describes}
use usagedb.Query.{
  QueryPlan, raw_events, sum, in_range, matches_plan, segment_overlaps_plan, collect_raw_events,
  read_segments,
}
use usagedb.Query.Pruning.{segment_overlaps_plan_complete}
use usagedb.Query.Scan.{AllFaithful, collect_raw_events_complete}
use usagedb.Query.Aggregate.{group_events}
use usagedb.Query.Aggregate.Totals
use usagedb.Query.Aggregate.Totals.{group_events_sum, quantity_sum_of, count_of}
use usagedb.Rollup.{
  HourlyRollupKey, HourlyRollupRecord, HourlyRollupKey_discrete, rollup_key, add_to_record,
  process_events, finalize,
}
use usagedb.Rollup.Totals.{sum_of, quantity_of, finalize_sum}
use usagedb.Tests.Data.{first, second, sample_env}

first_in_range : AllI64 (first ∷ [])
first_in_range = ((omega arith, omega arith), tt)

abbrev first_bucket : ℕ
first_bucket = bucket_for_account sample_env.blake3 "x" (at_least_one 16)

abbrev segment : SegmentMeta
segment = build_segment_meta "s1" (first ∷ []) first_bucket 0

build_segment_meta-Describes_example : All (Describes segment) (first ∷ [])
build_segment_meta-Describes_example =
    build_segment_meta-Describes "s1" (first ∷ []) first_bucket 0 first_in_range

abbrev plan : QueryPlan
plan = record {
  source = raw_events;
  account_id = some "x";
  from_ms = pos 500;
  to_ms = pos 1500;
  filters = record { field = "product_id"; values = "api" ∷ [] } ∷ [];
  group_by = "account_id" ∷ [];
  metrics = ("total", sum) ∷ [];
  limit = none;
}

described : Describes segment first
described = (build_segment_meta-Describes "s1" (first ∷ []) first_bucket 0 first_in_range).0

in_bucket : segment.bucket ≡ first_bucket
unfolding build_segment_meta
in_bucket = refl

matches : matches_plan plan first ≡ true
unfolding matches_plan in_range usagedb.Query.is_account usagedb.Query.passes_all
    usagedb.Query.passes usagedb.Query.actual_value usagedb.Query.column
    usagedb.Prelude.Text.String_discrete usagedb.Prelude.Text.decide_by
    usagedb.Ingest.Segments.contains
matches = refl

inside : in_range (pos 500) (pos 1500) first ≡ true
unfolding in_range
inside = refl

segment_overlaps_plan_complete_example :
    segment_overlaps_plan sample_env.blake3 segment plan (pos 500) (pos 1500) (at_least_one 16)
    ≡ true
segment_overlaps_plan_complete_example =
    segment_overlaps_plan_complete sample_env.blake3 segment plan (pos 500) (pos 1500)
      (at_least_one 16) first described in_bucket inside matches

abbrev read : String → Option (List UsageEvent)
read id = some (first ∷ [])

faithful : AllFaithful sample_env.blake3 read (at_least_one 16) (segment ∷ [])
faithful = (((described, in_bucket), tt), tt)

collect_raw_events_complete_example :
    retain (matches_plan plan) (
      collect_raw_events sample_env.blake3 read
        (segment ∷ [])
        16
        (second ∷ [])
        plan
        (pos 500)
        (pos 1500))
    ≡ retain (matches_plan plan) (
        read_segments read (pos 500) (pos 1500) (segment ∷ [])
        ++ retain (in_range (pos 500) (pos 1500)) (second ∷ []))
collect_raw_events_complete_example =
    collect_raw_events_complete sample_env.blake3 read (segment ∷ []) 16 (second ∷ []) plan
      (pos 500) (pos 1500) faithful

abbrev decimal : ℤ → String
decimal z = "0"

abbrev two : List UsageEvent
two = first ∷ second ∷ []

group_events_sum_example :
    total quantity_sum_of (group_events decimal ("account_id" ∷ []) two)
    ≡ amounts Totals.quantity_of two
group_events_sum_example = group_events_sum decimal ("account_id" ∷ []) two (omega arith)

abbrev to_json : SmallDimensions → String
to_json d = "{}"

finalize_sum_example :
    amounts sum_of (finalize (process_events to_json two)) ≡ amounts quantity_of two
finalize_sum_example = finalize_sum to_json two (omega arith)

abbrev key : HourlyRollupKey
key = rollup_key to_json first

abbrev pub row : HourlyRollupRecord
row = add_to_record to_json first none

has_row : get HourlyRollupKey_discrete key (process_events to_json (first ∷ [])) ≡ some row
unfolding process_events update_entries get
has_row =
    get-insert HourlyRollupKey_discrete key key row []
    ∙ if_pos (HourlyRollupKey_discrete key key) refl (some row) none
