-- ===== src/Query/Sources/Range.antt =====
-- src/query/executor.rs: the times of the collected rows, and the sums that the rows of a rollup stand for.
use usagedb.Prelude.{
  ◌≡◌, ◌≤◌, refl, ◌∙◌, ap, Option, none, some, List, [], ◌∷◌, ◌++◌, String, retain, map,
  if◌then◌else◌, arith, Bool-cases, inl, inr,
}
use usagedb.Prelude.Int.{ℤ, ltb_ℤ, min_ℤ, max_ℤ, ◌≤ℤ◌, ◌<ℤ◌, ◌+ℤ◌}
use usagedb.Prelude.Entries.{amounts, amount_sizes}
use usagedb.Model.{UsageEvent, SmallDimensions, at_least_one}
use usagedb.Storage.Manifest.{Manifest, SegmentMeta}
use usagedb.Rollup.{HourlyRollupRecord, process_events, finalize}
use usagedb.Rollup.Totals.{sum_of, quantity_of, finalize_sum}
use usagedb.Query.{
  QueryPlan, QuerySource, raw_events, rollup_hourly, in_range, rows_in, read_segment, read_segments,
  segment_overlaps_plan, collect_raw_events,
}
use usagedb.Query.Sources.{
  Reader, rollup_record_to_event, records_in, rollup_possible, read_rollups, raw_rows,
  collect_rollup_then_raw_tail, collect_events,
}

abbrev pub InRange : ℤ → ℤ → UsageEvent → Type 0
InRange from_ms to_ms e = (from_ms ≤ℤ e.timestamp_ms) × (e.timestamp_ms <ℤ to_ms)

abbrev pub AllInRange : ℤ → ℤ → List UsageEvent → Type 0
AllInRange from_ms to_ms [] = Unit {0}
AllInRange from_ms to_ms (e ∷ es) = InRange from_ms to_ms e × AllInRange from_ms to_ms es

append-AllInRange :
    (a b : ℤ) (xs ys : List UsageEvent)
    → AllInRange a b xs
    → AllInRange a b ys
    → AllInRange a b (xs ++ ys)
append-AllInRange a b [] ys p q = q
append-AllInRange a b (x ∷ xs) ys p q = (p.0, append-AllInRange a b xs ys p.1 q)

retain-AllInRange : (a b : ℤ) (es : List UsageEvent) → AllInRange a b (retain (in_range a b) es)
unfolding retain in_range
retain-AllInRange a b [] = tt
retain-AllInRange a b (e ∷ es) = ground (arith, retain-AllInRange a b es)

rows_in-AllInRange : (a b : ℤ) (file : Option (List UsageEvent)) → AllInRange a b (rows_in a b file)
unfolding rows_in
rows_in-AllInRange a b none = tt
rows_in-AllInRange a b (some rows) = retain-AllInRange a b rows

read_segments-AllInRange :
    (read : String → Option (List UsageEvent)) (a b : ℤ) (ss : List SegmentMeta)
    → AllInRange a b (read_segments read a b ss)
unfolding read_segments read_segment
read_segments-AllInRange read a b [] = tt
read_segments-AllInRange read a b (s ∷ ss) =
    append-AllInRange a b (rows_in a b (read s.segment_id)) (read_segments read a b ss)
      (rows_in-AllInRange a b (read s.segment_id)) (read_segments-AllInRange read a b ss)

raw_rows-AllInRange :
    (reader : Reader) (m : Manifest) (memtable : List UsageEvent) (plan : QueryPlan) (a b : ℤ)
    → AllInRange a b (raw_rows reader m memtable plan a b)
unfolding raw_rows collect_raw_events
raw_rows-AllInRange reader m memtable plan a b =
    let n = at_least_one m.bucket_count in
    let kept = retain (λ s. segment_overlaps_plan reader.blake3 s plan a b n) m.raw_segments in
    append-AllInRange a b (read_segments reader.read a b kept) (retain (in_range a b) memtable)
      (read_segments-AllInRange reader.read a b kept) (retain-AllInRange a b memtable)

kept_records :
    (reader : Reader) (a b : ℤ) (rs : List HourlyRollupRecord)
    → AllInRange a b (records_in reader a b (some rs))
unfolding records_in retain rollup_record_to_event
kept_records reader a b [] = tt
kept_records reader a b (r ∷ rs) = ground (arith, kept_records reader a b rs)

records_in-AllInRange :
    (reader : Reader) (a b : ℤ) (file : Option (List HourlyRollupRecord))
    → AllInRange a b (records_in reader a b file)
unfolding records_in
records_in-AllInRange reader a b none = tt
records_in-AllInRange reader a b (some rs) = kept_records reader a b rs

read_rollups-AllInRange :
    (reader : Reader) (a b : ℤ) (ss : List SegmentMeta)
    → AllInRange a b (read_rollups reader a b ss)
unfolding read_rollups
read_rollups-AllInRange reader a b [] = tt
read_rollups-AllInRange reader a b (s ∷ ss) =
    let file = reader.read_rollup s.segment_id s.checksum in
    append-AllInRange a b (records_in reader a b file) (read_rollups reader a b ss)
      (records_in-AllInRange reader a b file) (read_rollups-AllInRange reader a b ss)

narrower :
    (a b c d : ℤ) (es : List UsageEvent) → a ≤ℤ c → d ≤ℤ b → AllInRange c d es → AllInRange a b es
narrower a b c d [] p q h = tt
narrower a b c d (e ∷ es) p q h =
    ((omega (arith, h.0.0), omega (arith, h.0.1)), narrower a b c d es p q h.1)

tail-AllInRange :
    (reader : Reader) (m : Manifest) (memtable : List UsageEvent) (plan : QueryPlan)
    → AllInRange plan.from_ms plan.to_ms (
        if ltb_ℤ m.hourly_rollup_ms plan.to_ms
        then raw_rows reader m memtable plan (max_ℤ plan.from_ms m.hourly_rollup_ms) plan.to_ms
        else [])
tail-AllInRange reader m memtable plan =
    let from_tail = max_ℤ plan.from_ms m.hourly_rollup_ms in
    elim (Bool-cases (ltb_ℤ m.hourly_rollup_ms plan.to_ms)) [
      | inl after ↦ rw after (
          narrower plan.from_ms plan.to_ms from_tail plan.to_ms
            (raw_rows reader m memtable plan from_tail plan.to_ms) (ground arith) (omega arith)
            (raw_rows-AllInRange reader m memtable plan from_tail plan.to_ms))
      | inr before ↦ rw before tt
    ]

source-AllInRange :
    (reader : Reader) (m : Manifest) (memtable : List UsageEvent) (plan : QueryPlan)
    (source : QuerySource)
    → AllInRange plan.from_ms plan.to_ms
        (collect_events reader m memtable (record plan { source = source }))
unfolding collect_events collect_rollup_then_raw_tail
source-AllInRange reader m memtable plan raw_events =
    raw_rows-AllInRange reader m memtable (record plan { source = raw_events }) plan.from_ms
      plan.to_ms
source-AllInRange reader m memtable plan rollup_hourly =
    let p : QueryPlan = record plan { source = rollup_hourly } in
    let upper = min_ℤ plan.to_ms m.hourly_rollup_ms in
    let segments =
      retain (rollup_possible reader p upper (at_least_one m.bucket_count)) m.rollup_segments in
    append-AllInRange plan.from_ms plan.to_ms (read_rollups reader plan.from_ms upper segments)
      (if ltb_ℤ m.hourly_rollup_ms plan.to_ms
        then raw_rows reader m memtable p (max_ℤ plan.from_ms m.hourly_rollup_ms) plan.to_ms
        else [])
      (narrower plan.from_ms plan.to_ms plan.from_ms upper
        (read_rollups reader plan.from_ms upper segments) (omega arith) (ground arith)
        (read_rollups-AllInRange reader plan.from_ms upper segments))
      (tail-AllInRange reader m memtable p)

-- Every row that a query collects, from rollups or from raw events, has its time in [from, to).
pub collect_events-AllInRange :
    (reader : Reader) (m : Manifest) (memtable : List UsageEvent) (plan : QueryPlan)
    → AllInRange plan.from_ms plan.to_ms (collect_events reader m memtable plan)
collect_events-AllInRange reader m memtable plan =
    source-AllInRange reader m memtable plan plan.source

amounts-rows :
    (reader : Reader) (rs : List HourlyRollupRecord)
    → amounts quantity_of (map (rollup_record_to_event reader) rs) ≡ amounts sum_of rs
unfolding rollup_record_to_event
amounts-rows reader [] = refl
amounts-rows reader (r ∷ rs) = ap (λ t. r.quantity_sum +ℤ t) (amounts-rows reader rs)

-- The events that the executor makes of the rows of a rollup add up to the sum of the events that were
-- rolled up. The condition is that the absolute values of the quantities add up to at most `i128::MAX`.
pub rollup_record_to_event_sum :
    (reader : Reader) (to_json : SmallDimensions → String) (es : List UsageEvent)
    → amount_sizes quantity_of es ≤ 170141183460469231731687303715884105727
    → amounts quantity_of
        (map (rollup_record_to_event reader) (finalize (process_events to_json es)))
      ≡ amounts quantity_of es
rollup_record_to_event_sum reader to_json es h =
    amounts-rows reader (finalize (process_events to_json es)) ∙ finalize_sum to_json es h
