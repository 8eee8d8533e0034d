-- ===== src/Rollup/Hours/Totals.antt =====
-- The sums of one hour's rollups.
use usagedb.Prelude.{
  ℕ, ◌+◌, ◌≤◌, ◌≡◌, refl, sym, ap, ◌∙◌, Option, none, some, List, [], ◌∷◌, ◌++◌, String, ℕ_discrete,
  length, arith, Option-cases, inl, inr, ◌⊎◌, subst,
}
use usagedb.Prelude.Int.{ℤ, pos, ◌+ℤ◌, int_laws, add64, zero_+ℤ, +ℤ_assoc}
use usagedb.Prelude.Map.{get, remove}
use usagedb.Prelude.Entries.{
  size, total, sizes, amounts, amount_sizes, count_or_zero, total_count, quantity_or_zero,
  total-update_entries, sizes-update_entries, total-update_parts, exact_add, size-+ℤ,
}
use usagedb.Model.{UsageEvent, SmallDimensions}
use usagedb.Storage.Manifest.{SegmentMeta}
use usagedb.Rollup.{
  HourlyRollupRecord, HourlyRollupKey_discrete, Aggregates, rollup_key, add_to_record, finalize,
}
use usagedb.Rollup.Totals.{sum_of, quantity_of, add_to_record_sum, amounts-finalize}
use usagedb.Rollup.Hours.{
  Run, HourLoop, Builders, scan_segments, process_event, bucket_of, or_default, hour_ms,
  RollupMetaLoop, scan_record, scan_records, HourResult, hour_failed, hour_rolled, Inputs,
  write_builders, roll_hour, RollupAnswer, RollupFiles, RollupResult, rollup_failed, rollup_written,
  WriteOutcome, not_created, broken_off, finished, write_rollup_segment, build_rollup_segment_meta,
  rollup_start,
}
use usagedb.Rollup.Hours.Events.{
  hour_events, add_all, AllSpanned, BuildersIf, scan_segments-builders,
}

+ℤ_zero : (a : ℤ) → a +ℤ pos 0 ≡ a
+ℤ_zero a = omega int_laws

-- A builder as the sum of its rows.
abbrev pub builder_sum : Aggregates → ℤ
builder_sum a = total sum_of a

abbrev builder_weight : Aggregates → ℕ
builder_weight a = sizes sum_of a

update_one :
    (to_json : SmallDimensions → String) (e : UsageEvent) (a : Aggregates)
    → builder_weight a + size (quantity_of e) ≤ 170141183460469231731687303715884105727
    → (builder_sum (process_event to_json e (some a)) ≡ builder_sum a +ℤ quantity_of e)
      × (builder_weight (process_event to_json e (some a))
          ≤ builder_weight a + size (quantity_of e))
unfolding process_event or_default
update_one to_json e a h =
    let bound : sizes sum_of a + amount_sizes quantity_of (e ∷ [])
        ≤ 170141183460469231731687303715884105727 =
      omega (arith, h) in
    (
      total-update_entries HourlyRollupKey_discrete (rollup_key to_json) (add_to_record to_json)
            sum_of quantity_of (add_to_record_sum to_json) a (e ∷ []) bound
          ∙ ap (λ t. builder_sum a +ℤ t) (+ℤ_zero (quantity_of e)),
      omega (
        arith,
        sizes-update_entries HourlyRollupKey_discrete (rollup_key to_json) (add_to_record to_json)
            sum_of quantity_of (add_to_record_sum to_json) a (e ∷ []) bound,
      ),
    )

process_event_adds :
    (to_json : SmallDimensions → String) (e : UsageEvent) (old : Option Aggregates)
    → count_or_zero builder_weight old + size (quantity_of e)
      ≤ 170141183460469231731687303715884105727
    → (builder_sum (process_event to_json e old)
        ≡ quantity_or_zero builder_sum old +ℤ quantity_of e)
      × (builder_weight (process_event to_json e old)
          ≤ count_or_zero builder_weight old + size (quantity_of e))
unfolding process_event or_default
process_event_adds to_json e none h = update_one to_json e [] h
process_event_adds to_json e (some a) h = update_one to_json e a h

-- The builders of an hour hold the sum of the hour's events.
pub add_all-total :
    (run : Run) (events : List UsageEvent)
    → amount_sizes quantity_of events ≤ 170141183460469231731687303715884105727
    → (total builder_sum (add_all run [] events) ≡ amounts quantity_of events)
      × (total_count builder_weight (add_all run [] events) ≤ amount_sizes quantity_of events)
add_all-total run events h =
    let (exact, bound) =
      total-update_parts ℕ_discrete (bucket_of run) (process_event run.to_json) builder_sum
        quantity_of builder_weight (process_event_adds run.to_json) [] events (omega (arith, h)) in
    (exact ∙ zero_+ℤ (amounts quantity_of events), omega (arith, bound))

amount_sizes-finalize : (a : Aggregates) → amount_sizes sum_of (finalize a) ≡ builder_weight a
unfolding finalize
amount_sizes-finalize [] = refl
amount_sizes-finalize ((k, r) ∷ a) = omega (arith, amount_sizes-finalize a)

scan_records_sum :
    (m : RollupMetaLoop) (rs : List HourlyRollupRecord)
    → size m.quantity_sum + amount_sizes sum_of rs ≤ 170141183460469231731687303715884105727
    → (scan_records m rs).quantity_sum ≡ m.quantity_sum +ℤ amounts sum_of rs
unfolding scan_records scan_record
scan_records_sum m [] h = omega int_laws
scan_records_sum m (r ∷ rs) h =
    let exact = exact_add m.quantity_sum r.quantity_sum (omega (arith, h)) in
    let step = size-+ℤ m.quantity_sum r.quantity_sum in
    scan_records_sum (scan_record m r) rs (rw exact (omega (arith, h, step)))
    ∙ ap (λ t. t +ℤ amounts sum_of rs) exact
    ∙ +ℤ_assoc m.quantity_sum r.quantity_sum (amounts sum_of rs)

-- `quantity_sum` of the metadata; every rollup has one.
abbrev sum_or_zero : Option ℤ → ℤ
sum_or_zero none = pos 0
sum_or_zero (some q) = q

abbrev pub meta_sum : SegmentMeta → ℤ
meta_sum m = sum_or_zero m.quantity_sum

amounts-append :
    (xs ys : List SegmentMeta)
    → amounts meta_sum (xs ++ ys) ≡ amounts meta_sum xs +ℤ amounts meta_sum ys
amounts-append [] ys = sym (zero_+ℤ (amounts meta_sum ys))
amounts-append (x ∷ xs) ys =
    rw (amounts-append xs ys)
      (sym (+ℤ_assoc (meta_sum x) (amounts meta_sum xs) (amounts meta_sum ys)))

abbrev SumIf : ℤ → HourResult → Type 0
SumIf sum (hour_failed files) = Unit
SumIf sum (hour_rolled new_segments files) = amounts meta_sum new_segments ≡ sum

abbrev WrittenSum : ℤ → RollupResult → Type 0
WrittenSum sum (rollup_failed files) = Unit
WrittenSum sum (rollup_written meta files) = meta_sum meta ≡ sum

written_sum :
    (id : String) (checksum : ℕ) (outcome : WriteOutcome) (records : List HourlyRollupRecord)
    (bucket : ℕ) (from to : ℤ) (inputs : List String) (files : RollupFiles)
    → amount_sizes sum_of records ≤ 170141183460469231731687303715884105727
    → WrittenSum (amounts sum_of records) (
        write_rollup_segment
          (record { segment_id = id; checksum = checksum; outcome = outcome })
          records
          bucket
          from
          to
          inputs
          files)
unfolding write_rollup_segment build_rollup_segment_meta
written_sum id checksum not_created records bucket from to inputs files h = tt
written_sum id checksum broken_off records bucket from to inputs files h = tt
written_sum id checksum finished records bucket from to inputs files h =
    scan_records_sum rollup_start records (omega (arith, h)) ∙ zero_+ℤ (amounts sum_of records)

RollupResult-cases :
    (r : RollupResult)
    → ((files : RollupFiles) × (r ≡ rollup_failed files))
      ⊎ ((meta : SegmentMeta) × ((files : RollupFiles) × (r ≡ rollup_written meta files)))
RollupResult-cases (rollup_failed files) = inl (files, refl)
RollupResult-cases (rollup_written meta files) = inr (meta, (files, refl))

SumIf-cast : {x y : ℤ} (r : HourResult) → x ≡ y → SumIf x r → SumIf y r
SumIf-cast (hour_failed files) h k = tt
SumIf-cast (hour_rolled new_segments files) h k = k ∙ h

append_meta :
    (new_segments : List SegmentMeta) (meta : SegmentMeta) (t u : ℤ)
    → meta_sum meta ≡ t
    → amounts meta_sum (new_segments ++ meta ∷ []) +ℤ u ≡ amounts meta_sum new_segments +ℤ (t +ℤ u)
append_meta new_segments meta t u h =
    rw (amounts-append new_segments (meta ∷ []), h)
      (rw (+ℤ_zero t) (+ℤ_assoc (amounts meta_sum new_segments) t u))

write_builders-sum :
    (answer : ℕ → RollupAnswer) (hour : ℤ) (inputs : Inputs) (builders : Builders)
    (new_segments : List SegmentMeta) (files : RollupFiles)
    → total_count builder_weight builders ≤ 170141183460469231731687303715884105727
    → SumIf
        (amounts meta_sum new_segments +ℤ total builder_sum builders)
        (write_builders answer hour inputs builders new_segments files)
unfolding write_builders finalize
write_builders-sum answer hour inputs [] new_segments files h =
    sym (+ℤ_zero (amounts meta_sum new_segments))
write_builders-sum answer hour inputs ((bucket, []) ∷ rest) new_segments files h =
    SumIf-cast (write_builders answer hour inputs rest new_segments files)
      (sym (ap (λ t. amounts meta_sum new_segments +ℤ t) (zero_+ℤ (total builder_sum rest))))
      (write_builders-sum answer hour inputs rest new_segments files (omega (arith, h)))
write_builders-sum answer hour inputs ((bucket, (k, r) ∷ rs) ∷ rest) new_segments files h =
    let a : RollupAnswer = answer (length new_segments) in
    let builder : Aggregates = (k, r) ∷ rs in
    let hour_end = add64 hour (pos hour_ms) in
    let ids : List String = or_default (get ℕ_discrete bucket inputs) in
    let result : RollupResult =
      write_rollup_segment a (r ∷ finalize rs) bucket hour hour_end ids files in
    let here : WrittenSum (amounts sum_of (r ∷ finalize rs)) result =
      written_sum a.segment_id a.checksum a.outcome (r ∷ finalize rs) bucket hour hour_end ids files
        (omega (arith, h, amount_sizes-finalize builder)) in
    elim (RollupResult-cases result) [
      | inl (files', failed) ↦ rw (write_builders, failed) tt
      | inr (meta, (files', wrote)) ↦
          rw (write_builders, wrote)
            (SumIf-cast
              (write_builders answer hour (remove ℕ_discrete bucket inputs) rest
                (new_segments ++ meta ∷ []) files')
              (append_meta new_segments meta (builder_sum builder) (total builder_sum rest) (
                subst (WrittenSum (amounts sum_of (r ∷ finalize rs))) wrote here
                ∙ amounts-finalize builder))
              (write_builders-sum answer hour (remove ℕ_discrete bucket inputs) rest
                (new_segments ++ meta ∷ []) files' (omega (arith, h))))
    ]

-- The sums in the metadata of the rollups that an hour adds are together the sum of the quantities of
-- the hour's raw events: those in the hour, in all segments whose files are there, of which the
-- hour and bucket are not rolled up already. The conditions: the metadata spans the times of the
-- rows, the sizes of the quantities add up to at most `i128::MAX`, and the hour does not fail.
pub roll_hour_sum :
    (run : Run) (answer : ℕ → RollupAnswer) (hour : ℤ) (old new_segments : List SegmentMeta)
    (files files' : RollupFiles)
    → AllSpanned run run.raw_segments
    → amount_sizes quantity_of (hour_events run hour run.raw_segments)
      ≤ 170141183460469231731687303715884105727
    → roll_hour run answer hour old files ≡ hour_rolled new_segments files'
    → amounts meta_sum new_segments
      ≡ amounts meta_sum old +ℤ amounts quantity_of (hour_events run hour run.raw_segments)
unfolding roll_hour
roll_hour_sum run answer hour old new_segments files files' spanned h rolled =
    let events = hour_events run hour run.raw_segments in
    let start : HourLoop = record { by_bucket = []; inputs_by_bucket = [] } in
    let (exact, bound) = add_all-total run events h in
    subst (SumIf (amounts meta_sum old +ℤ amounts quantity_of events)) rolled
      (elim (Option-cases (scan_segments run hour run.raw_segments start)) [
        | inl failed ↦ rw (roll_hour, failed) tt
        | inr (l, scanned) ↦
            let built : l.by_bucket ≡ add_all run [] events =
              subst (BuildersIf run [] events) scanned
                (scan_segments-builders run hour run.raw_segments start spanned) in
            rw (roll_hour, scanned)
              (SumIf-cast (write_builders answer hour l.inputs_by_bucket l.by_bucket old files)
                (ap (λ t. amounts meta_sum old +ℤ t) (ap (total builder_sum) built ∙ exact))
                (write_builders-sum answer hour l.inputs_by_bucket l.by_bucket old files
                  (rw built (omega (arith, bound, h)))))
      ])
