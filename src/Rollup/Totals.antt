-- ===== src/Rollup/Totals.antt =====
-- What the rows of a rollup say of the events that they stand for.
use usagedb.Prelude.{
  ℕ, suc, ◌≤◌, ◌≡◌, refl, sym, ap, subst, ◌∙◌, Option, none, some, List, [], ◌∷◌, String, retain,
  arith, length, All,
}
use usagedb.Prelude.Int.{ℤ, ◌+ℤ◌, ◌≤ℤ◌, saturating_add, zero_+ℤ}
use usagedb.Prelude.Map.{get}
use usagedb.Prelude.Entries.{
  update_all, has_key, quantity_or_zero, total, amounts, amount_sizes, count_or_zero, total_count,
  get-update_entries, total-update_entries, total_count-update_entries,
}
use usagedb.Model.{UsageEvent, SmallDimensions}
use usagedb.Rollup.{
  HourlyRollupKey, HourlyRollupRecord, HourlyRollupKey_discrete, Aggregates, rollup_key, or_insert,
  add_to_record, process_events, finalize,
}

abbrev pub sum_of : HourlyRollupRecord → ℤ
sum_of r = r.quantity_sum

abbrev pub events_of : HourlyRollupRecord → ℕ
events_of r = r.event_count

abbrev pub quantity_of : UsageEvent → ℤ
quantity_of e = e.quantity

pub add_to_record_sum :
    (to_json : SmallDimensions → String) (e : UsageEvent) (old : Option HourlyRollupRecord)
    → sum_of (add_to_record to_json e old)
      ≡ saturating_add (quantity_or_zero sum_of old) (quantity_of e)
unfolding add_to_record or_insert
add_to_record_sum to_json e none = refl
add_to_record_sum to_json e (some r) = refl

pub add_to_record_count :
    (to_json : SmallDimensions → String) (e : UsageEvent) (old : Option HourlyRollupRecord)
    → events_of (add_to_record to_json e old) ≡ suc (count_or_zero events_of old)
unfolding add_to_record or_insert
add_to_record_count to_json e none = refl
add_to_record_count to_json e (some r) = refl

-- Every event is counted in one row.
pub process_events_count :
    (to_json : SmallDimensions → String) (es : List UsageEvent)
    → total_count events_of (process_events to_json es) ≡ length es
unfolding process_events
process_events_count to_json es = omega (
  arith,
  total_count-update_entries HourlyRollupKey_discrete (rollup_key to_json) (add_to_record to_json)
      events_of (add_to_record_count to_json) [] es,
)

total-process_events :
    (to_json : SmallDimensions → String) (es : List UsageEvent)
    → amount_sizes quantity_of es ≤ 170141183460469231731687303715884105727
    → total sum_of (process_events to_json es) ≡ amounts quantity_of es
unfolding process_events
total-process_events to_json es h =
    total-update_entries HourlyRollupKey_discrete (rollup_key to_json) (add_to_record to_json)
      sum_of quantity_of (add_to_record_sum to_json) [] es (omega arith)
    ∙ zero_+ℤ (amounts quantity_of es)

pub amounts-finalize : (a : Aggregates) → amounts sum_of (finalize a) ≡ total sum_of a
unfolding finalize
amounts-finalize [] = refl
amounts-finalize ((k, r) ∷ a) = ap (λ t. r.quantity_sum +ℤ t) (amounts-finalize a)

-- The sums of the rows of a rollup add up to the sum of the events' quantities. The condition is that
-- the absolute values of the quantities add up to at most `i128::MAX`.
pub finalize_sum :
    (to_json : SmallDimensions → String) (es : List UsageEvent)
    → amount_sizes quantity_of es ≤ 170141183460469231731687303715884105727
    → amounts sum_of (finalize (process_events to_json es)) ≡ amounts quantity_of es
finalize_sum to_json es h =
    amounts-finalize (process_events to_json es) ∙ total-process_events to_json es h

-- A row's first and last time enclose an event.
abbrev pub Encloses : HourlyRollupRecord → UsageEvent → Type 0
Encloses r e = (r.first_event_ms ≤ℤ e.timestamp_ms) × (e.timestamp_ms ≤ℤ r.last_event_ms)

-- Adding widens a row.
add_widens :
    (to_json : SmallDimensions → String) (d e : UsageEvent) (r : HourlyRollupRecord)
    → Encloses r e
    → Encloses (add_to_record to_json d (some r)) e
unfolding add_to_record or_insert
add_widens to_json d e r h = ground (arith, h.0, h.1)

add-Encloses :
    (to_json : SmallDimensions → String) (e : UsageEvent) (old : Option HourlyRollupRecord)
    → Encloses (add_to_record to_json e old) e
unfolding add_to_record or_insert
add-Encloses to_json e none = ground arith
add-Encloses to_json e (some r) = ground arith

abbrev or_this : HourlyRollupRecord → Option HourlyRollupRecord → HourlyRollupRecord
or_this r none = r
or_this r (some x) = x

some_inj-Encloses :
    (e : UsageEvent) (r r' : HourlyRollupRecord) → Encloses r e → some r ≡ some r' → Encloses r' e
some_inj-Encloses e r r' h k = subst (λ x. Encloses (or_this r x) e) k h

still-Encloses :
    (to_json : SmallDimensions → String) (e : UsageEvent) (r r' : HourlyRollupRecord)
    (es : List UsageEvent)
    → Encloses r e
    → update_all (add_to_record to_json) (some r) es ≡ some r'
    → Encloses r' e
still-Encloses to_json e r r' [] h k = some_inj-Encloses e r r' h k
still-Encloses to_json e r r' (d ∷ es) h k =
    still-Encloses to_json e (add_to_record to_json d (some r)) r' es (add_widens to_json d e r h) k

all_enclosed :
    (to_json : SmallDimensions → String) (old : Option HourlyRollupRecord) (r : HourlyRollupRecord)
    (es : List UsageEvent)
    → update_all (add_to_record to_json) old es ≡ some r
    → All (Encloses r) es
all_enclosed to_json old r [] h = tt
all_enclosed to_json old r (e ∷ es) h = (
  still-Encloses to_json e (add_to_record to_json e old) r es (add-Encloses to_json e old) h,
  all_enclosed to_json (some (add_to_record to_json e old)) r es h,
)

-- The row of a key encloses, between its first and its last time, every event of the batch that has the
-- key.
pub process_events-Encloses :
    (to_json : SmallDimensions → String) (es : List UsageEvent) (key : HourlyRollupKey)
    (r : HourlyRollupRecord)
    → get HourlyRollupKey_discrete key (process_events to_json es) ≡ some r
    → All (Encloses r) (retain (has_key HourlyRollupKey_discrete (rollup_key to_json) key) es)
unfolding process_events get
process_events-Encloses to_json es key r h =
    all_enclosed to_json none r
      (retain (has_key HourlyRollupKey_discrete (rollup_key to_json) key) es)
      (sym (
          get-update_entries HourlyRollupKey_discrete (rollup_key to_json) (add_to_record to_json)
            key [] es)
        ∙ h)
