-- ===== src/Query/Aggregate/Totals.antt =====
-- `aggregate` of src/query/executor.rs: its groups, their sums and their counts.
use usagedb.Prelude.{
  ℕ, suc, some, ◌≤◌, ◌≡◌, refl, ◌∙◌, none, List, [], String, Option, arith, length,
}
use usagedb.Prelude.Int.{ℤ, saturating_add, zero_+ℤ}
use usagedb.Prelude.Entries.{
  quantity_or_zero, total, amounts, amount_sizes, count_or_zero, total_count, total-update_entries,
  total_count-update_entries,
}
use usagedb.Model.{UsageEvent}
use usagedb.Query.Aggregate.{Agg, Strings_discrete, or_default, add_event, group_key, group_events}

abbrev pub quantity_sum_of : Agg → ℤ
quantity_sum_of a = a.quantity_sum

abbrev pub quantity_of : UsageEvent → ℤ
quantity_of e = e.quantity

abbrev pub count_of : Agg → ℕ
count_of a = a.count

adds :
    (e : UsageEvent) (old : Option Agg)
    → quantity_sum_of (add_event e old)
      ≡ saturating_add (quantity_or_zero quantity_sum_of old) (quantity_of e)
unfolding add_event or_default
adds e none = refl
adds e (some a) = refl

counts :
    (e : UsageEvent) (old : Option Agg)
    → count_of (add_event e old) ≡ suc (count_or_zero count_of old)
unfolding add_event or_default
counts e none = refl
counts e (some a) = refl

-- The groups count every event once.
pub group_events_count :
    (decimal : ℤ → String) (group_by : List String) (es : List UsageEvent)
    → total_count count_of (group_events decimal group_by es) ≡ length es
unfolding group_events
group_events_count decimal group_by es = omega (
  arith,
  total_count-update_entries Strings_discrete (group_key decimal group_by) add_event count_of counts
      [] es,
)

-- Whatever the grouping, the sums of the groups add up to the sum of the quantities. The condition is
-- that the absolute values of the quantities add up to at most `i128::MAX`.
pub group_events_sum :
    (decimal : ℤ → String) (group_by : List String) (es : List UsageEvent)
    → amount_sizes quantity_of es ≤ 170141183460469231731687303715884105727
    → total quantity_sum_of (group_events decimal group_by es) ≡ amounts quantity_of es
unfolding group_events
group_events_sum decimal group_by es h =
    total-update_entries Strings_discrete (group_key decimal group_by) add_event quantity_sum_of
      quantity_of adds [] es (omega arith)
    ∙ zero_+ℤ (amounts quantity_of es)
