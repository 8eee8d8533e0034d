-- ===== src/Query/Aggregate.antt =====
-- src/query/executor.rs: `aggregate`. The groups are a `BTreeMap`, here an association list that is
-- sorted by its keys where the map is iterated. `serde_json::to_value` of an event and the decimal text
-- of an integer are parameters.
pub mod Totals
use usagedb.Prelude.{
  ℕ, suc, ◌+◌, ◌≡◌, refl, subst, arith, Bool, true, false, not, ◌&&◌, Option, none, some, List, [],
  ◌∷◌, map, String, ite, retain, is_empty, if◌then◌else◌,
}
use usagedb.Prelude.Int.{ℤ, pos, saturating_add}
use usagedb.Prelude.Text.{String_discrete, str_lt, decide_by}
use usagedb.Prelude.Map.{insert}
use usagedb.Prelude.Entries.{update_entries}
use usagedb.Model.{UsageEvent}
use usagedb.Query.{QueryPlan, AggregationFunction, sum, count, matches_plan, group_key_value}

pub data Cell : Type 0 where
  text : String → Cell
  number : ℕ → Cell

pub data Value : Type 0 where
  row : UsageEvent → Value
  object : List (String × Cell) → Value

pub record Agg : Type 0 where
  pub quantity_sum : ℤ
  pub count : ℕ

abbrev pub Groups : Type 0
Groups = List (List String × Agg)

unfoldable pub strings_eq : List String → List String → Bool
strings_eq [] [] = true
strings_eq [] (t ∷ ts) = false
strings_eq (s ∷ ss) [] = false
strings_eq (s ∷ ss) (t ∷ ts) = let rest = strings_eq ss ts in ite (String_discrete s t) rest false

pub strings_eq_sound : (ss ts : List String) → strings_eq ss ts ≡ true → ss ≡ ts
unfolding strings_eq
strings_eq_sound [] [] h = cc
strings_eq_sound [] (t ∷ ts) h = cc
strings_eq_sound (s ∷ ss) [] h = cc
strings_eq_sound (s ∷ ss) (t ∷ ts) h = ground (arith, strings_eq_sound ss ts)

pub strings_eq_refl : (ss : List String) → strings_eq ss ss ≡ true
unfolding strings_eq
strings_eq_refl [] = refl
strings_eq_refl (s ∷ ss) = ground (arith, strings_eq_refl ss)

unfoldable pub Strings_discrete : Discrete (List String)
Strings_discrete ss ts =
    decide_by (strings_eq ss ts) (strings_eq_sound ss ts)
      (λ e. subst (λ x. strings_eq ss x ≡ true) e (strings_eq_refl ss))

abbrev pub empty_agg : Agg
empty_agg = record { quantity_sum = pos 0; count = 0 }

-- `or_default`.
unfoldable pub or_default : Option Agg → Agg
or_default none = empty_agg
or_default (some a) = a

unfoldable pub add_event : UsageEvent → Option Agg → Agg
unfolding or_default
add_event e old =
    let a = or_default old in
    record { quantity_sum = saturating_add a.quantity_sum e.quantity; count = suc a.count }

unfoldable pub group_key : (ℤ → String) → List String → UsageEvent → List String
group_key decimal group_by e = map (λ g. group_key_value decimal g e) group_by

unfoldable pub group_events : (ℤ → String) → List String → List UsageEvent → Groups
unfolding group_key add_event update_entries
group_events decimal group_by es =
    update_entries Strings_discrete (group_key decimal group_by) add_event [] es

-- The order of `Vec<String>`.
unfoldable pub strings_lt : List String → List String → Bool
strings_lt [] [] = false
strings_lt [] (t ∷ ts) = true
strings_lt (s ∷ ss) [] = false
strings_lt (s ∷ ss) (t ∷ ts) =
    let rest = strings_lt ss ts in if str_lt s t then true else ite (String_discrete s t) rest false

unfoldable pub place_group : List String × Agg → Groups → Groups
unfolding strings_lt
place_group g [] = g ∷ []
place_group g (h ∷ hs) =
    let later = h ∷ place_group g hs in if strings_lt h.0 g.0 then later else g ∷ h ∷ hs

unfoldable pub in_key_order : Groups → Groups
unfolding place_group
in_key_order [] = []
in_key_order (g ∷ gs) = place_group g (in_key_order gs)

unfoldable pub metric_value : (ℤ → String) → AggregationFunction → Agg → Cell
metric_value decimal sum a = text (decimal a.quantity_sum)
metric_value decimal count a = number a.count

unfoldable pub set_metrics :
    (ℤ → String)
    → List (String × AggregationFunction)
    → Agg
    → List (String × Cell)
    → List (String × Cell)
unfolding metric_value
set_metrics decimal [] a obj = obj
set_metrics decimal ((name, func) ∷ metrics) a obj =
    set_metrics decimal metrics a (insert String_discrete name (metric_value decimal func a) obj)

unfoldable pub zero_metric : AggregationFunction → Cell
zero_metric sum = text "0"
zero_metric count = number 0

unfoldable pub set_zero_metrics :
    List (String × AggregationFunction) → List (String × Cell) → List (String × Cell)
unfolding zero_metric
set_zero_metrics [] obj = obj
set_zero_metrics ((name, func) ∷ metrics) obj =
    set_zero_metrics metrics (insert String_discrete name (zero_metric func) obj)

unfoldable pub set_keys : List String → List String → List (String × Cell) → List (String × Cell)
set_keys [] values obj = obj
set_keys (g ∷ gs) [] obj = obj
set_keys (g ∷ gs) (v ∷ vs) obj = set_keys gs vs (insert String_discrete g (text v) obj)

unfoldable pub group_row : (ℤ → String) → QueryPlan → List String × Agg → Value
unfolding set_keys set_metrics
group_row decimal plan (key, a) =
    object (set_metrics decimal plan.metrics a (set_keys plan.group_by key []))

unfoldable pub aggregate : (ℤ → String) → QueryPlan → List UsageEvent → List Value
unfolding group_events in_key_order group_row set_zero_metrics
aggregate decimal plan events =
    let filtered = retain (matches_plan plan) events in
    let results =
      map (group_row decimal plan) (in_key_order (group_events decimal plan.group_by filtered)) in
    if is_empty plan.group_by && is_empty plan.metrics
    then map row filtered
    else if is_empty plan.group_by && (not (is_empty plan.metrics) && is_empty results)
    then object (set_zero_metrics plan.metrics []) ∷ []
    else results
