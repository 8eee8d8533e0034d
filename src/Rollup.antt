-- ===== src/Rollup.antt =====
-- src/rollup/hourly.rs and src/rollup/builder.rs: the hourly aggregates of events.
-- The canonical JSON text of the dimensions (serde_json) is a parameter; the map is an association list.
pub mod Totals
pub mod Hours
pub mod Worker
pub mod Files
use usagedb.Prelude.{
  ℕ, ℕ_discrete, ◌+◌, suc, ◌≡◌, Option, none, some, List, [], map, String, if◌then◌else◌,
}
use usagedb.Prelude.Int.{ℤ, pos, ltb_ℤ, div_trunc, scale, saturating_add}
use usagedb.Prelude.Text.{String_discrete}
use usagedb.Prelude.Entries.{update_entries}
use usagedb.Model.{UsageEvent, SmallDimensions}

pub record HourlyRollupKey : Type 0 where
  pub account_id : String
  pub subscription_id : Option String
  pub product_id : String
  pub meter_id : String
  pub model_id : Option String
  pub source : String
  pub unit : String
  pub hour_start_ms : ℤ
  pub dimensions_canonical : String

pub record HourlyRollupRecord : Type 0 where
  pub account_id : String
  pub subscription_id : Option String
  pub product_id : String
  pub meter_id : String
  pub model_id : Option String
  pub source : String
  pub unit : String
  pub hour_start_ms : ℤ
  pub dimensions_canonical : String
  pub quantity_sum : ℤ
  pub event_count : ℕ
  pub first_event_ms : ℤ
  pub last_event_ms : ℤ

ℤ_discrete : Discrete ℤ
ℤ_discrete = hlevel ℕ_discrete

pub HourlyRollupKey_discrete : Discrete HourlyRollupKey
HourlyRollupKey_discrete = hlevel (String_discrete, ℤ_discrete)

abbrev pub Aggregates : Type 0
Aggregates = List (HourlyRollupKey × HourlyRollupRecord)

-- `(event.timestamp_ms / 3_600_000) * 3_600_000`, towards zero.
unfoldable pub hour_of : ℤ → ℤ
unfolding div_trunc scale
hour_of timestamp_ms = scale (div_trunc timestamp_ms 3600000) 3600000

unfoldable pub rollup_key : (SmallDimensions → String) → UsageEvent → HourlyRollupKey
unfolding hour_of
rollup_key to_json event = record {
  account_id = event.account_id;
  subscription_id = event.subscription_id;
  product_id = event.product_id;
  meter_id = event.meter_id;
  model_id = event.model_id;
  source = event.source;
  unit = event.unit;
  hour_start_ms = hour_of event.timestamp_ms;
  dimensions_canonical = to_json event.dimensions;
}

-- `or_insert`: the record that a new key starts with.
unfoldable pub or_insert :
    HourlyRollupKey → UsageEvent → Option HourlyRollupRecord → HourlyRollupRecord
or_insert key event (some r) = r
or_insert key event none = record {
  account_id = key.account_id;
  subscription_id = key.subscription_id;
  product_id = key.product_id;
  meter_id = key.meter_id;
  model_id = key.model_id;
  source = key.source;
  unit = key.unit;
  hour_start_ms = key.hour_start_ms;
  dimensions_canonical = key.dimensions_canonical;
  quantity_sum = pos 0;
  event_count = 0;
  first_event_ms = event.timestamp_ms;
  last_event_ms = event.timestamp_ms;
}

unfoldable pub add_to_record :
    (SmallDimensions → String) → UsageEvent → Option HourlyRollupRecord → HourlyRollupRecord
unfolding or_insert rollup_key
add_to_record to_json event old =
    let r = or_insert (rollup_key to_json event) event old in
    record r {
      quantity_sum = saturating_add r.quantity_sum event.quantity;
      event_count = suc r.event_count;
      first_event_ms =
          if ltb_ℤ event.timestamp_ms r.first_event_ms
          then event.timestamp_ms
          else r.first_event_ms;
      last_event_ms =
          if ltb_ℤ r.last_event_ms event.timestamp_ms then event.timestamp_ms else r.last_event_ms;
    }

-- `process_event` for each event of a batch, on a new builder.
unfoldable pub process_events : (SmallDimensions → String) → List UsageEvent → Aggregates
unfolding add_to_record update_entries
process_events to_json events =
    update_entries HourlyRollupKey_discrete (rollup_key to_json) (add_to_record to_json) [] events

unfoldable pub finalize : Aggregates → List HourlyRollupRecord
finalize aggregates = map (λ (entry : HourlyRollupKey × HourlyRollupRecord). entry.1) aggregates
