-- ===== src/Ingest/Segments.antt =====
-- src/ingest/flusher.rs: the canonical order of events and the metadata of a segment.
-- `sort_by` is stable, and is modelled by insertion. A `HashSet` is a list without repetition.
pub mod Sorting
pub mod Bounds
use usagedb.Prelude.{
  ℕ, ◌≡◌, Bool, true, false, Option, none, some, List, [], ◌∷◌, ◌++◌, String, ite, length,
  if◌then◌else◌, not,
}
use usagedb.Prelude.Int.{ℤ, pos, ltb_ℤ, leb_ℤ, i64_max, i64_min, saturating_add}
use usagedb.Prelude.Text.{String_discrete, str_lt}
use usagedb.Model.{UsageEvent}
use usagedb.Storage.Manifest.{SegmentMeta, raw}

-- `a.cmp(&b)` on texts and on timestamps, and `then_with`.
pub data Order : Type 0 where
  less equal greater : Order

unfoldable pub cmp_str : String → String → Order
cmp_str s t = if str_lt s t then less else if str_lt t s then greater else equal

unfoldable pub cmp_ℤ : ℤ → ℤ → Order
cmp_ℤ a b = if ltb_ℤ a b then less else if ltb_ℤ b a then greater else equal

unfoldable pub then_with : Order → Order → Order
then_with less o = less
then_with equal o = o
then_with greater o = greater

-- `unwrap_or("")`.
unfoldable pub or_empty : Option String → String
or_empty none = String.[]
or_empty (some s) = s

unfoldable pub cmp_events : UsageEvent → UsageEvent → Order
unfolding cmp_str cmp_ℤ then_with or_empty
cmp_events a b = then_with (cmp_str a.account_id b.account_id) (
    then_with (cmp_str a.product_id b.product_id) (
      then_with (cmp_str a.meter_id b.meter_id) (
        then_with (cmp_str (or_empty a.model_id) (or_empty b.model_id))
          (cmp_ℤ a.timestamp_ms b.timestamp_ms))))

unfoldable pub is_greater : Order → Bool
is_greater less = false
is_greater equal = false
is_greater greater = true

unfoldable pub insert_event : UsageEvent → List UsageEvent → List UsageEvent
unfolding is_greater
insert_event e [] = e ∷ []
insert_event e (d ∷ ds) =
    let later = d ∷ insert_event e ds in if is_greater (cmp_events e d) then later else e ∷ d ∷ ds

unfoldable pub sort_events_canonical : List UsageEvent → List UsageEvent
unfolding insert_event
sort_events_canonical [] = []
sort_events_canonical (e ∷ es) = insert_event e (sort_events_canonical es)

unfoldable pub contains : String → List String → Bool
contains s [] = false
contains s (t ∷ ts) = ite (String_discrete s t) true (contains s ts)

unfoldable pub set_insert : String → List String → List String
unfolding contains
set_insert s ts = if contains s ts then ts else ts ++ s ∷ []

-- The variables of the loop in `build_segment_meta`.
pub record MetaLoop : Type 0 where
  pub min_ts : ℤ
  pub max_ts : ℤ
  pub min_account : Option String
  pub max_account : Option String
  pub product_ids : List String
  pub meter_ids : List String
  pub model_ids : List String
  pub quantity_sum : ℤ

unfoldable pub lower : String → Option String → Option String
lower acc none = some acc
lower acc (some current) = if str_lt acc current then some acc else some current

unfoldable pub higher : String → Option String → Option String
higher acc none = some acc
higher acc (some current) = if str_lt current acc then some acc else some current

unfoldable pub insert_model : Option String → List String → List String
unfolding set_insert
insert_model none ids = ids
insert_model (some m) ids = set_insert m ids

unfoldable pub scan_event : MetaLoop → UsageEvent → MetaLoop
unfolding lower higher insert_model
scan_event m e = record {
  min_ts = if ltb_ℤ e.timestamp_ms m.min_ts then e.timestamp_ms else m.min_ts;
  max_ts = if ltb_ℤ m.max_ts e.timestamp_ms then e.timestamp_ms else m.max_ts;
  min_account = lower e.account_id m.min_account;
  max_account = higher e.account_id m.max_account;
  product_ids = set_insert e.product_id m.product_ids;
  meter_ids = set_insert e.meter_id m.meter_ids;
  model_ids = insert_model e.model_id m.model_ids;
  quantity_sum = saturating_add m.quantity_sum e.quantity;
}

abbrev pub start : MetaLoop
start = record {
  min_ts = i64_max;
  max_ts = i64_min;
  min_account = none;
  max_account = none;
  product_ids = [];
  meter_ids = [];
  model_ids = [];
  quantity_sum = pos 0;
}

unfoldable pub scan_events : MetaLoop → List UsageEvent → MetaLoop
unfolding scan_event
scan_events m [] = m
scan_events m (e ∷ es) = scan_events (scan_event m e) es

-- `x == i64::MAX` for an x that is at most that, and the other way round.
unfoldable pub zero_if_max : ℤ → ℤ
zero_if_max t = if leb_ℤ i64_max t then pos 0 else t

unfoldable pub zero_if_min : ℤ → ℤ
zero_if_min t = if leb_ℤ t i64_min then pos 0 else t

unfoldable pub build_segment_meta : String → List UsageEvent → ℕ → ℕ → SegmentMeta
unfolding scan_events zero_if_max zero_if_min
build_segment_meta segment_id batch bucket checksum =
    let m = scan_events start batch in
    record {
      segment_id = segment_id;
      kind = raw;
      min_timestamp_ms = zero_if_max m.min_ts;
      max_timestamp_ms = zero_if_min m.max_ts;
      bucket = bucket;
      row_count = length batch;
      min_account_id = m.min_account;
      max_account_id = m.max_account;
      product_ids = m.product_ids;
      meter_ids = m.meter_ids;
      model_ids = m.model_ids;
      quantity_sum = some m.quantity_sum;
      checksum = checksum;
      input_segment_ids = [];
    }
