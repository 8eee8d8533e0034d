-- ===== src/Validate.antt =====
-- src/api/http_server.rs: `validate_event`.
use usagedb.Prelude.{
  ℕ, ◌≡◌, refl, ◌↔◌, ◌≤◌, ◌≢◌, Bool, true, false, Option, none, some, length, ltb, arith,
  if◌then◌else◌, String, ◌&&◌, String,
}
use usagedb.Prelude.Int.{pos, leb_ℤ, ◌<ℤ◌}
use usagedb.Model.{UsageEvent, EventKind, usage, correction, retraction, CorrectionRef}

abbrev pub max_dimensions : ℕ
max_dimensions = 16

pub data ValidationError : Type 0 where
  missing_event_id missing_account_id missing_product_id missing_meter_id : ValidationError
  non_positive_timestamp too_many_dimensions correction_missing_ref : ValidationError

pub data Validation : Type 0 where
  ok : Validation
  err : ValidationError → Validation

-- `String::is_empty`.
unfoldable pub is_empty_str : String → Bool
is_empty_str String.[] = true
is_empty_str (String.◌∷◌ c s) = false

unfoldable pub is_none {ℓ} : {A : Type ℓ} → Option A → Bool
is_none none = true
is_none (some _) = false

-- `matches!(kind, Correction | Retraction)`.
unfoldable pub is_adjustment : EventKind → Bool
is_adjustment usage = false
is_adjustment correction = true
is_adjustment retraction = true

unfoldable pub validate_event : UsageEvent → Validation
unfolding is_empty_str is_none is_adjustment
validate_event event =
    if is_empty_str event.event_id
    then err missing_event_id
    else if is_empty_str event.account_id
    then err missing_account_id
    else if is_empty_str event.product_id
    then err missing_product_id
    else if is_empty_str event.meter_id
    then err missing_meter_id
    else if leb_ℤ event.timestamp_ms (pos 0)
    then err non_positive_timestamp
    else if ltb max_dimensions (length event.dimensions.inner)
    then err too_many_dimensions
    else if is_adjustment event.kind && is_none event.correction_ref
    then err correction_missing_ref
    else ok

-- What the ingest path promises of an event that it lets through.
pub record IsBillable (e : UsageEvent) : Type 0 where
  pub event_id : e.event_id ≢ String.[]
  pub account_id : e.account_id ≢ String.[]
  pub product_id : e.product_id ≢ String.[]
  pub meter_id : e.meter_id ≢ String.[]
  pub timestamp : pos 0 <ℤ e.timestamp_ms
  pub dimensions : length e.dimensions.inner ≤ max_dimensions
  pub referenced : (e.kind ≢ usage) → e.correction_ref ≢ none

is_empty_str-false : (s : String) → is_empty_str s ≡ false → s ≢ String.[]
unfolding is_empty_str
is_empty_str-false String.[] h e = cc
is_empty_str-false (String.◌∷◌ c s) h e = cc

is_empty_str_of_ne : (s : String) → s ≢ String.[] → is_empty_str s ≡ false
unfolding is_empty_str
is_empty_str_of_ne String.[] h = absurd (h refl)
is_empty_str_of_ne (String.◌∷◌ c s) h = refl

-- The tests that `validate_event` makes, all answered in the event's favour.
record Passes (e : UsageEvent) : Type 0 where
  event_id : is_empty_str e.event_id ≡ false
  account_id : is_empty_str e.account_id ≡ false
  product_id : is_empty_str e.product_id ≡ false
  meter_id : is_empty_str e.meter_id ≡ false
  timestamp : pos 0 <ℤ e.timestamp_ms
  dimensions : length e.dimensions.inner ≤ max_dimensions
  referenced : (is_adjustment e.kind && is_none e.correction_ref) ≡ false

validate_event-Passes : (e : UsageEvent) → validate_event e ≡ ok → Passes e
unfolding validate_event
validate_event-Passes e h = ground arith

Passes-ok : (e : UsageEvent) → Passes e → validate_event e ≡ ok
unfolding validate_event
Passes-ok e h = ground arith

adjustment_reference :
    (k : EventKind) (r : Option CorrectionRef)
    → ((is_adjustment k && is_none r) ≡ false) ↔ ((k ≢ usage) → r ≢ none)
unfolding is_adjustment is_none
adjustment_reference usage r = (λ h k e. k refl, λ h. refl)
adjustment_reference correction none = (λ h k e. cc, λ h. absurd (h (λ e. cc) refl))
adjustment_reference correction (some r) = (λ h k e. cc, λ h. refl)
adjustment_reference retraction none = (λ h k e. cc, λ h. absurd (h (λ e. cc) refl))
adjustment_reference retraction (some r) = (λ h k e. cc, λ h. refl)

-- An event is let through exactly when its four identifiers are not empty, its timestamp is
-- positive, it has at most 16 dimensions, and it names the event that it corrects if it is a
-- correction or a retraction.
pub validate_event_iff : (e : UsageEvent) → (validate_event e ≡ ok) ↔ IsBillable e
validate_event_iff e = (
  λ h.
      let p = validate_event-Passes e h in
      record {
        event_id = is_empty_str-false _ p.event_id;
        account_id = is_empty_str-false _ p.account_id;
        product_id = is_empty_str-false _ p.product_id;
        meter_id = is_empty_str-false _ p.meter_id;
        timestamp = p.timestamp;
        dimensions = p.dimensions;
        referenced = (adjustment_reference e.kind e.correction_ref).0 p.referenced;
      },
  λ b. Passes-ok e (record {
    event_id = is_empty_str_of_ne _ b.event_id;
    account_id = is_empty_str_of_ne _ b.account_id;
    product_id = is_empty_str_of_ne _ b.product_id;
    meter_id = is_empty_str_of_ne _ b.meter_id;
    timestamp = b.timestamp;
    dimensions = b.dimensions;
    referenced = (adjustment_reference e.kind e.correction_ref).1 b.referenced;
  }),
)
