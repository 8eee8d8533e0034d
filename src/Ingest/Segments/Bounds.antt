-- ===== src/Ingest/Segments/Bounds.antt =====
-- `build_segment_meta` of src/ingest/flusher.rs: the metadata and the events of a batch.
use usagedb.Prelude.{
  ℕ, ◌≡◌, true, false, Option, none, some, List, [], ◌∷◌, ◌++◌, String, arith, All,
}
use usagedb.Prelude.Int.{◌≤ℤ◌, IsI64}
use usagedb.Prelude.Text.{str_lt, str_lt_irrefl, str_le_trans, str_lt_asym}
use usagedb.Model.{UsageEvent}
use usagedb.Storage.Manifest.{SegmentMeta}
use usagedb.Ingest.Segments.{
  contains, set_insert, MetaLoop, lower, higher, insert_model, scan_event, scan_events, start,
  build_segment_meta,
}

contains-append :
    (s : String) (ts us : List String) → contains s ts ≡ true → contains s (ts ++ us) ≡ true
unfolding contains
contains-append s [] us h = cc
contains-append s (t ∷ ts) us h = ground (arith, contains-append s ts us)

contains_last : (s : String) (ts : List String) → contains s (ts ++ s ∷ []) ≡ true
unfolding contains
contains_last s [] = ground arith
contains_last s (t ∷ ts) = ground (arith, contains_last s ts)

pub contains-set_insert_self : (s : String) (ts : List String) → contains s (set_insert s ts) ≡ true
unfolding set_insert
contains-set_insert_self s ts = ground (arith, contains_last s ts)

pub contains-set_insert :
    (s t : String) (ts : List String) → contains s ts ≡ true → contains s (set_insert t ts) ≡ true
unfolding set_insert
contains-set_insert s t ts h = ground (arith, contains-append s ts (t ∷ []) h)

-- Bounds that may be absent.
abbrev pub NotBelow : String → Option String → Type 0
NotBelow acc none = ⊥
NotBelow acc (some bound) = str_lt acc bound ≡ false

abbrev pub NotAbove : String → Option String → Type 0
NotAbove acc none = ⊥
NotAbove acc (some bound) = str_lt bound acc ≡ false

abbrev pub HasModel : Option String → List String → Type 0
HasModel none ids = Unit {0}
HasModel (some m) ids = contains m ids ≡ true

lower_self : (s : String) (b : Option String) → NotBelow s (lower s b)
unfolding lower
lower_self s none = str_lt_irrefl s
lower_self s (some c) = ground (arith, str_lt_irrefl s)

lower_keeps : (s t : String) (b : Option String) → NotBelow s b → NotBelow s (lower t b)
unfolding lower
lower_keeps s t none h = absurd h
lower_keeps s t (some c) h = ground (arith, str_le_trans t c s, str_lt_asym t c)

higher_self : (s : String) (b : Option String) → NotAbove s (higher s b)
unfolding higher
higher_self s none = str_lt_irrefl s
higher_self s (some c) = ground (arith, str_lt_irrefl s)

higher_keeps : (s t : String) (b : Option String) → NotAbove s b → NotAbove s (higher t b)
unfolding higher
higher_keeps s t none h = absurd h
higher_keeps s t (some c) h = ground (arith, str_le_trans s c t, str_lt_asym c t)

insert_model_self : (m : Option String) (ids : List String) → HasModel m (insert_model m ids)
unfolding insert_model
insert_model_self none ids = tt
insert_model_self (some m) ids = contains-set_insert_self m ids

insert_model_keeps :
    (m n : Option String) (ids : List String) → HasModel m ids → HasModel m (insert_model n ids)
unfolding insert_model
insert_model_keeps none n ids h = tt
insert_model_keeps (some m) none ids h = h
insert_model_keeps (some m) (some n) ids h = contains-set_insert m n ids h

record Covers (m : MetaLoop) (e : UsageEvent) : Type 0 where
  from : m.min_ts ≤ℤ e.timestamp_ms
  to : e.timestamp_ms ≤ℤ m.max_ts
  above : NotBelow e.account_id m.min_account
  below : NotAbove e.account_id m.max_account
  product : contains e.product_id m.product_ids ≡ true
  meter : contains e.meter_id m.meter_ids ≡ true
  model : HasModel e.model_id m.model_ids

scan_event-Covers : (m : MetaLoop) (e : UsageEvent) → Covers (scan_event m e) e
unfolding scan_event
scan_event-Covers m e = record {
  from = ground arith;
  to = ground arith;
  above = lower_self e.account_id m.min_account;
  below = higher_self e.account_id m.max_account;
  product = contains-set_insert_self e.product_id m.product_ids;
  meter = contains-set_insert_self e.meter_id m.meter_ids;
  model = insert_model_self e.model_id m.model_ids;
}

scan_event_keeps : (m : MetaLoop) (d e : UsageEvent) → Covers m e → Covers (scan_event m d) e
unfolding scan_event
scan_event_keeps m d e c = record {
  from = ground (arith, c.from);
  to = ground (arith, c.to);
  above = lower_keeps e.account_id d.account_id m.min_account c.above;
  below = higher_keeps e.account_id d.account_id m.max_account c.below;
  product = contains-set_insert e.product_id d.product_id m.product_ids c.product;
  meter = contains-set_insert e.meter_id d.meter_id m.meter_ids c.meter;
  model = insert_model_keeps e.model_id d.model_id m.model_ids c.model;
}

scan_events_keeps :
    (m : MetaLoop) (es : List UsageEvent) (e : UsageEvent)
    → Covers m e
    → Covers (scan_events m es) e
unfolding scan_events
scan_events_keeps m [] e c = c
scan_events_keeps m (d ∷ es) e c =
    scan_events_keeps (scan_event m d) es e (scan_event_keeps m d e c)

scan_events-Covers : (m : MetaLoop) (es : List UsageEvent) → All (Covers (scan_events m es)) es
unfolding scan_events
scan_events-Covers m [] = tt
scan_events-Covers m (e ∷ es) = (
  scan_events_keeps (scan_event m e) es e (scan_event-Covers m e),
  scan_events-Covers (scan_event m e) es,
)

-- What a segment's metadata says of each of its events.
pub record Describes (s : SegmentMeta) (e : UsageEvent) : Type 0 where
  pub from : s.min_timestamp_ms ≤ℤ e.timestamp_ms
  pub to : e.timestamp_ms ≤ℤ s.max_timestamp_ms
  pub above : NotBelow e.account_id s.min_account_id
  pub below : NotAbove e.account_id s.max_account_id
  pub product : contains e.product_id s.product_ids ≡ true
  pub meter : contains e.meter_id s.meter_ids ≡ true
  pub model : HasModel e.model_id s.model_ids

describes :
    (id : String) (es : List UsageEvent) (bucket sum : ℕ) (e : UsageEvent)
    → IsI64 e.timestamp_ms
    → Covers (scan_events start es) e
    → Describes (build_segment_meta id es bucket sum) e
unfolding build_segment_meta
describes id es bucket sum e r c = record {
  from = ground (arith, c.from);
  to = ground (arith, c.to);
  above = c.above;
  below = c.below;
  product = c.product;
  meter = c.meter;
  model = c.model;
}

abbrev pub AllI64 : List UsageEvent → Type 0
AllI64 es = All (λ (e : UsageEvent). IsI64 e.timestamp_ms) es

All-Describes :
    (id : String) (es ds : List UsageEvent) (bucket sum : ℕ)
    → AllI64 ds
    → All (Covers (scan_events start es)) ds
    → All (Describes (build_segment_meta id es bucket sum)) ds
All-Describes id es [] bucket sum r c = tt
All-Describes id es (d ∷ ds) bucket sum r c =
    (describes id es bucket sum d r.0 c.0, All-Describes id es ds bucket sum r.1 c.1)

-- Every event of a batch lies within the time range and the account range of the segment's metadata,
-- and its product, meter and model are in the metadata's sets.
pub build_segment_meta-Describes :
    (id : String) (es : List UsageEvent) (bucket sum : ℕ)
    → AllI64 es
    → All (Describes (build_segment_meta id es bucket sum)) es
build_segment_meta-Describes id es bucket sum r =
    All-Describes id es es bucket sum r (scan_events-Covers start es)
