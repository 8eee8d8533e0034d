-- ===== src/Query/Pruning.antt =====
-- `segment_overlaps_plan` and `matches_plan` of src/query/executor.rs.
use usagedb.Prelude.{
  ℕ, ◌≡◌, refl, Bool, true, false, Option, none, some, List, [], ◌∷◌, ◌++◌, String, ◌&&◌, any,
  arith, subst, inl, inr, ◌⊎◌,
}
use usagedb.Prelude.Int.{ℤ, ltb_ℤ, leb_ℤ}
use usagedb.Prelude.Text.{String_discrete, decide_by}
use usagedb.Model.{UsageEvent, bucket_for_account}
use usagedb.Storage.Manifest.{SegmentMeta}
use usagedb.Ingest.Segments.{contains}
use usagedb.Ingest.Segments.Bounds.{Describes, HasModel, NotBelow, NotAbove}
use usagedb.Query.{
  QueryPlan, QueryFilter, column, actual_value, passes, passes_all, is_account, in_range,
  matches_plan, values_on, filter_intersects, outside, account_possible, segment_overlaps_plan,
}

and_intro : {a b : Bool} → a ≡ true → b ≡ true → (a && b) ≡ true
and_intro p q = rw p q

and_left : (a b : Bool) → (a && b) ≡ true → a ≡ true
and_left true b h = refl
and_left false b h = h

and_right : (a b : Bool) → (a && b) ≡ true → b ≡ true
and_right true b h = h
and_right false b h = cc

product_column : (e : UsageEvent) → actual_value "product_id" e ≡ some e.product_id
unfolding actual_value column String_discrete decide_by
product_column e = refl

meter_column : (e : UsageEvent) → actual_value "meter_id" e ≡ some e.meter_id
unfolding actual_value column String_discrete decide_by
meter_column e = refl

model_column : (e : UsageEvent) → actual_value "model_id" e ≡ e.model_id
unfolding actual_value column String_discrete decide_by
model_column e = ground arith

contains-append_left :
    (s : String) (ts us : List String) → contains s ts ≡ true → contains s (ts ++ us) ≡ true
unfolding contains
contains-append_left s [] us h = cc
contains-append_left s (t ∷ ts) us h = ground (arith, contains-append_left s ts us)

any_shared :
    (v : String) (values ids : List String)
    → contains v ids ≡ true
    → contains v values ≡ true
    → any (λ id. contains id values) ids ≡ true
unfolding any contains
any_shared v values [] h k = cc
any_shared v values (i ∷ ids) h k = elim (String_discrete v i) [
  | yes e ↦ ground (arith, any_shared v values ids)
  | no n ↦ ground (arith, any_shared v values ids)
]

-- A row that has no value in the field passes no filter on it.
values_on-none :
    (field : String) (fs : List QueryFilter) (e : UsageEvent)
    → actual_value field e ≡ none
    → passes_all fs e ≡ true
    → values_on field fs ≡ []
unfolding values_on passes_all passes
values_on-none field [] e a h = refl
values_on-none field (f ∷ fs) e a h = ground (arith, values_on-none field fs e a)

values_on-some :
    (field v : String) (fs : List QueryFilter) (e : UsageEvent)
    → actual_value field e ≡ some v
    → passes_all fs e ≡ true
    → (values_on field fs ≡ []) ⊎ (contains v (values_on field fs) ≡ true)
unfolding values_on passes_all passes
values_on-some field v [] e a h = inl refl
values_on-some field v (f ∷ fs) e a h =
    ground
      (arith, values_on-some field v fs e a, contains-append_left v f.values (values_on field fs))

filter_intersects-some :
    (field v : String) (fs : List QueryFilter) (ids : List String) (e : UsageEvent)
    → actual_value field e ≡ some v
    → contains v ids ≡ true
    → passes_all fs e ≡ true
    → filter_intersects fs field ids ≡ true
unfolding filter_intersects
filter_intersects-some field v fs ids e a i h = elim (values_on-some field v fs e a h) [
  | inl empty ↦ rw empty refl
  | inr found ↦ ground (arith, any_shared v (values_on field fs) ids i found)
]

filter_intersects_model :
    (m : Option String) (fs : List QueryFilter) (ids : List String) (e : UsageEvent)
    → actual_value "model_id" e ≡ m
    → HasModel m ids
    → passes_all fs e ≡ true
    → filter_intersects fs "model_id" ids ≡ true
unfolding filter_intersects
filter_intersects_model none fs ids e a i h = rw (values_on-none "model_id" fs e a h) refl
filter_intersects_model (some m) fs ids e a i h = filter_intersects-some "model_id" m fs ids e a i h

-- The segment lies in the bucket of the row's account.
abbrev pub InBucket : (List ℕ → List ℕ) → ℕ → SegmentMeta → UsageEvent → Type 0
InBucket blake3 n s e = s.bucket ≡ bucket_for_account blake3 e.account_id n

outside_not :
    (a : String) (lo hi : Option String) → NotBelow a lo → NotAbove a hi → outside a lo hi ≡ false
unfolding outside
outside_not a none hi l h = absurd l
outside_not a (some lo) none l h = absurd h
outside_not a (some lo) (some hi) l h = ground arith

account_possible_self :
    (blake3 : List ℕ → List ℕ) (s : SegmentMeta) (n : ℕ) (e : UsageEvent)
    → Describes s e
    → InBucket blake3 n s e
    → account_possible blake3 s (some e.account_id) n ≡ true
unfolding account_possible
account_possible_self blake3 s n e d b =
    ground (arith, b, outside_not e.account_id s.min_account_id s.max_account_id d.above d.below)

account_possible_any :
    (blake3 : List ℕ → List ℕ) (s : SegmentMeta) (n : ℕ) → account_possible blake3 s none n ≡ true
unfolding account_possible
account_possible_any blake3 s n = refl

account_possible_of :
    (blake3 : List ℕ → List ℕ) (s : SegmentMeta) (a : Option String) (n : ℕ) (e : UsageEvent)
    → Describes s e
    → InBucket blake3 n s e
    → is_account a e ≡ true
    → account_possible blake3 s a n ≡ true
unfolding is_account
account_possible_of blake3 s none n e d b h = account_possible_any blake3 s n
account_possible_of blake3 s (some a) n e d b h = elim (String_discrete e.account_id a) [
  | yes same ↦
      subst (λ x. account_possible blake3 s (some x) n ≡ true) same
        (account_possible_self blake3 s n e d b)
  | no other ↦ ground arith
]

matches_rest :
    (plan : QueryPlan) (e : UsageEvent)
    → matches_plan plan e ≡ true
    → (is_account plan.account_id e && passes_all plan.filters e) ≡ true
unfolding matches_plan
matches_rest plan e h =
    and_right (in_range plan.from_ms plan.to_ms e)
      (is_account plan.account_id e && passes_all plan.filters e) h

time_possible :
    (s : SegmentMeta) (from_ms to_ms : ℤ) (e : UsageEvent)
    → Describes s e
    → in_range from_ms to_ms e ≡ true
    → (ltb_ℤ s.min_timestamp_ms to_ms && leb_ℤ from_ms s.max_timestamp_ms) ≡ true
unfolding in_range
time_possible s from_ms to_ms e d r = ground (arith, d.from, d.to)

-- A segment that holds a row which matches the plan is not pruned.
pub segment_overlaps_plan_complete :
    (blake3 : List ℕ → List ℕ) (s : SegmentMeta) (plan : QueryPlan) (from_ms to_ms : ℤ) (n : ℕ)
    (e : UsageEvent)
    → Describes s e
    → InBucket blake3 n s e
    → in_range from_ms to_ms e ≡ true
    → matches_plan plan e ≡ true
    → segment_overlaps_plan blake3 s plan from_ms to_ms n ≡ true
unfolding segment_overlaps_plan
segment_overlaps_plan_complete blake3 s plan from_ms to_ms n e d b r h =
    let account =
      and_left (is_account plan.account_id e) (passes_all plan.filters e) (matches_rest plan e h) in
    let filters =
      and_right (is_account plan.account_id e) (passes_all plan.filters e)
        (matches_rest plan e h) in
    and_intro (time_possible s from_ms to_ms e d r) (
      and_intro (account_possible_of blake3 s plan.account_id n e d b account) (
        and_intro
          (filter_intersects-some "product_id" e.product_id plan.filters s.product_ids e
            (product_column e) d.product filters)
          (and_intro
            (filter_intersects-some "meter_id" e.meter_id plan.filters s.meter_ids e
              (meter_column e) d.meter filters)
            (filter_intersects_model e.model_id plan.filters s.model_ids e (model_column e) d.model
              filters))))
