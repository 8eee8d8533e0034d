-- ===== src/Compact/Merge.antt =====
-- src/compact/worker.rs: `sort_and_dedupe`.
use usagedb.Prelude.{
  ◌≡◌, refl, ◌∙◌, true, false, List, [], ◌∷◌, map, String, arith, Bool-cases, inl, inr,
}
use usagedb.Prelude.Int.{ℤ}
use usagedb.Prelude.Text.{str_le_trans, str_lt_asym}
use usagedb.Model.{UsageEvent}
use usagedb.Ingest.Segments.{
  Order, contains, cmp_str, cmp_ℤ, cmp_events, then_with, is_greater, or_empty, insert_event,
  sort_events_canonical,
}
use usagedb.Ingest.Segments.Sorting.{LessEq, IsSorted, sort_events_canonical-IsSorted}
use usagedb.Compact.{retain_new, sort_and_dedupe}

abbrev pub ids : List UsageEvent → List String
ids es = map (λ (e : UsageEvent). e.event_id) es

-- No identifier stands twice.
abbrev pub DistinctIds : List UsageEvent → Type 0
DistinctIds [] = Unit {0}
DistinctIds (e ∷ es) = (contains e.event_id (ids es) ≡ false) × DistinctIds es

unseen_kept :
    (x : String) (seen : List String) (es : List UsageEvent)
    → contains x seen ≡ false
    → contains x (ids (retain_new seen es)) ≡ contains x (ids es)
unfolding contains retain_new
unseen_kept x seen [] h = refl
unseen_kept x seen (e ∷ es) h =
    ground (arith, unseen_kept x seen es h, unseen_kept x (e.event_id ∷ seen) es)

seen_dropped :
    (x : String) (seen : List String) (es : List UsageEvent)
    → contains x seen ≡ true
    → contains x (ids (retain_new seen es)) ≡ false
unfolding contains retain_new
seen_dropped x seen [] h = refl
seen_dropped x seen (e ∷ es) h =
    ground (arith, seen_dropped x seen es h, seen_dropped x (e.event_id ∷ seen) es)

contains_head : (x : String) (xs : List String) → contains x (x ∷ xs) ≡ true
unfolding contains
contains_head x xs = ground arith

retain_new-DistinctIds :
    (seen : List String) (es : List UsageEvent) → DistinctIds (retain_new seen es)
unfolding retain_new
retain_new-DistinctIds seen [] = tt
retain_new-DistinctIds seen (e ∷ es) = elim (Bool-cases (contains e.event_id seen)) [
  | inl known ↦ rw (retain_new, known) (retain_new-DistinctIds seen es)
  | inr fresh ↦
      rw (retain_new, fresh)
        (
          seen_dropped e.event_id (e.event_id ∷ seen) es (contains_head e.event_id seen),
          retain_new-DistinctIds (e.event_id ∷ seen) es,
        )
]

contains_swap :
    (x y z : String) (xs : List String) → contains x (y ∷ z ∷ xs) ≡ contains x (z ∷ y ∷ xs)
unfolding contains
contains_swap x y z xs = ground arith

contains_under :
    (x y : String) (xs ys : List String)
    → contains x xs ≡ contains x ys
    → contains x (y ∷ xs) ≡ contains x (y ∷ ys)
unfolding contains
contains_under x y xs ys h = ground (arith, h)

pub insert_event-ids :
    (x : String) (e : UsageEvent) (es : List UsageEvent)
    → contains x (ids (insert_event e es)) ≡ contains x (e.event_id ∷ ids es)
unfolding insert_event
insert_event-ids x e [] = refl
insert_event-ids x e (d ∷ ds) = elim (Bool-cases (is_greater (cmp_events e d))) [
  | inl later ↦ rw later (
      contains_under x d.event_id (ids (insert_event e ds)) (e.event_id ∷ ids ds)
        (insert_event-ids x e ds)
      ∙ contains_swap x d.event_id e.event_id (ids ds))
  | inr here ↦ rw here refl
]

pub sort-ids :
    (x : String) (es : List UsageEvent)
    → contains x (ids (sort_events_canonical es)) ≡ contains x (ids es)
unfolding sort_events_canonical
sort-ids x [] = refl
sort-ids x (e ∷ es) =
    insert_event-ids x e (sort_events_canonical es)
    ∙ contains_under x e.event_id (ids (sort_events_canonical es)) (ids es) (sort-ids x es)

-- The merge of compaction keeps each event identifier, and no other.
pub sort_and_dedupe-ids :
    (x : String) (es : List UsageEvent)
    → contains x (ids (sort_and_dedupe es)) ≡ contains x (ids es)
unfolding sort_and_dedupe contains
sort_and_dedupe-ids x es = unseen_kept x [] (sort_events_canonical es) refl ∙ sort-ids x es

-- The order is transitive, field by field.
trans_cmp :
    (s t u : String) (o p q : Order)
    → (is_greater o ≡ false → is_greater p ≡ false → is_greater q ≡ false)
    → is_greater (then_with (cmp_str s t) o) ≡ false
    → is_greater (then_with (cmp_str t u) p) ≡ false
    → is_greater (then_with (cmp_str s u) q) ≡ false
unfolding then_with is_greater cmp_str
trans_cmp s t u o p q rest h k = ground (
  arith,
  str_le_trans s t u,
  str_le_trans u s t,
  str_le_trans t u s,
  str_lt_asym s t,
  str_lt_asym t u,
  str_lt_asym s u,
)

trans_ℤ :
    (a b c : ℤ)
    → is_greater (cmp_ℤ a b) ≡ false
    → is_greater (cmp_ℤ b c) ≡ false
    → is_greater (cmp_ℤ a c) ≡ false
unfolding is_greater cmp_ℤ
trans_ℤ a b c h k = ground (arith, h, k)

LessEq-trans : (a b c : UsageEvent) → LessEq a b → LessEq b c → LessEq a c
unfolding cmp_events
LessEq-trans a b c = trans_cmp a.account_id b.account_id c.account_id _ _ _ (
    trans_cmp a.product_id b.product_id c.product_id _ _ _ (
      trans_cmp a.meter_id b.meter_id c.meter_id _ _ _ (
        trans_cmp (or_empty a.model_id) (or_empty b.model_id) (or_empty c.model_id) _ _ _
          (trans_ℤ a.timestamp_ms b.timestamp_ms c.timestamp_ms))))

abbrev Before : UsageEvent → List UsageEvent → Type 0
Before a [] = Unit {0}
Before a (b ∷ es) = LessEq a b

IsSorted-tail : (e : UsageEvent) (es : List UsageEvent) → IsSorted (e ∷ es) → IsSorted es
IsSorted-tail e [] h = tt
IsSorted-tail e (d ∷ es) h = h.1

Before-next :
    (a e : UsageEvent) (es : List UsageEvent) → LessEq a e → IsSorted (e ∷ es) → Before a es
Before-next a e [] h k = tt
Before-next a e (d ∷ es) h k = LessEq-trans a e d h k.0

IsSorted-cons :
    (a : UsageEvent) (es : List UsageEvent) → Before a es → IsSorted es → IsSorted (a ∷ es)
IsSorted-cons a [] h k = tt
IsSorted-cons a (e ∷ es) h k = (h, k)

first-Before : (e : UsageEvent) (es : List UsageEvent) → IsSorted (e ∷ es) → Before e es
first-Before e [] h = tt
first-Before e (d ∷ es) h = h.0

retain_new-Before :
    (a : UsageEvent) (seen : List String) (es : List UsageEvent)
    → Before a es
    → IsSorted es
    → Before a (retain_new seen es)
unfolding retain_new
retain_new-Before a seen [] h k = tt
retain_new-Before a seen (e ∷ es) h k = elim (Bool-cases (contains e.event_id seen)) [
  | inl known ↦
      rw (retain_new, known)
        (retain_new-Before a seen es (Before-next a e es h k) (IsSorted-tail e es k))
  | inr fresh ↦ rw (retain_new, fresh) h
]

retain_new-IsSorted :
    (seen : List String) (es : List UsageEvent) → IsSorted es → IsSorted (retain_new seen es)
unfolding retain_new
retain_new-IsSorted seen [] k = tt
retain_new-IsSorted seen (e ∷ es) k = elim (Bool-cases (contains e.event_id seen)) [
  | inl known ↦ rw (retain_new, known) (retain_new-IsSorted seen es (IsSorted-tail e es k))
  | inr fresh ↦
      rw (retain_new, fresh)
        (IsSorted-cons e (retain_new (e.event_id ∷ seen) es)
          (retain_new-Before e (e.event_id ∷ seen) es (first-Before e es k) (IsSorted-tail e es k))
          (retain_new-IsSorted (e.event_id ∷ seen) es (IsSorted-tail e es k)))
]

-- What a merge makes of the events of its inputs.
pub record Merged (es out : List UsageEvent) : Type 0 where
  pub sorted : IsSorted out
  pub distinct : DistinctIds out
  pub same_ids : (x : String) → contains x (ids out) ≡ contains x (ids es)

-- The rows of a merged segment are in canonical order, no identifier stands twice among them, and their
-- identifiers are those of the inputs' rows.
pub sort_and_dedupe-Merged : (es : List UsageEvent) → Merged es (sort_and_dedupe es)
unfolding sort_and_dedupe
sort_and_dedupe-Merged es = record {
  sorted = retain_new-IsSorted [] (sort_events_canonical es) (sort_events_canonical-IsSorted es);
  distinct = retain_new-DistinctIds [] (sort_events_canonical es);
  same_ids = λ x. sort_and_dedupe-ids x es;
}
