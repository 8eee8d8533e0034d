-- ===== src/Ingest/Segments/Sorting.antt =====
-- `sort_events_canonical` of src/ingest/flusher.rs: the order, and permutations.
use mathlib.Core.List.{Perm}
use mathlib.Core.List.Perm
use usagedb.Prelude.{◌≡◌, true, false, List, [], ◌∷◌, String, arith, Bool-cases, inl, inr}
use usagedb.Prelude.Int.{ℤ}
use usagedb.Prelude.Text.{str_lt_asym}
use usagedb.Model.{UsageEvent}
use usagedb.Ingest.Segments.{
  Order, less, equal, cmp_str, cmp_ℤ, then_with, or_empty, cmp_events, is_greater, insert_event,
  sort_events_canonical,
}

insert_event-perm : (e : UsageEvent) (es : List UsageEvent) → Perm (insert_event e es) (e ∷ es)
unfolding insert_event
insert_event-perm e [] = Perm.refl _
insert_event-perm e (d ∷ ds) = elim (Bool-cases (is_greater (cmp_events e d))) [
  | inl later ↦ rw later (Perm.trans (Perm.cons d (insert_event-perm e ds)) (Perm.swap e d ds))
  | inr here ↦ rw here (Perm.refl _)
]

-- Sorting neither loses nor adds an event.
pub sort_events_canonical-perm : (es : List UsageEvent) → Perm (sort_events_canonical es) es
unfolding sort_events_canonical
sort_events_canonical-perm [] = Perm.refl _
sort_events_canonical-perm (e ∷ es) =
    Perm.trans (insert_event-perm e (sort_events_canonical es))
      (Perm.cons e (sort_events_canonical-perm es))

-- a is not after b.
abbrev pub LessEq : UsageEvent → UsageEvent → Type 0
LessEq a b = is_greater (cmp_events a b) ≡ false

-- Each event is not after the next.
abbrev pub IsSorted : List UsageEvent → Type 0
IsSorted [] = Unit {0}
IsSorted (a ∷ []) = Unit {0}
IsSorted (a ∷ b ∷ es) = LessEq a b × IsSorted (b ∷ es)

cmp_str_flip : (s t : String) → is_greater (cmp_str s t) ≡ true → cmp_str t s ≡ less
unfolding cmp_str is_greater
cmp_str_flip s t h = ground (arith, str_lt_asym s t)

cmp_str_sym : (s t : String) → cmp_str s t ≡ equal → cmp_str t s ≡ equal
unfolding cmp_str
cmp_str_sym s t h = ground arith

total_cmp :
    (s t : String) (o p : Order)
    → (is_greater o ≡ true → is_greater p ≡ false)
    → is_greater (then_with (cmp_str s t) o) ≡ true
    → is_greater (then_with (cmp_str t s) p) ≡ false
unfolding then_with is_greater cmp_str
total_cmp s t o p rest h = ground (arith, str_lt_asym s t)

cmp_ℤ_total : (a b : ℤ) → is_greater (cmp_ℤ a b) ≡ true → is_greater (cmp_ℤ b a) ≡ false
unfolding cmp_ℤ is_greater
cmp_ℤ_total a b h = ground arith

LessEq-total : (a b : UsageEvent) → is_greater (cmp_events a b) ≡ true → LessEq b a
unfolding cmp_events
LessEq-total a b = total_cmp a.account_id b.account_id _ _ (
    total_cmp a.product_id b.product_id _ _ (
      total_cmp a.meter_id b.meter_id _ _ (
        total_cmp (or_empty a.model_id) (or_empty b.model_id) _ _
          (cmp_ℤ_total a.timestamp_ms b.timestamp_ms))))

insert_event-IsSorted :
    (e : UsageEvent) (es : List UsageEvent) → IsSorted es → IsSorted (insert_event e es)
unfolding insert_event
insert_event-IsSorted e [] h = tt
insert_event-IsSorted e (d ∷ []) h = ground (arith, LessEq-total e d)
insert_event-IsSorted e (d ∷ c ∷ es) h =
    ground (arith, LessEq-total e d, insert_event-IsSorted e (c ∷ es) h.1)

-- A flushed segment is in canonical order: by account, product, meter, model and timestamp.
pub sort_events_canonical-IsSorted : (es : List UsageEvent) → IsSorted (sort_events_canonical es)
unfolding sort_events_canonical
sort_events_canonical-IsSorted [] = tt
sort_events_canonical-IsSorted (e ∷ es) =
    insert_event-IsSorted e (sort_events_canonical es) (sort_events_canonical-IsSorted es)
