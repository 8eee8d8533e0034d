-- ===== src/Compact/Totals.antt =====
-- src/compact/worker.rs: a merge of rows whose identifiers are distinct.
use usagedb.Prelude.{
  ◌≡◌, refl, ap, ◌∙◌, false, List, [], ◌∷◌, String, arith, All, Bool-cases, inl, inr,
}
use usagedb.Prelude.Int.{ℤ, ◌+ℤ◌, int_laws}
use usagedb.Prelude.Text.{String_discrete}
use usagedb.Prelude.Entries.{amounts}
use usagedb.Model.{UsageEvent}
use usagedb.Ingest.Segments.{contains, cmp_events, is_greater, insert_event, sort_events_canonical}
use usagedb.Rollup.Totals.{quantity_of}
use usagedb.Compact.{retain_new, sort_and_dedupe}
use usagedb.Compact.Merge.{ids, DistinctIds, insert_event-ids, sort-ids}

abbrev Unseen : List String → List UsageEvent → Type 0
Unseen seen es = All (λ (e : UsageEvent). contains e.event_id seen ≡ false) es

Unseen-nil : (es : List UsageEvent) → Unseen [] es
unfolding contains
Unseen-nil [] = tt
Unseen-nil (e ∷ es) = (refl, Unseen-nil es)

Unseen-cons :
    (x : String) (seen : List String) (es : List UsageEvent)
    → contains x (ids es) ≡ false
    → Unseen seen es
    → Unseen (x ∷ seen) es
unfolding contains
Unseen-cons x seen [] h u = tt
Unseen-cons x seen (e ∷ es) h u = elim (String_discrete x e.event_id) [
  | yes same ↦ absurd (ground (arith, h, same))
  | no other ↦ (ground (arith, u.0, other), Unseen-cons x seen es (ground (arith, h, other)) u.1)
]

all_kept :
    (seen : List String) (es : List UsageEvent)
    → DistinctIds es
    → Unseen seen es
    → retain_new seen es ≡ es
unfolding retain_new
all_kept seen [] d u = refl
all_kept seen (e ∷ es) d u =
    rw (retain_new, u.0)
      (ap (λ t. e ∷ t)
        (all_kept (e.event_id ∷ seen) es d.1 (Unseen-cons e.event_id seen es d.0 u.1)))

not_same :
    (x y : String) (xs : List String)
    → contains x (y ∷ xs) ≡ false
    → contains y (x ∷ xs) ≡ contains y xs
unfolding contains
not_same x y xs h = ground (arith, h)

skip_head : (x y : String) (xs : List String) → contains x (y ∷ xs) ≡ false → contains x xs ≡ false
unfolding contains
skip_head x y xs h = ground (arith, h)

insert_event-DistinctIds :
    (e : UsageEvent) (es : List UsageEvent)
    → contains e.event_id (ids es) ≡ false
    → DistinctIds es
    → DistinctIds (insert_event e es)
unfolding insert_event
insert_event-DistinctIds e [] h d = (h, tt)
insert_event-DistinctIds e (c ∷ ds) h d = elim (Bool-cases (is_greater (cmp_events e c))) [
  | inl later ↦ rw later (
    insert_event-ids c.event_id e ds ∙ not_same e.event_id c.event_id (ids ds) h ∙ d.0,
    insert_event-DistinctIds e ds (skip_head e.event_id c.event_id (ids ds) h) d.1,
  )
  | inr here ↦ rw here (h, d)
]

sort-DistinctIds : (es : List UsageEvent) → DistinctIds es → DistinctIds (sort_events_canonical es)
unfolding sort_events_canonical
sort-DistinctIds [] d = tt
sort-DistinctIds (e ∷ es) d =
    insert_event-DistinctIds e (sort_events_canonical es) (sort-ids e.event_id es ∙ d.0)
      (sort-DistinctIds es d.1)

swap_sum : (a b c : ℤ) → a +ℤ (b +ℤ c) ≡ b +ℤ (a +ℤ c)
swap_sum a b c = omega int_laws

insert_event_sum :
    (e : UsageEvent) (es : List UsageEvent)
    → amounts quantity_of (insert_event e es) ≡ e.quantity +ℤ amounts quantity_of es
unfolding insert_event
insert_event_sum e [] = refl
insert_event_sum e (d ∷ ds) = elim (Bool-cases (is_greater (cmp_events e d))) [
  | inl later ↦ rw later (
      ap (λ t. d.quantity +ℤ t) (insert_event_sum e ds)
      ∙ swap_sum d.quantity e.quantity (amounts quantity_of ds))
  | inr here ↦ rw here refl
]

sort_sum :
    (es : List UsageEvent) → amounts quantity_of (sort_events_canonical es) ≡ amounts quantity_of es
unfolding sort_events_canonical
sort_sum [] = refl
sort_sum (e ∷ es) =
    insert_event_sum e (sort_events_canonical es) ∙ ap (λ t. e.quantity +ℤ t) (sort_sum es)

-- Where the identifiers of the inputs' rows are distinct, compaction only sorts the rows, and the sum of
-- their quantities stays.
pub sort_and_dedupe_sum :
    (es : List UsageEvent)
    → DistinctIds es
    → (sort_and_dedupe es ≡ sort_events_canonical es)
      × (amounts quantity_of (sort_and_dedupe es) ≡ amounts quantity_of es)
unfolding sort_and_dedupe
sort_and_dedupe_sum es d =
    let sorted = sort_events_canonical es in
    let kept = all_kept [] sorted (sort-DistinctIds es d) (Unseen-nil sorted) in
    (kept, ap (amounts quantity_of) kept ∙ sort_sum es)
