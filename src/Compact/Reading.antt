-- ===== src/Compact/Reading.antt =====
-- src/compact/worker.rs: what the segments hold, and what `read_segments` reads of them.
use usagedb.Prelude.{
  ◌≡◌, ◌≢◌, refl, ap, ◌∙◌, subst, Bool, true, false, Option, none, some, List, [], ◌∷◌, ◌++◌,
  String, arith, any, not, retain, ◌||◌, Bool-cases, Option-cases, inl, inr, ◌⊎◌,
}
use usagedb.Prelude.Text.{String_discrete}
use usagedb.Prelude.Map.{get}
use usagedb.Model.{UsageEvent}
use usagedb.Storage.Manifest.{SegmentMeta}
use usagedb.Ingest.Segments.{contains}
use usagedb.Ingest.Flusher.{Files}
use usagedb.Compact.{extend, read_segments}
use usagedb.Compact.Merge.{ids}

abbrev pub rows_or_none : Option (List UsageEvent) → List UsageEvent
rows_or_none none = []
rows_or_none (some rows) = rows

-- The rows of a segment, and whether some segment holds an event.
abbrev pub rows_of : Files → String → List UsageEvent
rows_of files id = rows_or_none (get String_discrete id files)

abbrev pub holds : String → Files → SegmentMeta → Bool
holds x files s = contains x (ids (rows_of files s.segment_id))

abbrev pub stored : String → Files → List SegmentMeta → Bool
stored x files segments = any (holds x files) segments

contains-append :
    (x : String) (xs ys : List UsageEvent)
    → contains x (ids (xs ++ ys)) ≡ (contains x (ids xs) || contains x (ids ys))
unfolding contains
contains-append x [] ys = refl
contains-append x (e ∷ xs) ys = ground (arith, contains-append x xs ys)

pub any-append :
    (p : SegmentMeta → Bool) (xs ys : List SegmentMeta) → any p (xs ++ ys) ≡ (any p xs || any p ys)
unfolding any
any-append p [] ys = refl
any-append p (x ∷ xs) ys = ground (arith, any-append p xs ys)

-- What the inputs' reading yields has the rows of each input.
abbrev pub Reads : String → Files → List String → Option (List UsageEvent) → Type 0
Reads x files inputs none = Unit
Reads x files inputs (some events) =
    (id : String)
    → contains id inputs ≡ true
    → contains x (ids (rows_of files id)) ≡ true
    → contains x (ids events) ≡ true

contains_cons :
    (x y : String) (xs : List String)
    → contains x (y ∷ xs) ≡ true
    → (x ≡ y) ⊎ (contains x xs ≡ true)
unfolding contains
contains_cons x y xs h = ground (arith, h)

pub or_left : (a b : Bool) → a ≡ true → (a || b) ≡ true
or_left a b h = ground (arith, h)

pub or_right : (a b : Bool) → b ≡ true → (a || b) ≡ true
or_right a b h = ground (arith, h)

absent_row :
    (x id i : String) (files : Files)
    → get String_discrete i files ≡ none
    → id ≡ i
    → contains x (ids (rows_of files id)) ≢ true
unfolding contains
absent_row x id i files m same k =
    subst (λ (b : Bool). elim b as (λ c. Type 0) [ true ↦ ⊥ | false ↦ Unit ])
      (subst (λ o. contains x (ids (rows_or_none o)) ≡ true)
        (ap (λ j. get String_discrete j files) same ∙ m) k)
      tt

present_row :
    (x id i : String) (files : Files) (rows : List UsageEvent)
    → get String_discrete i files ≡ some rows
    → id ≡ i
    → contains x (ids (rows_of files id)) ≡ true
    → contains x (ids rows) ≡ true
present_row x id i files rows m same k =
    subst (λ o. contains x (ids (rows_or_none o)) ≡ true)
      (ap (λ j. get String_discrete j files) same ∙ m) k

Reads-missing :
    (x i : String) (files : Files) (inputs : List String) (r : Option (List UsageEvent))
    → get String_discrete i files ≡ none
    → Reads x files inputs r
    → Reads x files (i ∷ inputs) r
unfolding contains
Reads-missing x i files inputs none m f = tt
Reads-missing x i files inputs (some events) m f = λ id h k. elim (contains_cons id i inputs h) [
  | inl same ↦ absurd (absent_row x id i files m same k)
  | inr later ↦ f id later k
]

Reads-extend :
    (x i : String) (files : Files) (inputs : List String) (rows : List UsageEvent)
    (r : Option (List UsageEvent))
    → get String_discrete i files ≡ some rows
    → Reads x files inputs r
    → Reads x files (i ∷ inputs) (extend rows r)
unfolding extend
Reads-extend x i files inputs rows none m f = tt
Reads-extend x i files inputs rows (some events) m f = λ id h k.
    contains-append x rows events ∙ elim (contains_cons id i inputs h) [
      | inl same ↦
          or_left (contains x (ids rows)) (contains x (ids events))
            (present_row x id i files rows m same k)
      | inr later ↦ or_right (contains x (ids rows)) (contains x (ids events)) (f id later k)
    ]

-- What is read of the inputs has every identifier of each input.
pub read_segments-Reads :
    (x : String) (readable : String → Bool) (files : Files) (inputs : List String)
    → Reads x files inputs (read_segments readable files inputs)
unfolding read_segments contains
read_segments-Reads x readable files [] = λ id h k. cc
read_segments-Reads x readable files (i ∷ inputs) =
    let rest = read_segments-Reads x readable files inputs in
    elim (Option-cases (get String_discrete i files)) [
      | inl missing ↦
          rw (read_segments, missing)
            (Reads-missing x i files inputs (read_segments readable files inputs) missing rest)
      | inr (rows, there) ↦ elim (Bool-cases (readable i)) [
        | inr broken ↦ rw (read_segments, there, broken) tt
        | inl fine ↦
            rw (read_segments, there, fine)
              (Reads-extend x i files inputs rows (read_segments readable files inputs) there rest)
      ]
    ]

-- A segment that is not an input stays in the list.
pub any-split :
    (p q : SegmentMeta → Bool) (segments : List SegmentMeta)
    → any p segments ≡ true
    → (any p (retain (λ s. not (q s)) segments) ≡ true)
      ⊎ ((s : SegmentMeta) × ((q s ≡ true) × (p s ≡ true)))
unfolding any retain
any-split p q [] h = cc
any-split p q (s ∷ segments) h = elim (Bool-cases (q s)) [
  | inl input ↦ elim (Bool-cases (p s)) [
    | inl here ↦ inr (s, (input, here))
    | inr not_here ↦
        rw input (any-split p q segments (subst (λ b. (b || any p segments) ≡ true) not_here h))
  ]
  | inr other ↦ elim (Bool-cases (p s)) [
    | inl here ↦ inl (rw other (rw here refl))
    | inr not_here ↦
        elim (any-split p q segments (subst (λ b. (b || any p segments) ≡ true) not_here h)) [
          | inl later ↦
              inl (rw other (or_right (p s) (any p (retain (λ s. not (q s)) segments)) later))
          | inr found ↦ inr found
        ]
  ]
]
