-- ===== src/Query/Scan.antt =====
-- `collect_raw_events` of src/query/executor.rs: the rows of the segments that the pruning keeps, and of
-- all segments.
use usagedb.Prelude.{
  ℕ, ◌≡◌, refl, sym, ap, Bool, true, false, Option, none, some, List, [], ◌∷◌, ◌++◌, String, retain,
  arith, ◌∙◌, Bool-cases, inl, inr,
}
use usagedb.Prelude.Int.{ℤ}
use usagedb.Model.{UsageEvent, at_least_one}
use usagedb.Storage.Manifest.{SegmentMeta}
use usagedb.Ingest.Segments.Bounds.{Describes}
use usagedb.Query.{
  QueryPlan, in_range, matches_plan, segment_overlaps_plan, read_segment, read_segments, rows_in,
  collect_raw_events,
}
use usagedb.Query.Pruning.{InBucket, segment_overlaps_plan_complete}

-- What holds of a segment and its file: the metadata describes every row, and the rows lie in the
-- segment's bucket.
abbrev pub Faithful : (List ℕ → List ℕ) → ℕ → SegmentMeta → List UsageEvent → Type 0
Faithful blake3 n s [] = Unit {0}
Faithful blake3 n s (e ∷ es) = (Describes s e × InBucket blake3 n s e) × Faithful blake3 n s es

abbrev pub FaithfulFile : (List ℕ → List ℕ) → ℕ → SegmentMeta → Option (List UsageEvent) → Type 0
FaithfulFile blake3 n s none = Unit {0}
FaithfulFile blake3 n s (some rows) = Faithful blake3 n s rows

abbrev pub AllFaithful :
    (List ℕ → List ℕ) → (String → Option (List UsageEvent)) → ℕ → List SegmentMeta → Type 0
AllFaithful blake3 read n [] = Unit {0}
AllFaithful blake3 read n (s ∷ ss) =
    FaithfulFile blake3 n s (read s.segment_id) × AllFaithful blake3 read n ss

retain-append :
    (p : UsageEvent → Bool) (xs ys : List UsageEvent)
    → retain p (xs ++ ys) ≡ retain p xs ++ retain p ys
unfolding retain
retain-append p [] ys = refl
retain-append p (x ∷ xs) ys = ground (arith, retain-append p xs ys)

not_matching :
    (blake3 : List ℕ → List ℕ) (s : SegmentMeta) (plan : QueryPlan) (from_ms to_ms : ℤ) (n : ℕ)
    (e : UsageEvent)
    → Describes s e
    → InBucket blake3 n s e
    → segment_overlaps_plan blake3 s plan from_ms to_ms n ≡ false
    → in_range from_ms to_ms e ≡ true
    → matches_plan plan e ≡ false
not_matching blake3 s plan from_ms to_ms n e d b pruned r =
    elim (Bool-cases (matches_plan plan e)) [
      | inl matches ↦
          cc (segment_overlaps_plan_complete blake3 s plan from_ms to_ms n e d b r matches, pruned)
      | inr other ↦ other
    ]

nothing_pruned :
    (blake3 : List ℕ → List ℕ) (s : SegmentMeta) (plan : QueryPlan) (from_ms to_ms : ℤ) (n : ℕ)
    (es : List UsageEvent)
    → Faithful blake3 n s es
    → segment_overlaps_plan blake3 s plan from_ms to_ms n ≡ false
    → retain (matches_plan plan) (retain (in_range from_ms to_ms) es) ≡ []
unfolding retain
nothing_pruned blake3 s plan from_ms to_ms n [] f pruned = refl
nothing_pruned blake3 s plan from_ms to_ms n (e ∷ es) f pruned =
    elim (Bool-cases (in_range from_ms to_ms e)) [
      | inl inside ↦ ground (
        arith,
        inside,
        nothing_pruned blake3 s plan from_ms to_ms n es f.1 pruned,
        not_matching blake3 s plan from_ms to_ms n e f.0.0 f.0.1 pruned inside,
      )
      | inr other ↦ rw other (nothing_pruned blake3 s plan from_ms to_ms n es f.1 pruned)
    ]

nothing_in_file :
    (blake3 : List ℕ → List ℕ) (s : SegmentMeta) (plan : QueryPlan) (from_ms to_ms : ℤ) (n : ℕ)
    (file : Option (List UsageEvent))
    → FaithfulFile blake3 n s file
    → segment_overlaps_plan blake3 s plan from_ms to_ms n ≡ false
    → retain (matches_plan plan) (rows_in from_ms to_ms file) ≡ []
unfolding rows_in retain
nothing_in_file blake3 s plan from_ms to_ms n none f pruned = refl
nothing_in_file blake3 s plan from_ms to_ms n (some rows) f pruned =
    nothing_pruned blake3 s plan from_ms to_ms n rows f pruned

pruned_segments :
    (blake3 : List ℕ → List ℕ) (read : String → Option (List UsageEvent)) (ss : List SegmentMeta)
    (plan : QueryPlan) (from_ms to_ms : ℤ) (n : ℕ)
    → AllFaithful blake3 read n ss
    → retain (matches_plan plan) (
        read_segments read from_ms to_ms
          (retain (λ s. segment_overlaps_plan blake3 s plan from_ms to_ms n) ss))
      ≡ retain (matches_plan plan) (read_segments read from_ms to_ms ss)
unfolding read_segments retain read_segment
pruned_segments blake3 read [] plan from_ms to_ms n f = refl
pruned_segments blake3 read (s ∷ ss) plan from_ms to_ms n f =
    let keep : SegmentMeta → Bool = λ t. segment_overlaps_plan blake3 t plan from_ms to_ms n in
    let here = read_segment read from_ms to_ms s in
    let there = read_segments read from_ms to_ms ss in
    let rest = pruned_segments blake3 read ss plan from_ms to_ms n f.1 in
    let split = retain-append (matches_plan plan) here there in
    elim (Bool-cases (segment_overlaps_plan blake3 s plan from_ms to_ms n)) [
      | inl kept ↦ rw kept (
          retain-append (matches_plan plan) here (read_segments read from_ms to_ms (retain keep ss))
          ∙ ap (λ t. retain (matches_plan plan) here ++ t) rest
          ∙ sym split)
      | inr pruned ↦ rw pruned (
          rest
          ∙ sym (
              split
              ∙ ap (λ t. t ++ retain (matches_plan plan) there)
                  (nothing_in_file blake3 s plan from_ms to_ms n (read s.segment_id) f.0 pruned)))
    ]

-- Filtered by the plan, the rows of the segments that the pruning keeps, with those of the memtable,
-- are the rows of all the segments and the memtable, in the same order. The condition is that every
-- segment file that can be read holds rows which its metadata describes, in the segment's bucket.
pub collect_raw_events_complete :
    (blake3 : List ℕ → List ℕ) (read : String → Option (List UsageEvent)) (ss : List SegmentMeta)
    (bucket_count : ℕ) (memtable : List UsageEvent) (plan : QueryPlan) (from_ms to_ms : ℤ)
    → AllFaithful blake3 read (at_least_one bucket_count) ss
    → retain
        (matches_plan plan)
        (collect_raw_events blake3 read ss bucket_count memtable plan from_ms to_ms)
      ≡ retain
          (matches_plan plan)
          (read_segments read from_ms to_ms ss ++ retain (in_range from_ms to_ms) memtable)
unfolding collect_raw_events
collect_raw_events_complete blake3 read ss bucket_count memtable plan from_ms to_ms f =
    let n = at_least_one bucket_count in
    let keep : SegmentMeta → Bool = λ t. segment_overlaps_plan blake3 t plan from_ms to_ms n in
    let live = retain (in_range from_ms to_ms) memtable in
    retain-append (matches_plan plan) (read_segments read from_ms to_ms (retain keep ss)) live
    ∙ ap (λ t. t ++ retain (matches_plan plan) live)
        (pruned_segments blake3 read ss plan from_ms to_ms n f)
    ∙ sym (retain-append (matches_plan plan) (read_segments read from_ms to_ms ss) live)
