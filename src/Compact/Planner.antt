-- ===== src/Compact/Planner.antt =====
-- src/compact/planner.rs: what a plan merges.
use usagedb.Prelude.{
  ℕ, ◌<◌, ◌≡◌, refl, sym, ap, ◌∙◌, Bool, Option, none, some, List, [], ◌∷◌, ◌++◌, ltb, ltb→lt,
  length, length-map, retain, All, arith, if_pos, ℕ_discrete, append_assoc, append-nil, Bool-cases,
  inl, inr,
}
use usagedb.Prelude.Map.{get, insert, Distinct, insert-Distinct}
use usagedb.Prelude.Entries.{update_entries, update_all, has_key, get-update_entries}
use usagedb.Storage.Manifest.{SegmentMeta}
use usagedb.Compact.{
  CompactionPlan, push_segment, by_bucket, segment_ids_of, emit_plans, plan_compaction,
}

abbrev pub in_bucket : ℕ → SegmentMeta → Bool
in_bucket b s = has_key ℕ_discrete (λ (t : SegmentMeta). t.bucket) b s

Distinct-update_entries :
    {E K V : Type 0} (d : Discrete K) (key : E → K) (update : E → Option V → V) (m : List (K × V))
    (es : List E)
    → Distinct d m
    → Distinct d (update_entries d key update m es)
unfolding update_entries
Distinct-update_entries d key update m [] h = h
Distinct-update_entries d key update m (e ∷ es) h =
    let v = update e (get d (key e) m) in
    Distinct-update_entries d key update (insert d (key e) v m) es (insert-Distinct d (key e) v m h)

pushed : (xs ys : List SegmentMeta) → update_all push_segment (some xs) ys ≡ some (xs ++ ys)
unfolding push_segment
pushed xs [] = ap some (sym (append-nil xs))
pushed xs (y ∷ ys) = pushed (xs ++ y ∷ []) ys ∙ ap some (append_assoc xs (y ∷ []) ys)

abbrev or_nil : Option (List SegmentMeta) → List SegmentMeta
or_nil none = []
or_nil (some xs) = xs

pushed_all : (ys : List SegmentMeta) → or_nil (update_all push_segment none ys) ≡ ys
unfolding push_segment
pushed_all [] = refl
pushed_all (y ∷ ys) = ap or_nil (pushed (y ∷ []) ys)

-- The group of a bucket.
group_of :
    (segments : List SegmentMeta) (b : ℕ) (group : List SegmentMeta)
    → get ℕ_discrete b (by_bucket segments) ≡ some group
    → group ≡ retain (in_bucket b) segments
unfolding by_bucket get
group_of segments b group h =
    ap or_nil (
      sym h
      ∙ get-update_entries ℕ_discrete (λ (t : SegmentMeta). t.bucket) push_segment b [] segments)
    ∙ pushed_all (retain (in_bucket b) segments)

other_key :
    (k j : ℕ) (v w : List SegmentMeta) (m : List (ℕ × List SegmentMeta))
    → get ℕ_discrete k m ≡ none
    → get ℕ_discrete j m ≡ some w
    → get ℕ_discrete j ((k, v) ∷ m) ≡ some w
unfolding get
other_key k j v w m h g = ground (arith, h, g)

first_key :
    (k : ℕ) (v : List SegmentMeta) (m : List (ℕ × List SegmentMeta))
    → get ℕ_discrete k ((k, v) ∷ m) ≡ some v
unfolding get
first_key k v m = if_pos (ℕ_discrete k k) refl (some v) (get ℕ_discrete k m)

abbrev Grouped : List SegmentMeta → ℕ × List SegmentMeta → Type 0
Grouped segments e = e.1 ≡ retain (in_bucket e.0) segments

all-Grouped :
    (segments : List SegmentMeta) (m : List (ℕ × List SegmentMeta))
    → Distinct ℕ_discrete m
    → ((b : ℕ) (group : List SegmentMeta)
        → get ℕ_discrete b m ≡ some group
        → group ≡ retain (in_bucket b) segments)
    → All (Grouped segments) m
all-Grouped segments [] d g = tt
all-Grouped segments ((k, v) ∷ m) d g = (
  g k v (first_key k v m),
  all-Grouped segments m d.1 (λ b group h. g b group (other_key k b v group m d.0 h)),
)

-- A plan for a bucket has the identifiers of all segments of the bucket, in order, and there are more of
-- them than the threshold.
abbrev pub Covers : ℕ → List SegmentMeta → CompactionPlan → Type 0
Covers max_small segments plan =
    (plan.segment_ids ≡ segment_ids_of (retain (in_bucket plan.bucket) segments))
    × (max_small < length plan.segment_ids)

emit_plans-Covers :
    (max_small : ℕ) (segments : List SegmentMeta) (m : List (ℕ × List SegmentMeta))
    → All (Grouped segments) m
    → All (Covers max_small segments) (emit_plans max_small m)
unfolding emit_plans segment_ids_of
emit_plans-Covers max_small segments [] h = tt
emit_plans-Covers max_small segments ((b, group) ∷ m) h =
    let rest = emit_plans-Covers max_small segments m h.1 in
    elim (Bool-cases (ltb max_small (length group))) [
      | inl many ↦ rw many (
        (
          ap segment_ids_of h.0,
          rw (length-map (λ (s : SegmentMeta). s.segment_id) group)
              (ltb→lt max_small (length group) many),
        ),
        rest,
      )
      | inr few ↦ rw few rest
    ]

-- Every plan of the planner covers its bucket: it has the identifiers of all the bucket's segments, in
-- their order, and there are more of them than the threshold.
pub plan_compaction-Covers :
    (max_small : ℕ) (segments : List SegmentMeta)
    → All (Covers max_small segments) (plan_compaction max_small segments)
unfolding plan_compaction by_bucket
plan_compaction-Covers max_small segments =
    emit_plans-Covers max_small segments (by_bucket segments) (
      all-Grouped segments (by_bucket segments)
        (Distinct-update_entries ℕ_discrete (λ (s : SegmentMeta). s.bucket) push_segment [] segments
          tt)
        (group_of segments))
