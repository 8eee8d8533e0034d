-- ===== src/Rollup/Hours/Events.antt =====
-- The raw events that one hour's rollups stand for.
use usagedb.Prelude.{
  ◌≡◌, refl, sym, ap, ◌∙◌, false, Option, none, some, List, [], ◌∷◌, ◌++◌, String, ℕ_discrete,
  retain, arith, Bool-cases, Option-cases, inl, inr, All,
}
use usagedb.Prelude.Int.{ℤ, ◌≤ℤ◌}
use usagedb.Prelude.Text.{String_discrete}
use usagedb.Prelude.Map.{get, insert}
use usagedb.Prelude.Entries.{update_entries}
use usagedb.Model.{UsageEvent}
use usagedb.Storage.Manifest.{SegmentMeta}
use usagedb.Rollup.Hours.{
  Run, HourLoop, Builders, takes, in_hour, overlaps_hour, scan_rows, scan_segments, add_to_bucket,
  process_event, bucket_of, or_default,
}

update_entries-append :
    {E K V : Type 0} (d : Discrete K) (key : E → K) (update : E → Option V → V) (m : List (K × V))
    (xs ys : List E)
    → update_entries d key update m (xs ++ ys)
      ≡ update_entries d key update (update_entries d key update m xs) ys
unfolding update_entries
update_entries-append d key update m [] ys = refl
update_entries-append d key update m (x ∷ xs) ys =
    update_entries-append d key update (insert d (key x) (update x (get d (key x) m)) m) xs ys

-- The events that an hour takes, segment by segment, from the files that are there.
unfoldable pub events_taken : Run → ℤ → SegmentMeta → List UsageEvent
events_taken run hour s =
    retain (takes run hour) (or_default (get String_discrete s.segment_id run.files))

unfoldable pub hour_events : Run → ℤ → List SegmentMeta → List UsageEvent
unfolding events_taken
hour_events run hour [] = []
hour_events run hour (s ∷ segments) = events_taken run hour s ++ hour_events run hour segments

abbrev pub add_all : Run → Builders → List UsageEvent → Builders
add_all run builders events =
    update_entries ℕ_discrete (bucket_of run) (process_event run.to_json) builders events

scan_rows-builders :
    (run : Run) (hour : ℤ) (id : String) (events : List UsageEvent) (l : HourLoop)
    → (scan_rows run hour id events l).by_bucket
      ≡ add_all run l.by_bucket (retain (takes run hour) events)
unfolding scan_rows update_entries retain add_to_bucket
scan_rows-builders run hour id [] l = refl
scan_rows-builders run hour id (e ∷ events) l = elim (Bool-cases (takes run hour e)) [
  | inl taken ↦
      rw (scan_rows, taken) (scan_rows-builders run hour id events (add_to_bucket run id e l))
  | inr passed ↦ rw (scan_rows, passed) (scan_rows-builders run hour id events l)
]

-- The metadata of a segment spans the times of its rows.
abbrev pub Spans : SegmentMeta → UsageEvent → Type 0
Spans s e = (s.min_timestamp_ms ≤ℤ e.timestamp_ms) × (e.timestamp_ms ≤ℤ s.max_timestamp_ms)

abbrev pub AllSpanned : Run → List SegmentMeta → Type 0
AllSpanned run segments =
    All
      (λ (s : SegmentMeta). All (Spans s) (or_default (get String_discrete s.segment_id run.files)))
      segments

outside_hour :
    (run : Run) (hour : ℤ) (s : SegmentMeta) (e : UsageEvent)
    → Spans s e
    → overlaps_hour hour s ≡ false
    → takes run hour e ≡ false
unfolding overlaps_hour takes in_hour
outside_hour run hour s e h k = ground (arith, h.0, h.1)

none_taken :
    (run : Run) (hour : ℤ) (s : SegmentMeta) (events : List UsageEvent)
    → All (Spans s) events
    → overlaps_hour hour s ≡ false
    → retain (takes run hour) events ≡ []
unfolding retain
none_taken run hour s [] h k = refl
none_taken run hour s (e ∷ events) h k =
    rw (outside_hour run hour s e h.0 k) (none_taken run hour s events h.1 k)

abbrev pub BuildersIf : Run → Builders → List UsageEvent → Option HourLoop → Type 0
BuildersIf run old events none = Unit
BuildersIf run old events (some l) = l.by_bucket ≡ add_all run old events

BuildersIf-append :
    (run : Run) (old : Builders) (xs ys : List UsageEvent) (l : HourLoop) (r : Option HourLoop)
    → l.by_bucket ≡ add_all run old xs
    → BuildersIf run l.by_bucket ys r
    → BuildersIf run old (xs ++ ys) r
BuildersIf-append run old xs ys l none h k = tt
BuildersIf-append run old xs ys l (some l') h k =
    k
    ∙ ap (λ (b : Builders). add_all run b ys) h
    ∙ sym (update_entries-append ℕ_discrete (bucket_of run) (process_event run.to_json) old xs ys)

-- The builders of an hour are those of the events that it takes, over all segments: looking only into
-- the segments that overlap the hour loses none.
pub scan_segments-builders :
    (run : Run) (hour : ℤ) (segments : List SegmentMeta) (l : HourLoop)
    → AllSpanned run segments
    → BuildersIf run l.by_bucket (hour_events run hour segments) (scan_segments run hour segments l)
unfolding scan_segments update_entries hour_events events_taken or_default retain
scan_segments-builders run hour [] l h = refl
scan_segments-builders run hour (s ∷ segments) l h =
    let rest = hour_events run hour segments in
    elim (Bool-cases (overlaps_hour hour s)) [
      | inr outside ↦
          rw
            (
              scan_segments,
              outside,
              none_taken run hour s (or_default (get String_discrete s.segment_id run.files)) h.0
                  outside,
            )
            (scan_segments-builders run hour segments l h.1)
      | inl inside ↦ elim (Option-cases (get String_discrete s.segment_id run.files)) [
        | inl missing ↦
            rw (scan_segments, inside, missing) (scan_segments-builders run hour segments l h.1)
        | inr (rows, there) ↦ elim (Bool-cases (run.readable s.segment_id)) [
          | inr broken ↦ rw (scan_segments, inside, there, broken) tt
          | inl fine ↦
              let l' = scan_rows run hour s.segment_id rows l in
              rw (scan_segments, inside, there, fine)
                (BuildersIf-append run l.by_bucket (retain (takes run hour) rows) rest l'
                  (scan_segments run hour segments l')
                  (scan_rows-builders run hour s.segment_id rows l)
                  (scan_segments-builders run hour segments l' h.1))
        ]
      ]
    ]
