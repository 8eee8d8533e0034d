-- ===== src/Compact/Swap.antt =====
-- src/compact/worker.rs: what `run_one_plan` keeps.
use usagedb.Prelude.{
  ◌≡◌, ◌≢◌, refl, sym, ap, ◌∙◌, subst, Bool, true, false, Option, none, some, List, [], ◌∷◌, ◌++◌,
  String, All, any, not, retain, length, ◌==◌, is_empty, if_pos, if_neg, Bool-cases, inl, inr,
}
use usagedb.Prelude.Int.{ℤ}
use usagedb.Prelude.Text.{String_discrete}
use usagedb.Prelude.Map.{get, insert, remove, get-insert, get-remove}
use usagedb.Model.{UsageEvent}
use usagedb.Storage.Manifest.{Manifest, SegmentMeta}
use usagedb.Storage.Generations.{SaveAnswers, ManifestDir, saved, save}
use usagedb.Storage.Generations.Outcomes.{save_keeps}
use usagedb.Ingest.Segments.{contains, build_segment_meta}
use usagedb.Ingest.Handler.{Env}
use usagedb.Ingest.Flusher.{Files}
use usagedb.Compact.{
  CompactionPlan, CompactState, PlanAnswers, read_segments, sort_and_dedupe, remove_output,
  write_sidecar, is_input, swap_inputs, swap, write_output, merge, run_one_plan,
}
use usagedb.Compact.Merge.{ids, sort_and_dedupe-ids}
use usagedb.Compact.Reading.{
  rows_of, rows_or_none, holds, stored, Reads, any-append, or_left, or_right, read_segments-Reads,
  any-split,
}

-- Files that differ at one identifier only.
abbrev pub SameBut : String → Files → Files → Type 0
SameBut output f f' =
    (id : String) → id ≢ output → get String_discrete id f' ≡ get String_discrete id f

abbrev pub Unused : String → List SegmentMeta → Type 0
Unused output segments = All (λ (s : SegmentMeta). s.segment_id ≢ output) segments

stored-SameBut :
    (x output : String) (f f' : Files) (segments : List SegmentMeta)
    → SameBut output f f'
    → Unused output segments
    → stored x f' segments ≡ stored x f segments
unfolding any
stored-SameBut x output f f' [] same u = refl
stored-SameBut x output f f' (s ∷ segments) same u =
    rw (same s.segment_id u.0, stored-SameBut x output f f' segments same u.1) refl

insert-SameBut :
    (output : String) (rows : List UsageEvent) (f : Files)
    → SameBut output f (insert String_discrete output rows f)
insert-SameBut output rows f = λ id other.
    get-insert String_discrete output id rows f
    ∙ if_neg (String_discrete output id) (λ e. other (sym e)) (some rows) (get String_discrete id f)

remove-SameBut : (output : String) (f : Files) → SameBut output f (remove String_discrete output f)
remove-SameBut output f = λ id other.
    get-remove String_discrete output id f
    ∙ if_neg (String_discrete output id) (λ e. other (sym e)) none (get String_discrete id f)

abbrev pub HasEvent : String → CompactState → Type 0
HasEvent x s = stored x s.files s.manifest.raw_segments ≡ true

remove_output-HasEvent :
    (x : String) (a : PlanAnswers) (s : CompactState)
    → Unused a.output_id s.manifest.raw_segments
    → HasEvent x s
    → HasEvent x (remove_output a s)
unfolding remove_output
remove_output-HasEvent x a s u h = elim (Bool-cases a.removes) [
  | inl removes ↦ rw removes (
      stored-SameBut x a.output_id s.files (remove String_discrete a.output_id s.files)
        s.manifest.raw_segments (remove-SameBut a.output_id s.files) u
      ∙ h)
  | inr stays ↦ rw stays h
]

-- Writing the output changes nothing that is in use.
output_HasEvent :
    (x : String) (env : Env) (a : PlanAnswers) (rows : List UsageEvent) (s : CompactState)
    → Unused a.output_id s.manifest.raw_segments
    → HasEvent x s
    → HasEvent x (
        write_sidecar env a rows
          (record s { files = insert String_discrete a.output_id rows s.files }))
unfolding write_sidecar
output_HasEvent x env a rows s u h =
    stored-SameBut x a.output_id s.files (insert String_discrete a.output_id rows s.files)
      s.manifest.raw_segments (insert-SameBut a.output_id rows s.files) u
    ∙ h

Unused-retain :
    (output : String) (p : SegmentMeta → Bool) (segments : List SegmentMeta)
    → Unused output segments
    → Unused output (retain p segments)
unfolding retain
Unused-retain output p [] u = tt
Unused-retain output p (s ∷ segments) u = elim (Bool-cases (p s)) [
  | inl kept ↦ rw kept (u.0, Unused-retain output p segments u.1)
  | inr dropped ↦ rw dropped (Unused-retain output p segments u.1)
]

written_row :
    (x output : String) (rows : List UsageEvent) (f : Files)
    → contains x (ids rows) ≡ true
    → contains x (ids (rows_of (insert String_discrete output rows f) output)) ≡ true
written_row x output rows f h =
    subst (λ o. contains x (ids (rows_or_none o)) ≡ true)
      (sym (
        get-insert String_discrete output output rows f
        ∙ if_pos (String_discrete output output) refl (some rows) (get String_discrete output f)))
      h

abbrev pub swapped : CompactionPlan → SegmentMeta → List SegmentMeta → List SegmentMeta
swapped plan new_meta segments =
    retain (λ s. not (is_input plan.segment_ids s)) segments ++ new_meta ∷ []

swapped-stored :
    (x : String) (plan : CompactionPlan) (new_meta : SegmentMeta) (events : List UsageEvent)
    (f : Files) (segments : List SegmentMeta)
    → Reads x f plan.segment_ids (some events)
    → Unused new_meta.segment_id segments
    → stored x f segments ≡ true
    → stored x
        (insert String_discrete new_meta.segment_id (sort_and_dedupe events) f)
        (swapped plan new_meta segments)
      ≡ true
unfolding any is_input
swapped-stored x plan new_meta events f segments reads u h =
    let output = new_meta.segment_id in
    let rows = sort_and_dedupe events in
    let f' = insert String_discrete output rows f in
    let others = retain (λ s. not (is_input plan.segment_ids s)) segments in
    any-append (holds x f') others (new_meta ∷ [])
    ∙ elim (any-split (holds x f) (is_input plan.segment_ids) segments h) [
      | inl stays ↦ or_left (stored x f' others) (stored x f' (new_meta ∷ [])) (
          stored-SameBut x output f f' others (insert-SameBut output rows f)
            (Unused-retain output (λ s. not (is_input plan.segment_ids s)) segments u)
          ∙ stays)
      | inr (s, (input, here)) ↦ or_right (stored x f' others) (stored x f' (new_meta ∷ [])) (
          or_left (holds x f' new_meta) false (
            written_row x output rows f
              (sort_and_dedupe-ids x events ∙ reads s.segment_id input here)))
    ]

save_succeeds :
    (a : SaveAnswers) (m : Manifest) (dir : ManifestDir) → a.steps ≡ saved → (save a m dir).0 ≡ true
unfolding save
save_succeeds a m dir h = rw h refl

swap-HasEvent :
    (x : String) (a : PlanAnswers) (plan : CompactionPlan) (new_meta : SegmentMeta) (now : ℤ)
    (s : CompactState)
    → a.saves.steps ≡ saved
    → Unused a.output_id s.manifest.raw_segments
    → HasEvent x s
    → stored x s.files (swapped plan new_meta s.manifest.raw_segments) ≡ true
    → HasEvent x (swap a plan new_meta now s).1
unfolding swap swap_inputs
swap-HasEvent x a plan new_meta now s saves u h k =
    let present = length (retain (is_input plan.segment_ids) s.manifest.raw_segments) in
    let m : Manifest = swap_inputs plan new_meta now s.manifest in
    elim (Bool-cases (present == length plan.segment_ids)) [
      | inr gone ↦ rw gone (remove_output-HasEvent x a s u h)
      | inl all ↦
          rw (all, save_succeeds a.saves m s.manifest_dir saves)
            (ap (stored x s.files)
                (save_keeps (λ (n : Manifest). n.raw_segments) a.saves m s.manifest_dir refl)
              ∙ k)
    ]

merge-HasEvent :
    (x : String) (env : Env) (a : PlanAnswers) (plan : CompactionPlan) (now : ℤ) (s : CompactState)
    (r : Option (List UsageEvent))
    → a.saves.steps ≡ saved
    → Unused a.output_id s.manifest.raw_segments
    → Reads x s.files plan.segment_ids r
    → HasEvent x s
    → HasEvent x (merge env a plan now s r).1
unfolding merge write_output build_segment_meta
merge-HasEvent x env a plan now s none saves u reads h = h
merge-HasEvent x env a plan now s (some events) saves u reads h =
    let rows = sort_and_dedupe events in
    let meta = build_segment_meta a.output_id rows plan.bucket a.checksum in
    elim (Bool-cases (is_empty rows)) [
      | inl empty ↦ rw empty h
      | inr full ↦ elim (Bool-cases a.written) [
        | inr failed ↦ rw (full, failed) (remove_output-HasEvent x a s u h)
        | inl written ↦
            rw (full, written)
              (swap-HasEvent x a plan meta now
                (write_sidecar env a rows
                  (record s { files = insert String_discrete a.output_id rows s.files }))
                saves u (output_HasEvent x env a rows s u h)
                (swapped-stored x plan meta events s.files s.manifest.raw_segments reads u h))
      ]
    ]

-- A compaction loses no event: an identifier that some segment of the manifest holds before is held by
-- one afterwards, whether the plan is committed, is skipped or fails to read or to write. The conditions:
-- the identifier of the output is not in use, and the manifest can be saved.
pub run_one_plan-HasEvent :
    (x : String) (env : Env) (a : PlanAnswers) (plan : CompactionPlan) (now : ℤ) (s : CompactState)
    → a.saves.steps ≡ saved
    → Unused a.output_id s.manifest.raw_segments
    → HasEvent x s
    → HasEvent x (run_one_plan env a plan now s).1
unfolding run_one_plan
run_one_plan-HasEvent x env a plan now s saves u h =
    merge-HasEvent x env a plan now s (read_segments a.readable s.files plan.segment_ids) saves u
      (read_segments-Reads x a.readable s.files plan.segment_ids) h
