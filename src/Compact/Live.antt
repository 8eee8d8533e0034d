-- ===== src/Compact/Live.antt =====
-- src/compact/worker.rs: the segments of the manifest and the files that wait for their deletion.
use usagedb.Prelude.{
  ◌≡◌, ◌≢◌, refl, sym, ◌∙◌, Bool, false, Option, none, some, List, [], ◌∷◌, ◌++◌, String, arith,
  All, any, not, retain, length, is_empty, if_neg, subst, Bool-cases, inl, inr, if◌then◌else◌, ◌==◌,
}
use usagedb.Prelude.Int.{ℤ, sub64}
use usagedb.Prelude.Text.{String_discrete}
use usagedb.Prelude.Map.{get, insert, remove, get-remove}
use usagedb.Model.{UsageEvent}
use usagedb.Storage.Manifest.{Manifest, SegmentMeta, ReplacementRecord}
use usagedb.Storage.Generations.{SaveAnswers, ManifestDir, save}
use usagedb.Storage.Generations.Outcomes.{save-cases}
use usagedb.Ingest.Segments.{contains, build_segment_meta}
use usagedb.Ingest.Handler.{Env}
use usagedb.Ingest.Flusher.{Files}
use usagedb.Compact.{
  CompactionPlan, CompactState, PlanAnswers, is_due, delete_old, delete_replaced,
  sweep_pending_deletions, read_segments, sort_and_dedupe, remove_output, write_sidecar, is_input,
  swap_inputs, swap, write_output, merge, run_one_plan,
}

-- Whether a record lists a segment among its old ones.
abbrev pub listed : String → List ReplacementRecord → Bool
listed id rs = any (λ (r : ReplacementRecord). contains id r.old_segments) rs

pub not_head : (id o : String) (old : List String) → contains id (o ∷ old) ≡ false → id ≢ o
unfolding contains
not_head id o old h e = ground (arith, h, e)

delete_old_other :
    (removes : String → Bool) (id : String) (old : List String) (files : Files)
    → contains id old ≡ false
    → get String_discrete id (delete_old removes old files) ≡ get String_discrete id files
unfolding delete_old contains
delete_old_other removes id [] files h = refl
delete_old_other removes id (o ∷ old) files h =
    let f' : Files = if removes o then remove String_discrete o files else files in
    delete_old_other removes id old f' (ground (arith, h)) ∙ elim (Bool-cases (removes o)) [
      | inl gone ↦ rw gone (
          get-remove String_discrete o id files
          ∙ if_neg (String_discrete o id) (λ e. not_head id o old h (sym e)) none
              (get String_discrete id files))
      | inr stays ↦ rw stays refl
    ]

delete_replaced_other :
    (removes : String → Bool) (id : String) (rs : List ReplacementRecord) (files : Files)
    → listed id rs ≡ false
    → get String_discrete id (delete_replaced removes rs files) ≡ get String_discrete id files
unfolding delete_replaced any
delete_replaced_other removes id [] files h = refl
delete_replaced_other removes id (r ∷ rs) files h =
    delete_replaced_other removes id rs (delete_old removes r.old_segments files)
      (ground (arith, h))
    ∙ delete_old_other removes id r.old_segments files (ground (arith, h))

listed-retain :
    (id : String) (p : ReplacementRecord → Bool) (rs : List ReplacementRecord)
    → listed id rs ≡ false
    → listed id (retain p rs) ≡ false
unfolding any retain
listed-retain id p [] h = refl
listed-retain id p (r ∷ rs) h = ground (arith, h, listed-retain id p rs)

-- No segment of the manifest is listed for deletion.
abbrev pub Live : Manifest → Type 0
Live m =
    All (λ (t : SegmentMeta). listed t.segment_id m.compacted_replacements ≡ false) m.raw_segments

abbrev pub KeptFiles : Files → Files → List SegmentMeta → Type 0
KeptFiles f f' segments =
    All
      (λ (t : SegmentMeta).
        get String_discrete t.segment_id f' ≡ get String_discrete t.segment_id f)
      segments

live_kept :
    (removes : String → Bool) (p : ReplacementRecord → Bool) (rs : List ReplacementRecord)
    (files : Files) (segments : List SegmentMeta)
    → All (λ (t : SegmentMeta). listed t.segment_id rs ≡ false) segments
    → KeptFiles files (delete_replaced removes (retain p rs) files) segments
live_kept removes p rs files [] h = tt
live_kept removes p rs files (t ∷ segments) h = (
  delete_replaced_other removes t.segment_id (retain p rs) files
      (listed-retain t.segment_id p rs h.0),
  live_kept removes p rs files segments h.1,
)

same_files : (files : Files) (segments : List SegmentMeta) → KeptFiles files files segments
same_files files [] = tt
same_files files (t ∷ segments) = (refl, same_files files segments)

-- A sweep leaves the file of every segment of the manifest as it is. The condition is that no segment
-- of the manifest is listed for deletion.
pub sweep-KeptFiles :
    (removes : String → Bool) (a : SaveAnswers) (now grace_ms : ℤ) (s : CompactState)
    → Live s.manifest
    → KeptFiles s.files
        (sweep_pending_deletions removes a now grace_ms s).1.files
        s.manifest.raw_segments
unfolding sweep_pending_deletions
sweep-KeptFiles removes a now grace_ms s h =
    let due = is_due (sub64 now grace_ms) in
    let rs : List ReplacementRecord = s.manifest.compacted_replacements in
    elim (Bool-cases (is_empty (retain due rs))) [
      | inl none_due ↦ rw none_due (same_files s.files s.manifest.raw_segments)
      | inr some_due ↦ rw some_due (live_kept removes due rs s.files s.manifest.raw_segments h)
    ]

listed-append :
    (id : String) (rs qs : List ReplacementRecord)
    → listed id rs ≡ false
    → listed id qs ≡ false
    → listed id (rs ++ qs) ≡ false
unfolding any
listed-append id [] qs h k = k
listed-append id (r ∷ rs) qs h k = ground (arith, h, listed-append id rs qs, k)

-- The segments that a swap leaves are not among its inputs.
Live_swap :
    (plan : CompactionPlan) (new_meta : SegmentMeta) (now : ℤ) (rs : List ReplacementRecord)
    (segments : List SegmentMeta)
    → let record_of : ReplacementRecord = record {
      old_segments = plan.segment_ids;
      new_segments = new_meta.segment_id ∷ [];
      committed_at_ms = now;
    } in
      listed new_meta.segment_id rs ≡ false
      → contains new_meta.segment_id plan.segment_ids ≡ false
      → All (λ (t : SegmentMeta). listed t.segment_id rs ≡ false) segments
      → All
          (λ (t : SegmentMeta). listed t.segment_id (rs ++ record_of ∷ []) ≡ false)
          (retain (λ s. not (is_input plan.segment_ids s)) segments ++ new_meta ∷ [])
unfolding is_input retain any
Live_swap plan new_meta now rs [] f o h =
    (listed-append new_meta.segment_id rs _ f (ground (arith, o)), tt)
Live_swap plan new_meta now rs (t ∷ segments) f o h =
    let rest = Live_swap plan new_meta now rs segments f o h.1 in
    elim (Bool-cases (contains t.segment_id plan.segment_ids)) [
      | inl input ↦ rw input rest
      | inr stays ↦ rw stays (listed-append t.segment_id rs _ h.0 (ground (arith, stays)), rest)
    ]

save-Live : (a : SaveAnswers) (m : Manifest) (dir : ManifestDir) → Live m → Live (save a m dir).1.0
save-Live a m dir h = elim (save-cases a m dir) [
  | inl (ok, same) ↦ subst Live (sym same) h
  | inr (failed, same) ↦ subst Live (sym same) h
]

same_manifest :
    (a : PlanAnswers) (s : CompactState) → Live s.manifest → Live (remove_output a s).manifest
unfolding remove_output
same_manifest a s h = elim (Bool-cases a.removes) [
  | inl removes ↦ rw removes h
  | inr stays ↦ rw stays h
]

swap-Live :
    (a : PlanAnswers) (plan : CompactionPlan) (new_meta : SegmentMeta) (now : ℤ) (s : CompactState)
    → listed new_meta.segment_id s.manifest.compacted_replacements ≡ false
    → contains new_meta.segment_id plan.segment_ids ≡ false
    → Live s.manifest
    → Live (swap a plan new_meta now s).1.manifest
unfolding swap remove_output swap_inputs
swap-Live a plan new_meta now s f o h =
    let present = length (retain (is_input plan.segment_ids) s.manifest.raw_segments) in
    let m : Manifest = swap_inputs plan new_meta now s.manifest in
    let live : Live m =
      Live_swap plan new_meta now s.manifest.compacted_replacements s.manifest.raw_segments f o h in
    elim (Bool-cases (present == length plan.segment_ids)) [
      | inr gone ↦ rw gone (same_manifest a s h)
      | inl all ↦ elim (Bool-cases (save a.saves m s.manifest_dir).0) [
        | inl ok ↦ rw (all, ok) (save-Live a.saves m s.manifest_dir live)
        | inr failed ↦
            rw (all, failed)
              (same_manifest a
                (record s {
                  manifest = (save a.saves m s.manifest_dir).1.0;
                  manifest_dir = (save a.saves m s.manifest_dir).1.1;
                })
                (save-Live a.saves m s.manifest_dir live))
      ]
    ]

merge-Live :
    (env : Env) (a : PlanAnswers) (plan : CompactionPlan) (now : ℤ) (s : CompactState)
    (r : Option (List UsageEvent))
    → listed a.output_id s.manifest.compacted_replacements ≡ false
    → contains a.output_id plan.segment_ids ≡ false
    → Live s.manifest
    → Live (merge env a plan now s r).1.manifest
unfolding merge write_output write_sidecar build_segment_meta
merge-Live env a plan now s none f o h = h
merge-Live env a plan now s (some events) f o h =
    let rows = sort_and_dedupe events in
    elim (Bool-cases (is_empty rows)) [
      | inl empty ↦ rw empty h
      | inr full ↦ elim (Bool-cases a.written) [
        | inr failed ↦ rw (full, failed) (same_manifest a s h)
        | inl written ↦
            rw (full, written)
              (swap-Live a plan (build_segment_meta a.output_id rows plan.bucket a.checksum) now
                (write_sidecar env a rows
                  (record s { files = insert String_discrete a.output_id rows s.files }))
                f o h)
      ]
    ]

-- Running a plan keeps it true that no segment of the manifest is listed for deletion, on every branch.
-- The condition is that the identifier of the output is new: no record lists it, nor does the plan.
pub run_one_plan-Live :
    (env : Env) (a : PlanAnswers) (plan : CompactionPlan) (now : ℤ) (s : CompactState)
    → listed a.output_id s.manifest.compacted_replacements ≡ false
    → contains a.output_id plan.segment_ids ≡ false
    → Live s.manifest
    → Live (run_one_plan env a plan now s).1.manifest
unfolding run_one_plan
run_one_plan-Live env a plan now s f o h =
    merge-Live env a plan now s (read_segments a.readable s.files plan.segment_ids) f o h
