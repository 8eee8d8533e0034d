-- ===== src/Compact.antt =====
-- src/compact/planner.rs and src/compact/worker.rs: the choice of segments to merge, the merge, its
-- commit in the manifest, and the sweep of the files that it has replaced.
-- A `HashMap` is an association list, in the order of the first insertions. The clock and the answers of
-- the operating system are arguments. The three steps of a tick run one after the other.
pub mod Planner
pub mod Merge
pub mod Totals
pub mod Reading
pub mod Swap
pub mod Sweep
pub mod Live
use usagedb.Prelude.{
  ℕ, suc, ◌+◌, ◌==◌, Bool, true, false, Option, none, some, List, [], ◌∷◌, ◌++◌, map, String, ltb,
  length, retain, any, not, is_empty, ◌&&◌, ℕ_discrete, if◌then◌else◌, ite,
}
use usagedb.Prelude.Int.{ℤ, pos, leb_ℤ, sub64}
use usagedb.Prelude.Text.{String_discrete}
use usagedb.Prelude.Map.{get, insert, remove}
use usagedb.Prelude.Entries.{update_entries}
use usagedb.Model.{UsageEvent}
use usagedb.Storage.Manifest.{Manifest, SegmentMeta, ReplacementRecord}
use usagedb.Storage.Generations.{ManifestDir, SaveAnswers, save}
use usagedb.Ingest.Segments.{sort_events_canonical, build_segment_meta, contains}
use usagedb.Ingest.Handler.{Env, compute_event_hashes}
use usagedb.Ingest.Flusher.{Files}
use usagedb.Query.Aggregate.{Strings_discrete}

pub record CompactionPlan : Type 0 where
  pub bucket : ℕ
  pub segment_ids : List String

-- `by_bucket.entry(seg.bucket).or_default().push(seg)`.
unfoldable pub push_segment : SegmentMeta → Option (List SegmentMeta) → List SegmentMeta
push_segment s none = s ∷ []
push_segment s (some segments) = segments ++ s ∷ []

unfoldable pub by_bucket : List SegmentMeta → List (ℕ × List SegmentMeta)
unfolding push_segment update_entries
by_bucket segments =
    update_entries ℕ_discrete (λ (s : SegmentMeta). s.bucket) push_segment [] segments

unfoldable pub segment_ids_of : List SegmentMeta → List String
segment_ids_of segments = map (λ (s : SegmentMeta). s.segment_id) segments

unfoldable pub emit_plans : ℕ → List (ℕ × List SegmentMeta) → List CompactionPlan
unfolding segment_ids_of
emit_plans max_small [] = []
emit_plans max_small ((bucket, segments) ∷ rest) =
    let plans = emit_plans max_small rest in
    if ltb max_small (length segments)
    then record { bucket = bucket; segment_ids = segment_ids_of segments } ∷ plans
    else plans

unfoldable pub plan_compaction : ℕ → List SegmentMeta → List CompactionPlan
unfolding by_bucket emit_plans
plan_compaction max_small segments = emit_plans max_small (by_bucket segments)

unfoldable pub extend : List UsageEvent → Option (List UsageEvent) → Option (List UsageEvent)
extend rows none = none
extend rows (some events) = some (rows ++ events)

-- `none` is a file that cannot be read. A missing file is passed over.
unfoldable pub read_segments : (String → Bool) → Files → List String → Option (List UsageEvent)
unfolding extend
read_segments readable files [] = some []
read_segments readable files (id ∷ ids) =
    let rest = read_segments readable files ids in
    elim (get String_discrete id files) [
      | none ↦ rest
      | some rows ↦ elim (readable id) [ false ↦ none | true ↦ extend rows rest ]
    ]

-- `events.retain(|e| seen.insert(e.event_id))`.
unfoldable pub retain_new : List String → List UsageEvent → List UsageEvent
unfolding contains
retain_new seen [] = []
retain_new seen (e ∷ es) = elim (contains e.event_id seen) [
  | true ↦ retain_new seen es
  | false ↦ e ∷ retain_new (e.event_id ∷ seen) es
]

-- The order is that of the flusher.
unfoldable pub sort_and_dedupe : List UsageEvent → List UsageEvent
unfolding retain_new sort_events_canonical
sort_and_dedupe events = retain_new [] (sort_events_canonical events)

-- An entry of a dedupe sidecar: the two hashes and the time of the ingestion.
abbrev pub SidecarEntry : Type 0
SidecarEntry = (ℕ × ℕ) × ℤ

pub record CompactState : Type 0 where
  pub manifest : Manifest
  pub manifest_dir : ManifestDir
  pub files : Files
  pub sidecars : List (String × List SidecarEntry)

-- The fresh identifier and the checksum of the output, and whether reading, writing, removing and
-- saving succeed.
pub record PlanAnswers : Type 0 where
  pub output_id : String
  pub checksum : ℕ
  pub readable : String → Bool
  pub written : Bool
  pub sidecar_written : Bool
  pub removes : Bool
  pub saves : SaveAnswers

-- `Ok(true)`, `Ok(false)` and `Err`.
pub data PlanResult : Type 0 where
  committed skipped plan_failed : PlanResult

unfoldable pub remove_output : PlanAnswers → CompactState → CompactState
remove_output a s =
    if a.removes then record s { files = remove String_discrete a.output_id s.files } else s

unfoldable pub idx_entries : Env → List UsageEvent → List SidecarEntry
unfolding compute_event_hashes
idx_entries env events =
    map (λ (e : UsageEvent). (compute_event_hashes env e, e.ingested_at_ms)) events

unfoldable pub write_sidecar : Env → PlanAnswers → List UsageEvent → CompactState → CompactState
unfolding idx_entries
write_sidecar env a events s = record s {
  sidecars =
      if a.sidecar_written
      then insert String_discrete a.output_id (idx_entries env events) s.sidecars
      else remove String_discrete a.output_id s.sidecars;
}

unfoldable pub is_input : List String → SegmentMeta → Bool
unfolding contains
is_input ids s = contains s.segment_id ids

unfoldable pub swap_inputs : CompactionPlan → SegmentMeta → ℤ → Manifest → Manifest
unfolding is_input
swap_inputs plan new_meta now m = record m {
  raw_segments = retain (λ s. not (is_input plan.segment_ids s)) m.raw_segments ++ new_meta ∷ [];
  compacted_replacements =
      m.compacted_replacements
      ++ record {
        old_segments = plan.segment_ids;
        new_segments = new_meta.segment_id ∷ [];
        committed_at_ms = now;
      }
        ∷ [];
}

unfoldable pub swap :
    PlanAnswers → CompactionPlan → SegmentMeta → ℤ → CompactState → PlanResult × CompactState
unfolding swap_inputs remove_output is_input
swap a plan new_meta now s =
    let still_present = length (retain (is_input plan.segment_ids) s.manifest.raw_segments) in
    if not (still_present == length plan.segment_ids)
    then (skipped, remove_output a s)
    else (let (ok, (manifest', dir')) =
          save a.saves (swap_inputs plan new_meta now s.manifest) s.manifest_dir in
        let s' : CompactState = record s { manifest = manifest'; manifest_dir = dir' } in
        if ok then (committed, s') else (plan_failed, remove_output a s'))

-- The file of the output, its sidecar and the swap. The file that fails is removed.
unfoldable pub write_output :
    Env
    → PlanAnswers
    → CompactionPlan
    → List UsageEvent
    → ℤ
    → CompactState
    → PlanResult × CompactState
unfolding write_sidecar swap remove_output
write_output env a plan rows now s =
    if a.written
    then swap a plan (build_segment_meta a.output_id rows plan.bucket a.checksum) now (
        write_sidecar env a rows
          (record s { files = insert String_discrete a.output_id rows s.files }))
    else (plan_failed, remove_output a s)

unfoldable pub merge :
    Env
    → PlanAnswers
    → CompactionPlan
    → ℤ
    → CompactState
    → Option (List UsageEvent)
    → PlanResult × CompactState
unfolding sort_and_dedupe write_output
merge env a plan now s none = (plan_failed, s)
merge env a plan now s (some events) =
    let deduped = sort_and_dedupe events in
    if is_empty deduped then (skipped, s) else write_output env a plan deduped now s

unfoldable pub run_one_plan :
    Env → PlanAnswers → CompactionPlan → ℤ → CompactState → PlanResult × CompactState
unfolding merge read_segments
run_one_plan env a plan now s =
    merge env a plan now s (read_segments a.readable s.files plan.segment_ids)

-- The sweep.
unfoldable pub is_due : ℤ → ReplacementRecord → Bool
is_due cutoff r =
    not (leb_ℤ r.committed_at_ms (pos 0) && leb_ℤ (pos 0) r.committed_at_ms)
    && leb_ℤ r.committed_at_ms cutoff

-- `path.exists()` and `remove_file`; a failure is only logged.
unfoldable pub delete_old : (String → Bool) → List String → Files → Files
delete_old removes [] files = files
delete_old removes (id ∷ ids) files =
    delete_old removes ids (if removes id then remove String_discrete id files else files)

unfoldable pub delete_replaced : (String → Bool) → List ReplacementRecord → Files → Files
unfolding delete_old
delete_replaced removes [] files = files
delete_replaced removes (r ∷ rs) files =
    delete_replaced removes rs (delete_old removes r.old_segments files)

-- Equality of `(committed_at_ms, old_segments)`.
unfoldable pub same_key : ReplacementRecord → ReplacementRecord → Bool
same_key r q =
    leb_ℤ r.committed_at_ms q.committed_at_ms
    && leb_ℤ q.committed_at_ms r.committed_at_ms
    && ite (Strings_discrete r.old_segments q.old_segments) true false

unfoldable pub drop_finalized : List ReplacementRecord → Manifest → Manifest
unfolding same_key
drop_finalized finalized m = record m {
  compacted_replacements = retain (λ r. not (any (same_key r) finalized)) m.compacted_replacements;
}

-- The number of finalized records, or `none` when the manifest cannot be saved.
unfoldable pub sweep_pending_deletions :
    (String → Bool) → SaveAnswers → ℤ → ℤ → CompactState → Option ℕ × CompactState
unfolding is_due delete_replaced drop_finalized
sweep_pending_deletions removes a now grace_ms s =
    let to_finalize = retain (is_due (sub64 now grace_ms)) s.manifest.compacted_replacements in
    if is_empty to_finalize
    then (some 0, s)
    else (let (ok, (manifest', dir')) =
          save a (drop_finalized to_finalize s.manifest) s.manifest_dir in
        (
          if ok then some (length to_finalize) else none,
          record s {
            manifest = manifest';
            manifest_dir = dir';
            files = delete_replaced removes to_finalize s.files;
          },
        ))

-- The tick: `answers i` are those of the i-th plan. A plan that fails is only logged.
unfoldable pub count_committed : PlanResult → ℕ → ℕ
count_committed committed n = suc n
count_committed skipped n = n
count_committed plan_failed n = n

unfoldable pub run_plans :
    Env → (ℕ → PlanAnswers) → ℕ → ℤ → List CompactionPlan → CompactState → ℕ × CompactState
unfolding run_one_plan count_committed
run_plans env answers i now [] s = (0, s)
run_plans env answers i now (plan ∷ plans) s =
    let (result, s1) = run_one_plan env (answers i) plan now s in
    let (n, s2) = run_plans env answers (i + 1) now plans s1 in (count_committed result n, s2)

pub record CompactionTickStats : Type 0 where
  pub compactions_committed : ℕ
  pub replacements_finalized : ℕ

unfoldable pub tick_plans :
    Env
    → (ℕ → PlanAnswers)
    → ℕ
    → ℤ
    → Option ℕ × CompactState
    → Option CompactionTickStats × CompactState
unfolding run_plans plan_compaction
tick_plans env answers max_small now (none, s) = (none, s)
tick_plans env answers max_small now (some finalized, s) =
    let (n, s') =
      run_plans env answers 0 now (plan_compaction max_small s.manifest.raw_segments) s in
    (some (record { compactions_committed = n; replacements_finalized = finalized }), s')

unfoldable pub tick :
    Env
    → (String → Bool)
    → SaveAnswers
    → (ℕ → PlanAnswers)
    → ℕ
    → ℤ
    → ℤ
    → CompactState
    → Option CompactionTickStats × CompactState
unfolding sweep_pending_deletions tick_plans
tick env removes sweep_save answers max_small grace_ms now s =
    tick_plans env answers max_small now (sweep_pending_deletions removes sweep_save now grace_ms s)
