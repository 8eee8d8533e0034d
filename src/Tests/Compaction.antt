-- ===== src/Tests/Compaction.antt =====
-- Two small segments of one bucket, merged, and the sweep after it.
use usagedb.Prelude.{
  ℕ, ◌≡◌, ◌≢◌, refl, ◌++◌, true, false, none, List, [], ◌∷◌, String, arith, All, retain, not,
}
use usagedb.Prelude.Int.{pos, sub64}
use usagedb.Prelude.Text.{String_discrete}
use usagedb.Prelude.Map.{get}
use usagedb.Model.{UsageEvent}
use usagedb.Storage.Manifest.{Manifest, SegmentMeta, ReplacementRecord, default_manifest}
use usagedb.Storage.Generations.{no_file}
use usagedb.Ingest.Segments.{build_segment_meta, sort_events_canonical, contains}
use usagedb.Compact.{
  CompactionPlan, CompactState, PlanAnswers, sort_and_dedupe, is_due, run_one_plan,
  sweep_pending_deletions,
}
use usagedb.Compact.Merge.{DistinctIds, Merged, sort_and_dedupe-Merged}
use usagedb.Compact.Swap.{HasEvent, Unused, run_one_plan-HasEvent}
use usagedb.Compact.Sweep.{sweep_retains}
use usagedb.Compact.Live.{KeptFiles, Live, listed, not_head, run_one_plan-Live, sweep-KeptFiles}
use usagedb.Tests.Data.{first, second, sample_env, empty_dir, save_answers}

abbrev segment : String → List UsageEvent → SegmentMeta
segment id events = build_segment_meta id events 0 0

abbrev segments : List SegmentMeta
segments = segment "s1" (first ∷ []) ∷ segment "s2" (first ∷ second ∷ []) ∷ []

-- An old replacement waits for its deletion.
abbrev old_record : ReplacementRecord
old_record = record {
  old_segments = "s0" ∷ [];
  new_segments = "s1" ∷ [];
  committed_at_ms = pos 1000;
}

abbrev manifest : Manifest
manifest = record default_manifest {
  raw_segments = segments;
  compacted_replacements = old_record ∷ [];
  bucket_count = 1;
}

abbrev state : CompactState
state = record {
  manifest = manifest;
  manifest_dir = empty_dir;
  files = ("s0", first ∷ []) ∷ ("s1", first ∷ []) ∷ ("s2", first ∷ second ∷ []) ∷ [];
  sidecars = [];
}

abbrev answers : PlanAnswers
answers = record {
  output_id = "c1";
  checksum = 0;
  readable = λ (id : String). true;
  written = true;
  sidecar_written = true;
  removes = true;
  saves = save_answers;
}

abbrev plan : CompactionPlan
plan = record { bucket = 0; segment_ids = "s1" ∷ "s2" ∷ [] }

sort_and_dedupe-Merged_example :
    Merged (first ∷ first ∷ second ∷ []) (sort_and_dedupe (first ∷ first ∷ second ∷ []))
sort_and_dedupe-Merged_example = sort_and_dedupe-Merged (first ∷ first ∷ second ∷ [])

distinct : DistinctIds (second ∷ first ∷ [])
unfolding usagedb.Ingest.Segments.contains String_discrete usagedb.Prelude.Text.decide_by
distinct = (refl, (refl, tt))

unused : Unused "c1" segments
unfolding build_segment_meta usagedb.Ingest.Segments.contains String_discrete
    usagedb.Prelude.Text.decide_by
unused = (not_head "s1" "c1" [] refl, (not_head "s2" "c1" [] refl, tt))

held : HasEvent "b" state
unfolding usagedb.Prelude.any usagedb.Prelude.Map.get String_discrete usagedb.Prelude.Text.decide_by
    usagedb.Ingest.Segments.contains build_segment_meta
held = refl

run_one_plan-HasEvent_example :
    HasEvent "b" (run_one_plan sample_env answers plan (pos 5000) state).1
run_one_plan-HasEvent_example =
    run_one_plan-HasEvent "b" sample_env answers plan (pos 5000) state refl unused held

abbrev failing : PlanAnswers
failing = record answers { saves = record { steps = no_file; prunes = λ g. true } }

-- The events of both segments are lost from view.
abbrev after_failure : CompactState
after_failure = (run_one_plan sample_env failing plan (pos 5000) state).1

abbrev swept : CompactState
swept = (sweep_pending_deletions (λ (id : String). true) save_answers (pos 9000) (pos 3000) state).1

sweep_retains_example :
    swept.manifest.compacted_replacements
    ≡ retain (λ r. not (is_due (sub64 (pos 9000) (pos 3000)) r)) (old_record ∷ [])
sweep_retains_example =
    sweep_retains (λ (id : String). true) save_answers (pos 9000) (pos 3000) state

live : Live manifest
unfolding usagedb.Prelude.any usagedb.Ingest.Segments.contains String_discrete
    usagedb.Prelude.Text.decide_by build_segment_meta
live = (refl, (refl, tt))

sweep-KeptFiles_example : KeptFiles state.files swept.files segments
sweep-KeptFiles_example =
    sweep-KeptFiles (λ (id : String). true) save_answers (pos 9000) (pos 3000) state live

unlisted : listed "c1" (old_record ∷ []) ≡ false
unfolding usagedb.Prelude.any usagedb.Ingest.Segments.contains String_discrete
    usagedb.Prelude.Text.decide_by
unlisted = refl

not_input : contains "c1" ("s1" ∷ "s2" ∷ []) ≡ false
unfolding contains String_discrete usagedb.Prelude.Text.decide_by
not_input = refl

run_one_plan-Live_example : Live (run_one_plan sample_env answers plan (pos 5000) state).1.manifest
run_one_plan-Live_example =
    run_one_plan-Live sample_env answers plan (pos 5000) state unlisted not_input live
