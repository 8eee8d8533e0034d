-- ===== src/Tests/Rollups.antt =====
-- A tick over one raw segment of two events, a rebuild, and a tick that cannot save.
use usagedb.Prelude.{
  ℕ, ◌≡◌, ◌≢◌, ◌≤◌, ◌++◌, refl, none, some, Option, List, [], ◌∷◌, String, arith, All, true, false,
  length, inl, inr, ◌+◌,
}
use usagedb.Prelude.Int.{ℤ, pos, ◌≤ℤ◌, ◌<ℤ◌, ◌+ℤ◌, max_ℤ}
use usagedb.Prelude.Entries.{amounts, amount_sizes}
use usagedb.Model.{UsageEvent, SmallDimensions}
use usagedb.Storage.Manifest.{Manifest, SegmentMeta, default_manifest}
use usagedb.Storage.Generations.{no_file, save}
use usagedb.Ingest.Segments.{build_segment_meta}
use usagedb.Rollup.Totals.{quantity_of}
use usagedb.Rollup.Hours.{
  Run, RollupAnswer, RollupFiles, finished, HourResult, hour_rolled, hour_failed, roll_hour,
  already_rolled, HourLoop, scan_segments,
}
use usagedb.Rollup.Hours.Events.{hour_events, AllSpanned, BuildersIf, scan_segments-builders}
use usagedb.Rollup.Hours.Totals.{meta_sum, roll_hour_sum}
use usagedb.Rollup.Worker.{
  WorkerConfig, WorkerState, TickAnswers, tick, no_end, too_old, target_hour, start_watermark,
  snapshot_run, rebuild_rollups, commit_rollups, commit_tick,
}
use usagedb.Rollup.Worker.Watermark.{tick-watermark}
use usagedb.Rollup.Worker.Progress.{tick_ends, tick_progress, Done, InRange}
use usagedb.Rollup.Worker.Rebuild.{Gone, rebuild_rollups-already_rolled, commit_tick_failed}
use usagedb.Tests.Data.{first, second, event_of, sample_env, empty_dir, empty_state, save_answers}

abbrev two : List UsageEvent
two = first ∷ second ∷ []

abbrev segment : SegmentMeta
segment = build_segment_meta "s1" two 0 0

abbrev manifest : Manifest
manifest = record default_manifest { raw_segments = segment ∷ []; bucket_count = 1 }

abbrev config : WorkerConfig
config = record {
  blake3 = sample_env.blake3;
  to_json = λ (d : SmallDimensions). "{}";
  safety_lag_ms = pos 1000;
  memtable_max_age_ms = pos 60000;
}

abbrev answers : TickAnswers
answers = record {
  readable = λ (id : String). true;
  write = λ (i : ℕ). record { segment_id = "r1"; checksum = 0; outcome = finished };
  saves = save_answers;
  removes = true;
  rotate_flushed = true;
  rotate_synced = true;
  rotate_opened = true;
  sent = true;
}

-- An event of the third hour is still in the memtable.
abbrev state : WorkerState
state = record {
  manifest = manifest;
  manifest_dir = empty_dir;
  wal = empty_state.wal;
  memtable = record {
    events = event_of "c" "z" 7300000 1 ∷ [];
    approx_size_bytes = 300;
    oldest_insert_at_ms = some (pos 10800000);
  };
  files = ("s1", two) ∷ [];
  rollup_files = [];
  flush_queue = [];
}

-- Three hours have passed.
abbrev now : ℤ
now = pos 10801500

tick-watermark_example :
    (tick config answers now state).1.manifest.hourly_rollup_ms ≤ℤ max_ℤ (pos 0) (pos 7300000)
tick-watermark_example =
    tick-watermark config answers now state (event_of "c" "z" 7300000 1) (inl refl) (omega arith)

starts : start_watermark (pos 0) (segment ∷ []) ≡ pos 0
unfolding start_watermark usagedb.Rollup.Worker.earliest usagedb.Rollup.hour_of build_segment_meta
    usagedb.Ingest.Segments.scan_events usagedb.Ingest.Segments.scan_event
    usagedb.Ingest.Segments.zero_if_max usagedb.Prelude.Int.div_trunc usagedb.Prelude.Int.scale
starts = refl

goes_to : target_hour config now state.memtable ≡ pos 7200000
unfolding target_hour usagedb.Rollup.Worker.time_target usagedb.Rollup.Worker.cap_target
    usagedb.Rollup.hour_of usagedb.Prelude.Int.div_trunc usagedb.Prelude.Int.scale
    usagedb.Prelude.Int.sub64 usagedb.Prelude.Int.◌-ℤ◌ usagedb.Prelude.Int.to_bits
    usagedb.Prelude.Int.of_bits usagedb.Ingest.Memtable.min_event_timestamp_ms
    usagedb.Ingest.Memtable.min_timestamp
goes_to = refl

clock_target : usagedb.Rollup.Worker.time_target config now ≡ pos 10800000
unfolding usagedb.Rollup.Worker.time_target usagedb.Rollup.hour_of usagedb.Prelude.Int.div_trunc
    usagedb.Prelude.Int.scale usagedb.Prelude.Int.sub64 usagedb.Prelude.Int.◌-ℤ◌
    usagedb.Prelude.Int.to_bits usagedb.Prelude.Int.of_bits
clock_target = refl

times-InRange : InRange config now manifest
times-InRange = rw (starts, clock_target) (omega arith, omega arith)

young : too_old now (pos 60000) (some (pos 10800000)) ≡ false
unfolding too_old usagedb.Prelude.Int.sub64 usagedb.Prelude.Int.◌-ℤ◌ usagedb.Prelude.Int.to_bits
    usagedb.Prelude.Int.of_bits
young = refl

ahead : start_watermark (pos 0) (segment ∷ []) <ℤ target_hour config now state.memtable
ahead = rw (starts, goes_to) (omega arith)

tick_ends_example : (tick config answers now state).0 ≢ no_end
tick_ends_example = tick_ends config answers now state times-InRange

tick_progress_example :
    Done
      (target_hour config now state.memtable)
      save_answers
      (tick config answers now state).0
      (tick config answers now state).1
tick_progress_example =
    tick_progress save_answers config answers now state (omega arith) young ahead times-InRange
      (λ id. refl) (λ i. refl) refl

abbrev rollup_segment : SegmentMeta
rollup_segment = record segment {
  segment_id = "r0";
  max_timestamp_ms = pos 3599999;
  min_timestamp_ms = pos 0;
}

abbrev rolled_manifest : Manifest
rolled_manifest = record manifest { rollup_segments = rollup_segment ∷ [] }

rebuild_rollups-already_rolled_example :
    (already_rolled
        (rebuild_rollups save_answers
          (pos 0)
          (pos 3600000)
          rolled_manifest
          empty_dir).1.0.rollup_segments
        (pos 0)
        0
      ≡ false)
    × ((rebuild_rollups save_answers
          (pos 0)
          (pos 3600000)
          rolled_manifest
          empty_dir).1.0.hourly_rollup_ms
        ≤ℤ pos 0)
rebuild_rollups-already_rolled_example =
    rebuild_rollups-already_rolled save_answers (pos 0) (pos 3600000) (pos 0) 0 rolled_manifest
      empty_dir (omega arith, tt) (omega arith) (omega arith)

abbrev failing : TickAnswers
failing = record answers { saves = record { steps = no_file; prunes = λ g. true } }

not_saved :
    (save failing.saves (commit_rollups (rollup_segment ∷ []) (pos 3600000) manifest) empty_dir).0
    ≡ false
unfolding save
not_saved = refl

commit_tick_failed_example :
    let s' = (commit_tick failing (pos 3600000) (rollup_segment ∷ []) 1 state).1 in
    (s'.manifest.hourly_rollup_ms ≡ pos 3600000)
    × ((s'.manifest.rollup_segments ≡ [] ++ rollup_segment ∷ [])
        × All (Gone s'.rollup_files) (rollup_segment ∷ []))
commit_tick_failed_example =
    commit_tick_failed failing (pos 3600000) (rollup_segment ∷ []) 1 state not_saved refl

abbrev one_segment : SegmentMeta
one_segment = build_segment_meta "s1" (first ∷ []) 0 0

abbrev run : Run
run = record {
  blake3 = sample_env.blake3;
  to_json = config.to_json;
  readable = answers.readable;
  files = ("s1", first ∷ []) ∷ [];
  bucket_count = 1;
  raw_segments = one_segment ∷ [];
  rollup_segments = [];
}

abbrev segments_of : HourResult → List SegmentMeta
segments_of (hour_rolled new_segments files) = new_segments
segments_of (hour_failed files) = []

abbrev files_of : HourResult → RollupFiles
files_of (hour_rolled new_segments files) = files
files_of (hour_failed files) = files

spanned : AllSpanned run (one_segment ∷ [])
unfolding build_segment_meta usagedb.Ingest.Segments.scan_events usagedb.Ingest.Segments.scan_event
    usagedb.Ingest.Segments.zero_if_max usagedb.Ingest.Segments.zero_if_min
    usagedb.Rollup.Hours.or_default usagedb.Prelude.Map.get usagedb.Prelude.Text.String_discrete
spanned = (((omega arith, omega arith), tt), tt)

rolled :
    roll_hour run answers.write (pos 0) [] []
    ≡ hour_rolled
        (segments_of (roll_hour run answers.write (pos 0) [] []))
        (files_of (roll_hour run answers.write (pos 0) [] []))
unfolding roll_hour usagedb.Rollup.Hours.scan_segments usagedb.Rollup.Hours.scan_rows
    usagedb.Rollup.Hours.overlaps_hour usagedb.Rollup.Hours.takes usagedb.Rollup.Hours.in_hour
    usagedb.Rollup.Hours.already_rolled usagedb.Rollup.Hours.bucket_of
    usagedb.Rollup.Hours.add_to_bucket usagedb.Rollup.Hours.process_event
    usagedb.Rollup.Hours.or_default usagedb.Rollup.Hours.btree_insert
    usagedb.Rollup.Hours.write_builders usagedb.Rollup.Hours.write_rollup_segment
    usagedb.Rollup.Hours.build_rollup_segment_meta usagedb.Rollup.Hours.scan_records
    usagedb.Rollup.Hours.scan_record usagedb.Rollup.rollup_key usagedb.Rollup.add_to_record
    usagedb.Rollup.or_insert usagedb.Rollup.hour_of usagedb.Rollup.finalize usagedb.Prelude.Map.get
    usagedb.Prelude.Map.insert usagedb.Prelude.Map.remove usagedb.Prelude.Text.String_discrete
    usagedb.Prelude.any usagedb.Prelude.retain usagedb.Prelude.ℕ_discrete
    usagedb.Model.bucket_for_account usagedb.Model.from_le_bytes usagedb.Model.as_bytes
    usagedb.Prelude.Text.utf8 usagedb.Prelude.Text.utf8_char usagedb.Prelude.Entries.update_entries
    usagedb.Prelude.Int.add64 usagedb.Prelude.Int.sub64 usagedb.Prelude.Int.to_bits
    usagedb.Prelude.Int.of_bits usagedb.Prelude.Int.◌+ℤ◌ usagedb.Prelude.Int.◌-ℤ◌
    usagedb.Prelude.Int.div_trunc usagedb.Prelude.Int.scale usagedb.Prelude.Int.saturating_add
    usagedb.Ingest.Segments.set_insert usagedb.Ingest.Segments.contains
    usagedb.Ingest.Segments.insert_model usagedb.Ingest.Segments.lower
    usagedb.Ingest.Segments.higher usagedb.Ingest.Segments.scan_events
    usagedb.Ingest.Segments.scan_event usagedb.Ingest.Segments.zero_if_max
    usagedb.Ingest.Segments.zero_if_min usagedb.Ingest.Segments.build_segment_meta
rolled = refl

sizes_fit :
    amount_sizes quantity_of (hour_events run (pos 0) (one_segment ∷ []))
    ≤ 170141183460469231731687303715884105727
unfolding hour_events usagedb.Rollup.Hours.Events.events_taken usagedb.Rollup.Hours.scan_segments
    usagedb.Rollup.Hours.scan_rows usagedb.Rollup.Hours.overlaps_hour usagedb.Rollup.Hours.takes
    usagedb.Rollup.Hours.in_hour usagedb.Rollup.Hours.already_rolled usagedb.Rollup.Hours.bucket_of
    usagedb.Rollup.Hours.add_to_bucket usagedb.Rollup.Hours.process_event
    usagedb.Rollup.Hours.or_default usagedb.Rollup.Hours.btree_insert
    usagedb.Rollup.Hours.write_builders usagedb.Rollup.Hours.write_rollup_segment
    usagedb.Rollup.Hours.build_rollup_segment_meta usagedb.Rollup.Hours.scan_records
    usagedb.Rollup.Hours.scan_record usagedb.Rollup.rollup_key usagedb.Rollup.add_to_record
    usagedb.Rollup.or_insert usagedb.Rollup.hour_of usagedb.Rollup.finalize usagedb.Prelude.Map.get
    usagedb.Prelude.Map.insert usagedb.Prelude.Map.remove usagedb.Prelude.Text.String_discrete
    usagedb.Prelude.any usagedb.Prelude.retain usagedb.Prelude.ℕ_discrete
    usagedb.Model.bucket_for_account usagedb.Model.from_le_bytes usagedb.Model.as_bytes
    usagedb.Prelude.Text.utf8 usagedb.Prelude.Text.utf8_char usagedb.Prelude.Entries.update_entries
    usagedb.Prelude.Int.add64 usagedb.Prelude.Int.sub64 usagedb.Prelude.Int.to_bits
    usagedb.Prelude.Int.of_bits usagedb.Prelude.Int.◌+ℤ◌ usagedb.Prelude.Int.◌-ℤ◌
    usagedb.Prelude.Int.div_trunc usagedb.Prelude.Int.scale usagedb.Prelude.Int.saturating_add
    usagedb.Ingest.Segments.set_insert usagedb.Ingest.Segments.contains
    usagedb.Ingest.Segments.insert_model usagedb.Ingest.Segments.lower
    usagedb.Ingest.Segments.higher usagedb.Ingest.Segments.scan_events
    usagedb.Ingest.Segments.scan_event usagedb.Ingest.Segments.zero_if_max
    usagedb.Ingest.Segments.zero_if_min usagedb.Ingest.Segments.build_segment_meta
sizes_fit = omega arith

roll_hour_sum_example :
    amounts meta_sum (segments_of (roll_hour run answers.write (pos 0) [] []))
    ≡ pos 0 +ℤ amounts quantity_of (hour_events run (pos 0) (one_segment ∷ []))
roll_hour_sum_example =
    roll_hour_sum run answers.write (pos 0) []
      (segments_of (roll_hour run answers.write (pos 0) [] [])) []
      (files_of (roll_hour run answers.write (pos 0) [] [])) spanned sizes_fit rolled
