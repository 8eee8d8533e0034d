-- ===== src/Tests/Ingest.antt =====
-- The ingest path on three events, of which one comes twice, and on the same batch again.
use usagedb.Prelude.{◌≡◌, ◌≢◌, ◌+◌, ◌<◌, ◌⊎◌, refl, none, [], map, ◌++◌, arith, length, false, List}
use usagedb.Prelude.Int.{pos}
use usagedb.Ingest.Dedupe.Order.{stale_count}
use usagedb.Ingest.Dedupe
use usagedb.Ingest.Dedupe.Room.{HasRoom}
use usagedb.Ingest.Wal.{file_at}
use usagedb.Ingest.Handler.{
  IngestOutcome, Result, ok, err, State, Classified, Answers, Config, wal_rotate_failed, strict,
  handle_ingest, ingest_critical_section, sort_batch, admit_all, commit_all,
}
use usagedb.Ingest.Handler.Counts.{handle_ingest_count, critical_section_events, Buffered}
use usagedb.Ingest.Handler.Failures.{critical_section_error, strict_durable, logged_lines}
use usagedb.Ingest.Handler.Retry.{retry_accepts_nothing}
use usagedb.Tests.Data.{batch, sample_env, answers, config, empty_cache, empty_state}

abbrev pub outcome : IngestOutcome
outcome = record { accepted = 2; duplicates = 1; conflicts = 0; rejected = 0; drained = none }

abbrev after : State
after = (handle_ingest sample_env config answers [] batch empty_state).1

run : handle_ingest sample_env config answers [] batch empty_state ≡ (ok outcome, after)
unfolding usagedb.Ingest.Handler.handle_ingest usagedb.Ingest.Handler.ingest_critical_section
    usagedb.Ingest.Handler.log_batch usagedb.Ingest.Handler.sort_batch
    usagedb.Ingest.Handler.admit_all usagedb.Validate.validate_event
    usagedb.Ingest.Handler.in_closed_period usagedb.Prelude.any usagedb.Prelude.Map.get
    usagedb.Ingest.Dedupe.classify usagedb.Ingest.Wal.append_batch usagedb.Prelude.Map.insert
    usagedb.Prelude.ℕ_discrete usagedb.Ingest.Handler.compute_event_hashes
    usagedb.Model.from_le_bytes usagedb.Model.as_bytes usagedb.Ingest.Wal.sync
    usagedb.Ingest.Wal.flush_buffer usagedb.Ingest.Dedupe.add_entry usagedb.Ingest.Dedupe.bounded
    usagedb.Ingest.Dedupe.commit usagedb.Ingest.Dedupe.contains_key
    usagedb.Ingest.Dedupe.evict_expired usagedb.Ingest.Dedupe.expire usagedb.Ingest.Dedupe.shrink
    usagedb.Ingest.Handler.add_conflict usagedb.Ingest.Handler.add_duplicate
    usagedb.Ingest.Handler.add_new usagedb.Ingest.Handler.admit usagedb.Ingest.Handler.blake3_u128
    usagedb.Ingest.Handler.commit_all usagedb.Ingest.Handler.drain usagedb.Ingest.Handler.finish
    usagedb.Ingest.Handler.is_closed_for usagedb.Ingest.Handler.is_usage
    usagedb.Ingest.Handler.make_durable usagedb.Ingest.Handler.payload_hash_of
    usagedb.Ingest.Handler.period_for_ts usagedb.Ingest.Memtable.correction_len
    usagedb.Ingest.Memtable.dimensions_len usagedb.Ingest.Memtable.drain_all
    usagedb.Ingest.Memtable.estimate_event_size usagedb.Ingest.Memtable.insert
    usagedb.Ingest.Memtable.oldest_after usagedb.Ingest.Memtable.optional_len
    usagedb.Ingest.Memtable.str_len usagedb.Ingest.Wal.create usagedb.Ingest.Wal.file_at
    usagedb.Ingest.Wal.file_or_empty usagedb.Ingest.Wal.open_next usagedb.Ingest.Wal.rotate
    usagedb.Ingest.Wal.sync_data usagedb.Ingest.Wal.write_line usagedb.Prelude.Int.of_bits
    usagedb.Prelude.Int.sub64 usagedb.Prelude.Int.to_bits usagedb.Prelude.Int.◌-ℤ◌
    usagedb.Prelude.Map.remove usagedb.Prelude.Text.utf8 usagedb.Prelude.Text.utf8_char
    usagedb.Validate.is_adjustment usagedb.Validate.is_empty_str usagedb.Validate.is_none
    usagedb.Ingest.Dedupe.against
run = refl

handle_ingest_count_example : 2 + 1 + 0 + 0 ≡ 3
handle_ingest_count_example =
    handle_ingest_count sample_env config answers [] batch empty_state after outcome run

abbrev retry_outcome : IngestOutcome
retry_outcome = record { accepted = 0; duplicates = 3; conflicts = 0; rejected = 0; drained = none }

abbrev after_retry : State
after_retry = (handle_ingest sample_env config answers [] batch after).1

run_again : handle_ingest sample_env config answers [] batch after ≡ (ok retry_outcome, after_retry)
unfolding usagedb.Ingest.Handler.handle_ingest usagedb.Ingest.Handler.ingest_critical_section
    usagedb.Ingest.Handler.log_batch usagedb.Ingest.Handler.sort_batch
    usagedb.Ingest.Handler.admit_all usagedb.Validate.validate_event
    usagedb.Ingest.Handler.in_closed_period usagedb.Prelude.any usagedb.Prelude.Map.get
    usagedb.Ingest.Dedupe.classify usagedb.Ingest.Wal.append_batch usagedb.Prelude.Map.insert
    usagedb.Prelude.ℕ_discrete usagedb.Ingest.Handler.compute_event_hashes
    usagedb.Model.from_le_bytes usagedb.Model.as_bytes usagedb.Ingest.Wal.sync
    usagedb.Ingest.Wal.flush_buffer usagedb.Ingest.Dedupe.add_entry usagedb.Ingest.Dedupe.bounded
    usagedb.Ingest.Dedupe.commit usagedb.Ingest.Dedupe.contains_key
    usagedb.Ingest.Dedupe.evict_expired usagedb.Ingest.Dedupe.expire usagedb.Ingest.Dedupe.shrink
    usagedb.Ingest.Handler.add_conflict usagedb.Ingest.Handler.add_duplicate
    usagedb.Ingest.Handler.add_new usagedb.Ingest.Handler.admit usagedb.Ingest.Handler.blake3_u128
    usagedb.Ingest.Handler.commit_all usagedb.Ingest.Handler.drain usagedb.Ingest.Handler.finish
    usagedb.Ingest.Handler.is_closed_for usagedb.Ingest.Handler.is_usage
    usagedb.Ingest.Handler.make_durable usagedb.Ingest.Handler.payload_hash_of
    usagedb.Ingest.Handler.period_for_ts usagedb.Ingest.Memtable.correction_len
    usagedb.Ingest.Memtable.dimensions_len usagedb.Ingest.Memtable.drain_all
    usagedb.Ingest.Memtable.estimate_event_size usagedb.Ingest.Memtable.insert
    usagedb.Ingest.Memtable.oldest_after usagedb.Ingest.Memtable.optional_len
    usagedb.Ingest.Memtable.str_len usagedb.Ingest.Wal.create usagedb.Ingest.Wal.file_at
    usagedb.Ingest.Wal.file_or_empty usagedb.Ingest.Wal.open_next usagedb.Ingest.Wal.rotate
    usagedb.Ingest.Wal.sync_data usagedb.Ingest.Wal.write_line usagedb.Prelude.Int.of_bits
    usagedb.Prelude.Int.sub64 usagedb.Prelude.Int.to_bits usagedb.Prelude.Int.◌-ℤ◌
    usagedb.Prelude.Map.remove usagedb.Prelude.Text.utf8 usagedb.Prelude.Text.utf8_char
    usagedb.Validate.is_adjustment usagedb.Validate.is_empty_str usagedb.Validate.is_none
    usagedb.Ingest.Dedupe.against
run_again = refl

roomy : HasRoom answers.clock 3 empty_cache
unfolding usagedb.Ingest.Dedupe.len stale_count usagedb.Prelude.Int.sub64
    usagedb.Prelude.Int.to_bits usagedb.Prelude.Int.of_bits usagedb.Prelude.Int.◌-ℤ◌
roomy = record {
  valid = record { parallel = tt };
  room = omega arith;
  fresh = λ i. refl;
  quick = λ i j. refl;
}

retry_accepts_nothing_example :
    (retry_outcome.accepted ≡ 0)
    × (retry_outcome.duplicates ≡ 2 + 1)
    × (retry_outcome.conflicts ≡ 0)
    × (retry_outcome.rejected ≡ 0)
    × (after_retry.dedupe ≡ after.dedupe)
retry_accepts_nothing_example =
    retry_accepts_nothing sample_env config answers answers [] batch empty_state after after_retry
      outcome retry_outcome roomy run run_again

abbrev pub admitted : List Classified
admitted = (admit_all sample_env [] (pos 50) batch).1

-- A small memtable, and a log that cannot be rotated.
abbrev small_config : Config
small_config = record { max_memtable_size_bytes = 10; durability_mode = strict }

abbrev no_rotation : Answers
no_rotation = record answers { rotate_opened = false }

abbrev after_failure : State
after_failure =
    (ingest_critical_section sample_env small_config no_rotation admitted 0 empty_state).1

run_failing :
    ingest_critical_section sample_env small_config no_rotation admitted 0 empty_state
    ≡ (err wal_rotate_failed, after_failure)
unfolding usagedb.Ingest.Handler.handle_ingest usagedb.Ingest.Handler.ingest_critical_section
    usagedb.Ingest.Handler.log_batch usagedb.Ingest.Handler.sort_batch
    usagedb.Ingest.Handler.admit_all usagedb.Validate.validate_event
    usagedb.Ingest.Handler.in_closed_period usagedb.Prelude.any usagedb.Prelude.Map.get
    usagedb.Ingest.Dedupe.classify usagedb.Ingest.Wal.append_batch usagedb.Prelude.Map.insert
    usagedb.Prelude.ℕ_discrete usagedb.Ingest.Handler.compute_event_hashes
    usagedb.Model.from_le_bytes usagedb.Model.as_bytes usagedb.Ingest.Wal.sync
    usagedb.Ingest.Wal.flush_buffer usagedb.Ingest.Dedupe.add_entry usagedb.Ingest.Dedupe.bounded
    usagedb.Ingest.Dedupe.commit usagedb.Ingest.Dedupe.contains_key
    usagedb.Ingest.Dedupe.evict_expired usagedb.Ingest.Dedupe.expire usagedb.Ingest.Dedupe.shrink
    usagedb.Ingest.Handler.add_conflict usagedb.Ingest.Handler.add_duplicate
    usagedb.Ingest.Handler.add_new usagedb.Ingest.Handler.admit usagedb.Ingest.Handler.blake3_u128
    usagedb.Ingest.Handler.commit_all usagedb.Ingest.Handler.drain usagedb.Ingest.Handler.finish
    usagedb.Ingest.Handler.is_closed_for usagedb.Ingest.Handler.is_usage
    usagedb.Ingest.Handler.make_durable usagedb.Ingest.Handler.payload_hash_of
    usagedb.Ingest.Handler.period_for_ts usagedb.Ingest.Memtable.correction_len
    usagedb.Ingest.Memtable.dimensions_len usagedb.Ingest.Memtable.drain_all
    usagedb.Ingest.Memtable.estimate_event_size usagedb.Ingest.Memtable.insert
    usagedb.Ingest.Memtable.oldest_after usagedb.Ingest.Memtable.optional_len
    usagedb.Ingest.Memtable.str_len usagedb.Ingest.Wal.create usagedb.Ingest.Wal.file_at
    usagedb.Ingest.Wal.file_or_empty usagedb.Ingest.Wal.open_next usagedb.Ingest.Wal.rotate
    usagedb.Ingest.Wal.sync_data usagedb.Ingest.Wal.write_line usagedb.Prelude.Int.of_bits
    usagedb.Prelude.Int.sub64 usagedb.Prelude.Int.to_bits usagedb.Prelude.Int.◌-ℤ◌
    usagedb.Prelude.Map.remove usagedb.Prelude.Text.utf8 usagedb.Prelude.Text.utf8_char
    usagedb.Validate.is_adjustment usagedb.Validate.is_empty_str usagedb.Validate.is_none
    usagedb.Ingest.Dedupe.against
run_failing = refl

critical_section_error_example :
    ((wal_rotate_failed ≢ wal_rotate_failed)
      × (after_failure.dedupe ≡ empty_state.dedupe)
      × (after_failure.memtable ≡ empty_state.memtable))
    ⊎ ((wal_rotate_failed ≡ wal_rotate_failed)
        × (after_failure.dedupe
            ≡ (commit_all sample_env no_rotation.clock 0
                (sort_batch empty_state.dedupe [] admitted).new_events
                (empty_state.dedupe, empty_state.memtable)).0)
        × (after_failure.memtable.events ≡ []))
critical_section_error_example =
    critical_section_error sample_env small_config no_rotation admitted 0 empty_state after_failure
      wal_rotate_failed run_failing

abbrev pub after_section : State
after_section = (ingest_critical_section sample_env config answers admitted 0 empty_state).1

pub run_section :
    ingest_critical_section sample_env config answers admitted 0 empty_state
    ≡ (ok outcome, after_section)
unfolding usagedb.Ingest.Handler.handle_ingest usagedb.Ingest.Handler.ingest_critical_section
    usagedb.Ingest.Handler.log_batch usagedb.Ingest.Handler.sort_batch
    usagedb.Ingest.Handler.admit_all usagedb.Validate.validate_event
    usagedb.Ingest.Handler.in_closed_period usagedb.Prelude.any usagedb.Prelude.Map.get
    usagedb.Ingest.Dedupe.classify usagedb.Ingest.Wal.append_batch usagedb.Prelude.Map.insert
    usagedb.Prelude.ℕ_discrete usagedb.Ingest.Handler.compute_event_hashes
    usagedb.Model.from_le_bytes usagedb.Model.as_bytes usagedb.Ingest.Wal.sync
    usagedb.Ingest.Wal.flush_buffer usagedb.Ingest.Dedupe.add_entry usagedb.Ingest.Dedupe.bounded
    usagedb.Ingest.Dedupe.commit usagedb.Ingest.Dedupe.contains_key
    usagedb.Ingest.Dedupe.evict_expired usagedb.Ingest.Dedupe.expire usagedb.Ingest.Dedupe.shrink
    usagedb.Ingest.Handler.add_conflict usagedb.Ingest.Handler.add_duplicate
    usagedb.Ingest.Handler.add_new usagedb.Ingest.Handler.admit usagedb.Ingest.Handler.blake3_u128
    usagedb.Ingest.Handler.commit_all usagedb.Ingest.Handler.drain usagedb.Ingest.Handler.finish
    usagedb.Ingest.Handler.is_closed_for usagedb.Ingest.Handler.is_usage
    usagedb.Ingest.Handler.make_durable usagedb.Ingest.Handler.payload_hash_of
    usagedb.Ingest.Handler.period_for_ts usagedb.Ingest.Memtable.correction_len
    usagedb.Ingest.Memtable.dimensions_len usagedb.Ingest.Memtable.drain_all
    usagedb.Ingest.Memtable.estimate_event_size usagedb.Ingest.Memtable.insert
    usagedb.Ingest.Memtable.oldest_after usagedb.Ingest.Memtable.optional_len
    usagedb.Ingest.Memtable.str_len usagedb.Ingest.Wal.create usagedb.Ingest.Wal.file_at
    usagedb.Ingest.Wal.file_or_empty usagedb.Ingest.Wal.open_next usagedb.Ingest.Wal.rotate
    usagedb.Ingest.Wal.sync_data usagedb.Ingest.Wal.write_line usagedb.Prelude.Int.of_bits
    usagedb.Prelude.Int.sub64 usagedb.Prelude.Int.to_bits usagedb.Prelude.Int.◌-ℤ◌
    usagedb.Prelude.Map.remove usagedb.Prelude.Text.utf8 usagedb.Prelude.Text.utf8_char
    usagedb.Validate.is_adjustment usagedb.Validate.is_empty_str usagedb.Validate.is_none
    usagedb.Ingest.Dedupe.against
run_section = refl

strict_durable_example : file_at 1 after_section.wal.dir ≡ record {
  durable =
      logged_lines sample_env
        (sort_batch empty_state.dedupe [] admitted).new_events
        empty_state.wal;
  cached = [];
}
strict_durable_example =
    strict_durable sample_env config answers admitted 0 empty_state after_section outcome refl
      run_section (omega arith)

critical_section_events_example : Buffered outcome after_section (
    empty_state.memtable.events
    ++ map (λ c. c.event) (sort_batch empty_state.dedupe [] admitted).new_events)
critical_section_events_example =
    critical_section_events sample_env config answers admitted 0 empty_state after_section outcome
      run_section
