-- ===== src/Tests/Torn.antt =====
-- A batch behind a torn line.
use usagedb.Prelude.{
  ℕ, ◌≡◌, refl, none, some, Option, List, [], ◌∷◌, ◌++◌, String, arith, All, ite, ℕ_discrete, sym,
  append-nil,
}
use usagedb.Prelude.Text.{String_discrete}
use usagedb.Model.{UsageEvent}
use usagedb.Ingest.Wal.{
  Dir, Fragment, whole, file_at, concat, file_lines, replay_lines, replay_file,
}
use usagedb.Ingest.Wal.Files.{HasJson, Crashed}
use usagedb.Ingest.Handler.{
  State, IngestOutcome, Classified, ok, sort_batch, ingest_critical_section,
}
use usagedb.Recovery.Acked.{events_of}
use usagedb.Recovery.Torn.{torn, acked-torn}
use usagedb.Tests.Data.{first, second, sample_env, answers, config, empty_state}
use usagedb.Tests.Ingest.{admitted, outcome}
use usagedb.Tests.Restart.{stamped, synced-Crashed, one_file}

-- The text of the first event is "a", which the torn "x" spoils.
abbrev parse : String → Option UsageEvent
parse line =
    ite (String_discrete line "a") (some (stamped first))
      (ite (String_discrete line "b") (some (stamped second)) none)

abbrev blank : String → usagedb.Prelude.Bool
blank line = usagedb.Prelude.false

abbrev torn_state : State
torn_state = record empty_state {
  wal = record {
    dir = (1, record { durable = whole "b" ∷ torn "x" ∷ []; cached = [] }) ∷ [];
    active_id = 1;
    writer_id = 1;
    buffer = [];
  };
}

abbrev after_torn : State
after_torn = (ingest_critical_section sample_env config answers admitted 0 torn_state).1

abbrev new_events : List Classified
new_events = (sort_batch torn_state.dedupe [] admitted).new_events

abbrev first_of : List Classified → Classified
first_of [] = record { event = first; event_id_hash = 0; payload_hash = 0 }
first_of (c ∷ cs) = c

abbrev others_of : List Classified → List Classified
others_of [] = []
others_of (c ∷ cs) = cs

run_torn :
    ingest_critical_section sample_env config answers admitted 0 torn_state
    ≡ (ok outcome, after_torn)
unfolding usagedb.Ingest.Handler.handle_ingest usagedb.Ingest.Handler.ingest_critical_section
    usagedb.Ingest.Handler.log_batch usagedb.Ingest.Handler.sort_batch
    usagedb.Ingest.Handler.admit_all usagedb.Validate.validate_event
    usagedb.Ingest.Handler.in_closed_period usagedb.Prelude.any usagedb.Prelude.Map.get
    usagedb.Ingest.Dedupe.classify usagedb.Ingest.Wal.append_batch usagedb.Prelude.Map.insert
    ℕ_discrete usagedb.Ingest.Handler.compute_event_hashes usagedb.Model.from_le_bytes
    usagedb.Model.as_bytes usagedb.Ingest.Wal.sync usagedb.Ingest.Wal.flush_buffer
    usagedb.Ingest.Dedupe.add_entry usagedb.Ingest.Dedupe.bounded usagedb.Ingest.Dedupe.commit
    usagedb.Ingest.Dedupe.contains_key usagedb.Ingest.Dedupe.evict_expired
    usagedb.Ingest.Dedupe.expire usagedb.Ingest.Dedupe.shrink usagedb.Ingest.Handler.add_conflict
    usagedb.Ingest.Handler.add_duplicate usagedb.Ingest.Handler.add_new usagedb.Ingest.Handler.admit
    usagedb.Ingest.Handler.blake3_u128 usagedb.Ingest.Handler.commit_all
    usagedb.Ingest.Handler.drain usagedb.Ingest.Handler.finish usagedb.Ingest.Handler.is_closed_for
    usagedb.Ingest.Handler.is_usage usagedb.Ingest.Handler.make_durable
    usagedb.Ingest.Handler.payload_hash_of usagedb.Ingest.Handler.period_for_ts
    usagedb.Ingest.Memtable.correction_len usagedb.Ingest.Memtable.dimensions_len
    usagedb.Ingest.Memtable.drain_all usagedb.Ingest.Memtable.estimate_event_size
    usagedb.Ingest.Memtable.insert usagedb.Ingest.Memtable.oldest_after
    usagedb.Ingest.Memtable.optional_len usagedb.Ingest.Memtable.str_len usagedb.Ingest.Wal.create
    usagedb.Ingest.Wal.file_at usagedb.Ingest.Wal.file_or_empty usagedb.Ingest.Wal.open_next
    usagedb.Ingest.Wal.rotate usagedb.Ingest.Wal.sync_data usagedb.Ingest.Wal.write_line
    usagedb.Prelude.Int.of_bits usagedb.Prelude.Int.sub64 usagedb.Prelude.Int.to_bits
    usagedb.Prelude.Int.◌-ℤ◌ usagedb.Prelude.Map.remove usagedb.Prelude.Text.utf8
    usagedb.Prelude.Text.utf8_char usagedb.Validate.is_adjustment usagedb.Validate.is_empty_str
    usagedb.Validate.is_none usagedb.Ingest.Dedupe.against
run_torn = refl

crash_torn : Crashed after_torn.wal.dir after_torn.wal.dir
unfolding usagedb.Ingest.Handler.handle_ingest usagedb.Ingest.Handler.ingest_critical_section
    usagedb.Ingest.Handler.log_batch usagedb.Ingest.Handler.sort_batch
    usagedb.Ingest.Handler.admit_all usagedb.Validate.validate_event
    usagedb.Ingest.Handler.in_closed_period usagedb.Prelude.any usagedb.Prelude.Map.get
    usagedb.Ingest.Dedupe.classify usagedb.Ingest.Wal.append_batch usagedb.Prelude.Map.insert
    ℕ_discrete usagedb.Ingest.Handler.compute_event_hashes usagedb.Model.from_le_bytes
    usagedb.Model.as_bytes usagedb.Ingest.Wal.sync usagedb.Ingest.Wal.flush_buffer
    usagedb.Ingest.Dedupe.add_entry usagedb.Ingest.Dedupe.bounded usagedb.Ingest.Dedupe.commit
    usagedb.Ingest.Dedupe.contains_key usagedb.Ingest.Dedupe.evict_expired
    usagedb.Ingest.Dedupe.expire usagedb.Ingest.Dedupe.shrink usagedb.Ingest.Handler.add_conflict
    usagedb.Ingest.Handler.add_duplicate usagedb.Ingest.Handler.add_new usagedb.Ingest.Handler.admit
    usagedb.Ingest.Handler.blake3_u128 usagedb.Ingest.Handler.commit_all
    usagedb.Ingest.Handler.drain usagedb.Ingest.Handler.finish usagedb.Ingest.Handler.is_closed_for
    usagedb.Ingest.Handler.is_usage usagedb.Ingest.Handler.make_durable
    usagedb.Ingest.Handler.payload_hash_of usagedb.Ingest.Handler.period_for_ts
    usagedb.Ingest.Memtable.correction_len usagedb.Ingest.Memtable.dimensions_len
    usagedb.Ingest.Memtable.drain_all usagedb.Ingest.Memtable.estimate_event_size
    usagedb.Ingest.Memtable.insert usagedb.Ingest.Memtable.oldest_after
    usagedb.Ingest.Memtable.optional_len usagedb.Ingest.Memtable.str_len usagedb.Ingest.Wal.create
    usagedb.Ingest.Wal.file_at usagedb.Ingest.Wal.file_or_empty usagedb.Ingest.Wal.open_next
    usagedb.Ingest.Wal.rotate usagedb.Ingest.Wal.sync_data usagedb.Ingest.Wal.write_line
    usagedb.Prelude.Int.of_bits usagedb.Prelude.Int.sub64 usagedb.Prelude.Int.to_bits
    usagedb.Prelude.Int.◌-ℤ◌ usagedb.Prelude.Map.remove usagedb.Prelude.Text.utf8
    usagedb.Prelude.Text.utf8_char usagedb.Validate.is_adjustment usagedb.Validate.is_empty_str
    usagedb.Validate.is_none usagedb.Ingest.Dedupe.against
crash_torn = synced-Crashed after_torn.wal.dir (λ id. one_file id 1 _)

two_new : new_events ≡ first_of new_events ∷ others_of new_events
unfolding usagedb.Ingest.Handler.handle_ingest usagedb.Ingest.Handler.ingest_critical_section
    usagedb.Ingest.Handler.log_batch usagedb.Ingest.Handler.sort_batch
    usagedb.Ingest.Handler.admit_all usagedb.Validate.validate_event
    usagedb.Ingest.Handler.in_closed_period usagedb.Prelude.any usagedb.Prelude.Map.get
    usagedb.Ingest.Dedupe.classify usagedb.Ingest.Wal.append_batch usagedb.Prelude.Map.insert
    ℕ_discrete usagedb.Ingest.Handler.compute_event_hashes usagedb.Model.from_le_bytes
    usagedb.Model.as_bytes usagedb.Ingest.Wal.sync usagedb.Ingest.Wal.flush_buffer
    usagedb.Ingest.Dedupe.add_entry usagedb.Ingest.Dedupe.bounded usagedb.Ingest.Dedupe.commit
    usagedb.Ingest.Dedupe.contains_key usagedb.Ingest.Dedupe.evict_expired
    usagedb.Ingest.Dedupe.expire usagedb.Ingest.Dedupe.shrink usagedb.Ingest.Handler.add_conflict
    usagedb.Ingest.Handler.add_duplicate usagedb.Ingest.Handler.add_new usagedb.Ingest.Handler.admit
    usagedb.Ingest.Handler.blake3_u128 usagedb.Ingest.Handler.commit_all
    usagedb.Ingest.Handler.drain usagedb.Ingest.Handler.finish usagedb.Ingest.Handler.is_closed_for
    usagedb.Ingest.Handler.is_usage usagedb.Ingest.Handler.make_durable
    usagedb.Ingest.Handler.payload_hash_of usagedb.Ingest.Handler.period_for_ts
    usagedb.Ingest.Memtable.correction_len usagedb.Ingest.Memtable.dimensions_len
    usagedb.Ingest.Memtable.drain_all usagedb.Ingest.Memtable.estimate_event_size
    usagedb.Ingest.Memtable.insert usagedb.Ingest.Memtable.oldest_after
    usagedb.Ingest.Memtable.optional_len usagedb.Ingest.Memtable.str_len usagedb.Ingest.Wal.create
    usagedb.Ingest.Wal.file_at usagedb.Ingest.Wal.file_or_empty usagedb.Ingest.Wal.open_next
    usagedb.Ingest.Wal.rotate usagedb.Ingest.Wal.sync_data usagedb.Ingest.Wal.write_line
    usagedb.Prelude.Int.of_bits usagedb.Prelude.Int.sub64 usagedb.Prelude.Int.to_bits
    usagedb.Prelude.Int.◌-ℤ◌ usagedb.Prelude.Map.remove usagedb.Prelude.Text.utf8
    usagedb.Prelude.Text.utf8_char usagedb.Validate.is_adjustment usagedb.Validate.is_empty_str
    usagedb.Validate.is_none usagedb.Ingest.Dedupe.against
two_new = refl

file_before :
    (let f = file_at torn_state.wal.writer_id torn_state.wal.dir in
      f.durable ++ (f.cached ++ torn_state.wal.buffer))
    ≡ (whole "b" ∷ []) ++ torn "x" ∷ []
unfolding file_at usagedb.Prelude.Map.get ℕ_discrete
file_before = refl

text_of_first : sample_env.to_json (first_of new_events).event ≡ some "a"
unfolding usagedb.Ingest.Handler.handle_ingest usagedb.Ingest.Handler.ingest_critical_section
    usagedb.Ingest.Handler.log_batch usagedb.Ingest.Handler.sort_batch
    usagedb.Ingest.Handler.admit_all usagedb.Validate.validate_event
    usagedb.Ingest.Handler.in_closed_period usagedb.Prelude.any usagedb.Prelude.Map.get
    usagedb.Ingest.Dedupe.classify usagedb.Ingest.Wal.append_batch usagedb.Prelude.Map.insert
    ℕ_discrete usagedb.Ingest.Handler.compute_event_hashes usagedb.Model.from_le_bytes
    usagedb.Model.as_bytes usagedb.Ingest.Wal.sync usagedb.Ingest.Wal.flush_buffer
    usagedb.Ingest.Dedupe.add_entry usagedb.Ingest.Dedupe.bounded usagedb.Ingest.Dedupe.commit
    usagedb.Ingest.Dedupe.contains_key usagedb.Ingest.Dedupe.evict_expired
    usagedb.Ingest.Dedupe.expire usagedb.Ingest.Dedupe.shrink usagedb.Ingest.Handler.add_conflict
    usagedb.Ingest.Handler.add_duplicate usagedb.Ingest.Handler.add_new usagedb.Ingest.Handler.admit
    usagedb.Ingest.Handler.blake3_u128 usagedb.Ingest.Handler.commit_all
    usagedb.Ingest.Handler.drain usagedb.Ingest.Handler.finish usagedb.Ingest.Handler.is_closed_for
    usagedb.Ingest.Handler.is_usage usagedb.Ingest.Handler.make_durable
    usagedb.Ingest.Handler.payload_hash_of usagedb.Ingest.Handler.period_for_ts
    usagedb.Ingest.Memtable.correction_len usagedb.Ingest.Memtable.dimensions_len
    usagedb.Ingest.Memtable.drain_all usagedb.Ingest.Memtable.estimate_event_size
    usagedb.Ingest.Memtable.insert usagedb.Ingest.Memtable.oldest_after
    usagedb.Ingest.Memtable.optional_len usagedb.Ingest.Memtable.str_len usagedb.Ingest.Wal.create
    usagedb.Ingest.Wal.file_at usagedb.Ingest.Wal.file_or_empty usagedb.Ingest.Wal.open_next
    usagedb.Ingest.Wal.rotate usagedb.Ingest.Wal.sync_data usagedb.Ingest.Wal.write_line
    usagedb.Prelude.Int.of_bits usagedb.Prelude.Int.sub64 usagedb.Prelude.Int.to_bits
    usagedb.Prelude.Int.◌-ℤ◌ usagedb.Prelude.Map.remove usagedb.Prelude.Text.utf8
    usagedb.Prelude.Text.utf8_char usagedb.Validate.is_adjustment usagedb.Validate.is_empty_str
    usagedb.Validate.is_none usagedb.Ingest.Dedupe.against
text_of_first = refl

spoilt : parse (concat "x" "a") ≡ none
unfolding concat String_discrete usagedb.Prelude.Text.decide_by
spoilt = refl

other_parses : All (HasJson sample_env.to_json parse blank) (events_of (others_of new_events))
unfolding usagedb.Ingest.Handler.handle_ingest usagedb.Ingest.Handler.ingest_critical_section
    usagedb.Ingest.Handler.log_batch usagedb.Ingest.Handler.sort_batch
    usagedb.Ingest.Handler.admit_all usagedb.Validate.validate_event
    usagedb.Ingest.Handler.in_closed_period usagedb.Prelude.any usagedb.Prelude.Map.get
    usagedb.Ingest.Dedupe.classify usagedb.Ingest.Wal.append_batch usagedb.Prelude.Map.insert
    ℕ_discrete usagedb.Ingest.Handler.compute_event_hashes usagedb.Model.from_le_bytes
    usagedb.Model.as_bytes usagedb.Ingest.Wal.sync usagedb.Ingest.Wal.flush_buffer
    usagedb.Ingest.Dedupe.add_entry usagedb.Ingest.Dedupe.bounded usagedb.Ingest.Dedupe.commit
    usagedb.Ingest.Dedupe.contains_key usagedb.Ingest.Dedupe.evict_expired
    usagedb.Ingest.Dedupe.expire usagedb.Ingest.Dedupe.shrink usagedb.Ingest.Handler.add_conflict
    usagedb.Ingest.Handler.add_duplicate usagedb.Ingest.Handler.add_new usagedb.Ingest.Handler.admit
    usagedb.Ingest.Handler.blake3_u128 usagedb.Ingest.Handler.commit_all
    usagedb.Ingest.Handler.drain usagedb.Ingest.Handler.finish usagedb.Ingest.Handler.is_closed_for
    usagedb.Ingest.Handler.is_usage usagedb.Ingest.Handler.make_durable
    usagedb.Ingest.Handler.payload_hash_of usagedb.Ingest.Handler.period_for_ts
    usagedb.Ingest.Memtable.correction_len usagedb.Ingest.Memtable.dimensions_len
    usagedb.Ingest.Memtable.drain_all usagedb.Ingest.Memtable.estimate_event_size
    usagedb.Ingest.Memtable.insert usagedb.Ingest.Memtable.oldest_after
    usagedb.Ingest.Memtable.optional_len usagedb.Ingest.Memtable.str_len usagedb.Ingest.Wal.create
    usagedb.Ingest.Wal.file_at usagedb.Ingest.Wal.file_or_empty usagedb.Ingest.Wal.open_next
    usagedb.Ingest.Wal.rotate usagedb.Ingest.Wal.sync_data usagedb.Ingest.Wal.write_line
    usagedb.Prelude.Int.of_bits usagedb.Prelude.Int.sub64 usagedb.Prelude.Int.to_bits
    usagedb.Prelude.Int.◌-ℤ◌ usagedb.Prelude.Map.remove usagedb.Prelude.Text.utf8
    usagedb.Prelude.Text.utf8_char usagedb.Validate.is_adjustment usagedb.Validate.is_empty_str
    usagedb.Validate.is_none usagedb.Ingest.Dedupe.against String_discrete
    usagedb.Prelude.Text.decide_by
other_parses = (("b", refl, refl, refl), tt)

acked-torn_example :
    replay_file parse blank after_torn.wal.dir 1
    ≡ replay_lines parse blank (file_lines (whole "b" ∷ [])) ++ events_of (others_of new_events)
acked-torn_example =
    acked-torn sample_env config answers admitted (others_of new_events) (first_of new_events) 0
      torn_state after_torn outcome parse blank (whole "b" ∷ []) "x" "a" after_torn.wal.dir refl
      run_torn (omega arith) two_new file_before refl text_of_first spoilt other_parses crash_torn
