-- ===== src/Tests/Restart.antt =====
-- A restart after a batch that was acknowledged, and after a crash with a segment and its sidecar.
use usagedb.Prelude.{
  ℕ, ◌≡◌, refl, true, none, some, Option, List, [], ◌∷◌, ℕ_discrete, ◌++◌, append-nil, sym, ap,
  String, arith, ite, map,
}
use usagedb.Prelude.Int.{ℤ, pos}
use usagedb.Prelude.Text.{String_discrete}
use usagedb.Model.{UsageEvent}
use usagedb.Storage.Manifest.{default_manifest}
use usagedb.Ingest.Segments.{build_segment_meta}
use usagedb.Ingest.Wal.{Dir, Fragment, file_at}
use usagedb.Ingest.Wal.Files.{Crashed}
use usagedb.Ingest.Handler.{sort_batch}
use usagedb.Ingest.Dedupe
use usagedb.Compact.{idx_entries}
use usagedb.Recovery.{DbRoot, RecoveryAnswers, RecoveryResult, run_startup_recovery, rebuild_dedupe}
use usagedb.Recovery.Restart.{Recovered, run_startup_recovery-Recovered}
use usagedb.Recovery.Sidecars.{AllMatch, without_sidecars, rebuild_dedupe-sidecars}
use usagedb.Tests.Data.{
  first, second, sample_env, empty_state, empty_cache, empty_dir, save_answers,
}
use usagedb.Tests.Ingest.{after_section}

abbrev pub stamped : UsageEvent → UsageEvent
stamped e = record e { ingested_at_ms = pos 50 }

abbrev friendly : RecoveryAnswers
friendly = record {
  from_json = λ (line : String).
      ite (String_discrete line "a") (some (stamped first)) (some (stamped second));
  blank = λ (line : String). usagedb.Prelude.false;
  saves = save_answers;
  tmp_read = true;
  tmp_removed = λ (f : String). true;
  wal_deleted = true;
  wal_listed = true;
  wal_read = λ (id : ℕ). true;
  sidecar_ok = λ (id : String). true;
  opened = λ (id : String). true;
  breaks_after = λ (id : String). none;
  clock = λ (i : ℕ). pos 70;
  now = pos 5000;
}

abbrev root : DbRoot
root = record {
  manifest_dir = empty_dir;
  tmp = some ("x" ∷ []);
  wal_dir = some after_section.wal.dir;
  files = ("s1", first ∷ []) ∷ [];
  sidecars = ("s1", idx_entries sample_env (first ∷ [])) ∷ [];
}

abbrev or_nothing : Option RecoveryResult → RecoveryResult
or_nothing none = record {
  manifest = default_manifest;
  dedupe = empty_cache;
  memtable = empty_state.memtable;
}
or_nothing (some r) = r

abbrev restarted : RecoveryResult
restarted = or_nothing (run_startup_recovery sample_env friendly 10 root)

ran : run_startup_recovery sample_env friendly 10 root ≡ some restarted
unfolding usagedb.Recovery.run_startup_recovery usagedb.Recovery.recover_from
    usagedb.Recovery.recover_clean usagedb.Recovery.recover_wal usagedb.Recovery.clean_tmp
    usagedb.Recovery.remove_tmp usagedb.Recovery.clean_wal usagedb.Recovery.replay_wal
    usagedb.Recovery.replay_files usagedb.Recovery.recover_events usagedb.Recovery.recover_event
    usagedb.Recovery.register usagedb.Recovery.finish_recovery usagedb.Recovery.rebuild_dedupe
    usagedb.Recovery.register_segment usagedb.Recovery.read_sidecar usagedb.Recovery.insert_entries
    usagedb.Recovery.scan_segment usagedb.Recovery.register_all usagedb.Recovery.rows_before
    usagedb.Recovery.cutoff_of usagedb.Storage.Generations.load usagedb.Storage.Generations.walk
    usagedb.Ingest.Wal.list_files_after usagedb.Ingest.Wal.insert_sorted
    usagedb.Ingest.Wal.replay_file usagedb.Ingest.Wal.replay_lines usagedb.Ingest.Wal.file_lines
    usagedb.Ingest.Dedupe.insert_known usagedb.Ingest.Dedupe.new usagedb.Ingest.Memtable.new
    usagedb.Prelude.Int.saturating_sub64 usagedb.Prelude.Text.String_discrete
    usagedb.Prelude.Text.decide_by usagedb.Ingest.Handler.handle_ingest
    usagedb.Ingest.Handler.ingest_critical_section usagedb.Ingest.Handler.log_batch
    usagedb.Ingest.Handler.sort_batch usagedb.Ingest.Handler.admit_all
    usagedb.Validate.validate_event usagedb.Ingest.Handler.in_closed_period usagedb.Prelude.any
    usagedb.Prelude.Map.get usagedb.Ingest.Dedupe.classify usagedb.Ingest.Wal.append_batch
    usagedb.Prelude.Map.insert usagedb.Prelude.ℕ_discrete
    usagedb.Ingest.Handler.compute_event_hashes usagedb.Model.from_le_bytes usagedb.Model.as_bytes
    usagedb.Ingest.Wal.sync usagedb.Ingest.Wal.flush_buffer usagedb.Ingest.Dedupe.add_entry
    usagedb.Ingest.Dedupe.bounded usagedb.Ingest.Dedupe.commit usagedb.Ingest.Dedupe.contains_key
    usagedb.Ingest.Dedupe.evict_expired usagedb.Ingest.Dedupe.expire usagedb.Ingest.Dedupe.shrink
    usagedb.Ingest.Handler.add_conflict usagedb.Ingest.Handler.add_duplicate
    usagedb.Ingest.Handler.add_new usagedb.Ingest.Handler.admit usagedb.Ingest.Handler.blake3_u128
    usagedb.Ingest.Handler.commit_all usagedb.Ingest.Handler.drain usagedb.Ingest.Handler.finish
    usagedb.Ingest.Handler.is_closed_for usagedb.Ingest.Handler.is_usage
    usagedb.Ingest.Handler.make_durable usagedb.Ingest.Handler.payload_hash_of
    usagedb.Ingest.Handler.period_for_ts usagedb.Ingest.Memtable.correction_len
    usagedb.Ingest.Memtable.dimensions_len usagedb.Ingest.Memtable.drain_all
    usagedb.Ingest.Memtable.estimate_event_size usagedb.Ingest.Memtable.insert
    usagedb.Ingest.Memtable.oldest_after usagedb.Ingest.Memtable.optional_len
    usagedb.Ingest.Memtable.str_len usagedb.Ingest.Wal.create usagedb.Ingest.Wal.file_at
    usagedb.Ingest.Wal.file_or_empty usagedb.Ingest.Wal.open_next usagedb.Ingest.Wal.rotate
    usagedb.Ingest.Wal.sync_data usagedb.Ingest.Wal.write_line usagedb.Prelude.Int.of_bits
    usagedb.Prelude.Int.sub64 usagedb.Prelude.Int.to_bits usagedb.Prelude.Int.◌-ℤ◌
    usagedb.Prelude.Map.remove usagedb.Prelude.Text.utf8 usagedb.Prelude.Text.utf8_char
    usagedb.Validate.is_adjustment usagedb.Validate.is_empty_str usagedb.Validate.is_none
    usagedb.Ingest.Dedupe.against
ran = refl

run_startup_recovery-Recovered_example :
    Recovered sample_env friendly after_section.wal.dir restarted
run_startup_recovery-Recovered_example =
    run_startup_recovery-Recovered sample_env friendly 10 root after_section.wal.dir restarted refl
      ran

-- A crash that loses nothing.
pub synced-Crashed : (dir : Dir) → ((id : ℕ) → (file_at id dir).cached ≡ []) → Crashed dir dir
synced-Crashed dir h = λ id. (
  [],
  (tt, λ i. record { durable = sym (append-nil (file_at id dir).durable) i; cached = h id i }),
)

pub one_file :
    (id j : ℕ) (lines : List Fragment)
    → (file_at id ((j, record { durable = lines; cached = [] }) ∷ [])).cached ≡ []
unfolding file_at usagedb.Ingest.Wal.file_or_empty usagedb.Prelude.Map.get
one_file id j lines = ground arith

matching : AllMatch sample_env root.files root.sidecars
unfolding usagedb.Prelude.Map.get usagedb.Prelude.Text.String_discrete
    usagedb.Prelude.Text.decide_by
matching = (refl, tt)

rebuild_dedupe-sidecars_example :
    rebuild_dedupe sample_env friendly root
      (pos 0)
      (build_segment_meta "s1" (first ∷ []) 0 0 ∷ [])
      empty_cache
    ≡ rebuild_dedupe sample_env friendly
        (without_sidecars root)
        (pos 0)
        (build_segment_meta "s1" (first ∷ []) 0 0 ∷ [])
        empty_cache
rebuild_dedupe-sidecars_example =
    rebuild_dedupe-sidecars sample_env friendly root (pos 0)
      (build_segment_meta "s1" (first ∷ []) 0 0 ∷ []) empty_cache matching (λ id. refl) (λ id. refl)
