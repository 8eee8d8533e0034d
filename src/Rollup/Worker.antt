-- ===== src/Rollup/Worker.antt =====
-- src/rollup/worker.rs: `tick`, `force_drain_memtable` and `rebuild_rollups`.
-- A tick is one step: nothing else runs between its locks. The clock is an argument.
pub mod Watermark
pub mod Progress
pub mod Rebuild
use usagedb.Prelude.{
  ℕ, zero, suc, ◌+◌, ◌-◌, Bool, true, false, Option, none, some, List, [], ◌∷◌, ◌++◌, String, map,
  ltb, length, retain, is_empty, ◌&&◌, not, if◌then◌else◌,
}
use usagedb.Prelude.Int.{ℤ, pos, pos_part, ltb_ℤ, leb_ℤ, min_ℤ, sub64, ◌-ℤ◌}
use usagedb.Prelude.Text.{String_discrete}
use usagedb.Prelude.Map.{remove}
use usagedb.Model.{UsageEvent, SmallDimensions, at_least_one}
use usagedb.Storage.Manifest.{Manifest, SegmentMeta}
use usagedb.Storage.Generations.{ManifestDir, SaveAnswers, save}
use usagedb.Ingest.Memtable.{Memtable, min_event_timestamp_ms, drain_all}
use usagedb.Ingest.Wal.{Wal, rotate}
use usagedb.Ingest.Flusher.{Files}
use usagedb.Ingest.Handler.{FlushMessage}
use usagedb.Rollup.{hour_of}
use usagedb.Rollup.Hours.{
  Run, RollupAnswer, RollupFiles, HoursResult, hours_rolled, hours_failed, out_of_fuel, roll_hours,
}

pub record WorkerConfig : Type 0 where
  pub blake3 : List ℕ → List ℕ
  pub to_json : SmallDimensions → String
  pub safety_lag_ms : ℤ
  pub memtable_max_age_ms : ℤ

pub record WorkerState : Type 0 where
  pub manifest : Manifest
  pub manifest_dir : ManifestDir
  pub wal : Wal
  pub memtable : Memtable
  pub files : Files
  pub rollup_files : RollupFiles
  pub flush_queue : List FlushMessage

-- `sent` says whether the flusher's queue is open, `removes` whether files can be removed.
pub record TickAnswers : Type 0 where
  pub readable : String → Bool
  pub write : ℕ → RollupAnswer
  pub saves : SaveAnswers
  pub removes : Bool
  pub rotate_flushed : Bool
  pub rotate_synced : Bool
  pub rotate_opened : Bool
  pub sent : Bool

pub record RollupTickStats : Type 0 where
  pub segments_written : ℕ
  pub watermark_ms : ℤ
  pub hours_processed : ℕ
  pub forced_flush : Bool
  pub skipped_for_in_flight : Bool

-- `no_end` stands for a loop that does not end.
pub data TickResult : Type 0 where
  tick_ok : RollupTickStats → TickResult
  tick_failed no_end : TickResult

-- What a tick decides to do from what it reads.
pub data Decision : Type 0 where
  wait_for_flush force_drain : Decision
  up_to_date : ℤ → Decision
  advance : ℤ → ℤ → Decision

unfoldable pub too_old : ℤ → ℤ → Option ℤ → Bool
too_old now max_age none = false
too_old now max_age (some at) = leb_ℤ max_age (sub64 now at)

unfoldable pub cap_target : ℤ → Option ℤ → ℤ
unfolding hour_of
cap_target time_target none = time_target
cap_target time_target (some ts) = min_ℤ time_target (hour_of ts)

unfoldable pub time_target : WorkerConfig → ℤ → ℤ
unfolding hour_of
time_target config now = hour_of (sub64 now config.safety_lag_ms)

unfoldable pub target_hour : WorkerConfig → ℤ → Memtable → ℤ
unfolding time_target cap_target
target_hour config now memtable =
    cap_target (time_target config now) (min_event_timestamp_ms memtable)

unfoldable pub earliest : SegmentMeta → List SegmentMeta → ℤ
earliest s [] = s.min_timestamp_ms
earliest s (t ∷ segments) = min_ℤ s.min_timestamp_ms (earliest t segments)

-- The clamp of the initial watermark.
unfoldable pub start_watermark : ℤ → List SegmentMeta → ℤ
unfolding earliest hour_of
start_watermark watermark [] = watermark
start_watermark watermark (s ∷ segments) =
    if leb_ℤ watermark (pos 0) && leb_ℤ (pos 0) watermark
    then hour_of (earliest s segments)
    else watermark

unfoldable pub advance_or_stay : ℤ → ℤ → Decision
advance_or_stay target watermark =
    if leb_ℤ target watermark then up_to_date watermark else advance watermark target

unfoldable pub decide : WorkerConfig → ℤ → Manifest → ℕ → Memtable → Decision
unfolding too_old target_hour start_watermark advance_or_stay
decide config now manifest active_wal_id memtable =
    if ltb (manifest.last_sealed_wal_id + 1) active_wal_id
    then wait_for_flush
    else if too_old now config.memtable_max_age_ms memtable.oldest_insert_at_ms
    then force_drain
    else advance_or_stay (target_hour config now memtable)
        (start_watermark manifest.hourly_rollup_ms manifest.raw_segments)

unfoldable pub send : Bool → FlushMessage → WorkerState → Bool × WorkerState
send false msg s = (false, s)
send true msg s = (true, record s { flush_queue = s.flush_queue ++ msg ∷ [] })

unfoldable pub queue_drained : Bool → List UsageEvent → Option ℕ → WorkerState → Bool × WorkerState
unfolding send
queue_drained sent events none s = (false, s)
queue_drained sent events (some id) s = send sent (record { events = events; sealed_wal_id = id }) s

-- The memtable is emptied before the log is rotated.
unfoldable pub force_drain_memtable : TickAnswers → WorkerState → Bool × WorkerState
unfolding queue_drained drain_all
force_drain_memtable a s =
    if is_empty s.memtable.events
    then (true, s)
    else (let (events, emptied) = drain_all s.memtable in
        let (sealed, wal') = rotate a.rotate_flushed a.rotate_synced a.rotate_opened s.wal in
        queue_drained a.sent events sealed (record s { wal = wal'; memtable = emptied }))

unfoldable pub remove_files : Bool → List String → RollupFiles → RollupFiles
remove_files removes [] files = files
remove_files removes (id ∷ ids) files =
    remove_files removes ids (if removes then remove String_discrete id files else files)

unfoldable pub commit_rollups : List SegmentMeta → ℤ → Manifest → Manifest
commit_rollups new_segments target m = record m {
  rollup_segments = m.rollup_segments ++ new_segments;
  hourly_rollup_ms = target;
}

unfoldable pub stats : ℕ → ℤ → ℕ → RollupTickStats
stats written watermark hours = record {
  segments_written = written;
  watermark_ms = watermark;
  hours_processed = hours;
  forced_flush = false;
  skipped_for_in_flight = false;
}

-- The commit. The guard of the source always holds here, since the target lies ahead.
unfoldable pub commit_tick :
    TickAnswers → ℤ → List SegmentMeta → ℕ → WorkerState → TickResult × WorkerState
unfolding commit_rollups remove_files stats
commit_tick a target new_segments hours s =
    let (ok, (manifest', dir')) =
      save a.saves (commit_rollups new_segments target s.manifest) s.manifest_dir in
    let s' : WorkerState = record s { manifest = manifest'; manifest_dir = dir' } in
    if ok then (tick_ok (stats (length new_segments) target hours), s') else (
      tick_failed,
      record s' {
        rollup_files =
            remove_files a.removes (map (λ (m : SegmentMeta). m.segment_id) new_segments)
              s'.rollup_files;
      },
    )

unfoldable pub snapshot_run : WorkerConfig → TickAnswers → WorkerState → Run
unfolding at_least_one
snapshot_run config a s = record {
  blake3 = config.blake3;
  to_json = config.to_json;
  readable = a.readable;
  files = s.files;
  bucket_count = at_least_one s.manifest.bucket_count;
  raw_segments = s.manifest.raw_segments;
  rollup_segments = s.manifest.rollup_segments;
}

-- Fuel for the hours between two times.
abbrev pub hours_fuel : ℤ → ℤ → ℕ
hours_fuel watermark target = pos_part (target -ℤ watermark)

unfoldable pub after_hours : TickAnswers → ℤ → WorkerState → HoursResult → TickResult × WorkerState
unfolding commit_tick
after_hours a target s (hours_failed files) = (tick_failed, record s { rollup_files = files })
after_hours a target s out_of_fuel = (no_end, s)
after_hours a target s (hours_rolled new_segments hours files) =
    commit_tick a target new_segments hours (record s { rollup_files = files })

unfoldable pub roll_to : WorkerConfig → TickAnswers → ℤ → ℤ → WorkerState → TickResult × WorkerState
unfolding snapshot_run after_hours
roll_to config a watermark target s = after_hours a target s (
    roll_hours (hours_fuel watermark target) (snapshot_run config a s) a.write target watermark [] 0
      s.rollup_files)

unfoldable pub drained : ℤ → Bool × WorkerState → TickResult × WorkerState
drained watermark (false, s) = (tick_failed, s)
drained watermark (true, s) = (
  tick_ok (record {
    segments_written = 0;
    watermark_ms = watermark;
    hours_processed = 0;
    forced_flush = true;
    skipped_for_in_flight = false;
  }),
  s,
)

unfoldable pub act : WorkerConfig → TickAnswers → Decision → WorkerState → TickResult × WorkerState
unfolding stats drained force_drain_memtable roll_to
act config a wait_for_flush s =
    (tick_ok (record (stats 0 s.manifest.hourly_rollup_ms 0) { skipped_for_in_flight = true }), s)
act config a force_drain s = drained s.manifest.hourly_rollup_ms (force_drain_memtable a s)
act config a (up_to_date watermark) s = (tick_ok (stats 0 watermark 0), s)
act config a (advance watermark target) s = roll_to config a watermark target s

unfoldable pub tick : WorkerConfig → TickAnswers → ℤ → WorkerState → TickResult × WorkerState
unfolding decide act
tick config a now s = act config a (decide config now s.manifest s.wal.active_id s.memtable) s

unfoldable pub outside : ℤ → ℤ → SegmentMeta → Bool
outside from_ms to_ms s = not (ltb_ℤ s.min_timestamp_ms to_ms && leb_ℤ from_ms s.max_timestamp_ms)

unfoldable pub rewound : ℤ → ℤ → Manifest → Manifest
unfolding outside
rewound from_ms to_ms m = record m {
  rollup_segments = retain (outside from_ms to_ms) m.rollup_segments;
  hourly_rollup_ms = if ltb_ℤ from_ms m.hourly_rollup_ms then from_ms else m.hourly_rollup_ms;
}

-- The number of dropped segments, or `none` when the manifest is not saved.
unfoldable pub rebuild_rollups :
    SaveAnswers → ℤ → ℤ → Manifest → ManifestDir → Option ℕ × (Manifest × ManifestDir)
unfolding rewound
rebuild_rollups a from_ms to_ms m dir =
    let m' = rewound from_ms to_ms m in
    let dropped = length m.rollup_segments - length m'.rollup_segments in
    let (ok, saved) = save a m' dir in (if ok then some dropped else none, saved)
