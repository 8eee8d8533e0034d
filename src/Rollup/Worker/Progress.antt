-- ===== src/Rollup/Worker/Progress.antt =====
-- A tick ends, and on a friendly system it moves the watermark to its target.
use usagedb.Prelude.{
  ℕ, ◌+◌, ◌≤◌, ◌≡◌, ◌≢◌, refl, subst, Bool, true, false, List, [], length, arith, String,
  Bool-cases, Option-cases, inl, inr,
}
use usagedb.Prelude.Int.{ℤ, pos, ◌≤ℤ◌, ◌<ℤ◌, i64_min}
use usagedb.Storage.Manifest.{Manifest, SegmentMeta}
use usagedb.Storage.Generations.{SaveAnswers, saved, ManifestDir, save, load, found}
use usagedb.Storage.Generations.Recovery.{load-save}
use usagedb.Ingest.Memtable.{Memtable, min_event_timestamp_ms}
use usagedb.Rollup.Hours.{
  HoursResult, hours_rolled, hours_failed, out_of_fuel, roll_hours, finished,
}
use usagedb.Rollup.Hours.Fuel.{
  Ended, NoOverflow, AllRolled, roll_hours-Ended, roll_hours-AllRolled, fuel_enough,
}
use usagedb.Rollup.Worker.{
  WorkerConfig, WorkerState, TickAnswers, TickResult, tick_ok, tick_failed, no_end, Decision,
  wait_for_flush, force_drain, up_to_date, advance, too_old, cap_target, time_target, target_hour,
  start_watermark, advance_or_stay, decide, force_drain_memtable, commit_rollups, commit_tick,
  snapshot_run, hours_fuel, roll_to, drained, act, tick, after_hours, stats,
}
use usagedb.Rollup.Worker.Watermark.{commit_tick-hourly}

abbrev Ends : TickResult → Type 0
Ends (tick_ok _) = Unit
Ends tick_failed = Unit
Ends no_end = ⊥

commit_tick-Ends :
    (a : TickAnswers) (target : ℤ) (new_segments : List SegmentMeta) (hours : ℕ) (s : WorkerState)
    → Ends (commit_tick a target new_segments hours s).0
unfolding commit_tick
commit_tick-Ends a target new_segments hours s =
    elim (Bool-cases
      (save a.saves (commit_rollups new_segments target s.manifest) s.manifest_dir).0) [
        | inl ok ↦ rw ok tt
        | inr failed ↦ rw failed tt
      ]

after_hours-Ends :
    (a : TickAnswers) (target : ℤ) (s : WorkerState) (r : HoursResult)
    → Ended r
    → Ends (after_hours a target s r).0
unfolding after_hours
after_hours-Ends a target s (hours_failed files) h = tt
after_hours-Ends a target s out_of_fuel h = absurd h
after_hours-Ends a target s (hours_rolled new_segments hours files) h =
    commit_tick-Ends a target new_segments hours (record s { rollup_files = files })

drained-Ends : (t : ℤ) (r : Bool × WorkerState) → Ends (drained t r).0
unfolding drained
drained-Ends t (true, s) = tt
drained-Ends t (false, s) = tt

abbrev Bounded : Decision → Type 0
Bounded wait_for_flush = Unit
Bounded force_drain = Unit
Bounded (up_to_date _) = Unit
Bounded (advance watermark target) = NoOverflow watermark target

act-Ends :
    (config : WorkerConfig) (a : TickAnswers) (d : Decision) (s : WorkerState)
    → Bounded d
    → Ends (act config a d s).0
unfolding act roll_to
act-Ends config a wait_for_flush s b = tt
act-Ends config a force_drain s b =
    drained-Ends s.manifest.hourly_rollup_ms (force_drain_memtable a s)
act-Ends config a (up_to_date watermark) s b = tt
act-Ends config a (advance watermark target) s b =
    after_hours-Ends a target s
      (roll_hours (hours_fuel watermark target) (snapshot_run config a s) a.write target watermark
        [] 0 s.rollup_files)
      (roll_hours-Ended (hours_fuel watermark target) (snapshot_run config a s) a.write target
        watermark [] 0 s.rollup_files b (fuel_enough watermark target))

target_hour-le :
    (config : WorkerConfig) (now : ℤ) (m : Memtable)
    → target_hour config now m ≤ℤ time_target config now
unfolding target_hour cap_target
target_hour-le config now m = elim (Option-cases (min_event_timestamp_ms m)) [
  | inl empty ↦ rw empty (omega arith)
  | inr (t, some_t) ↦ rw some_t (ground arith)
]

-- The target of the clock lies an hour below the largest time, and the start is a time.
abbrev pub InRange : WorkerConfig → ℤ → Manifest → Type 0
InRange config now m =
    (i64_min ≤ℤ start_watermark m.hourly_rollup_ms m.raw_segments)
    × (time_target config now ≤ℤ pos 9223372036851175807)

decide-Bounded :
    (config : WorkerConfig) (now : ℤ) (m : Manifest) (active : ℕ) (t : Memtable)
    → InRange config now m
    → Bounded (decide config now m active t)
unfolding decide advance_or_stay
decide-Bounded config now m active t h = ground (arith, h.0, h.1, target_hour-le config now t)

-- A tick ends: the loop over the hours runs out before the fuel that stands for it. The condition is
-- that the times fit into 64 bits, with an hour to spare at the end.
pub tick_ends :
    (config : WorkerConfig) (a : TickAnswers) (now : ℤ) (s : WorkerState)
    → InRange config now s.manifest
    → (tick config a now s).0 ≢ no_end
unfolding tick
tick_ends config a now s h e = subst Ends e (
    act-Ends config a (decide config now s.manifest s.wal.active_id s.memtable) s
      (decide-Bounded config now s.manifest s.wal.active_id s.memtable h))

decide-advance :
    (config : WorkerConfig) (now : ℤ) (m : Manifest) (active : ℕ) (t : Memtable)
    → active ≤ m.last_sealed_wal_id + 1
    → too_old now config.memtable_max_age_ms t.oldest_insert_at_ms ≡ false
    → start_watermark m.hourly_rollup_ms m.raw_segments <ℤ target_hour config now t
    → decide config now m active t
      ≡ advance (start_watermark m.hourly_rollup_ms m.raw_segments) (target_hour config now t)
unfolding decide advance_or_stay
decide-advance config now m active t h young ahead = ground (arith, h, young, ahead)

save_succeeds :
    (a : SaveAnswers) (m : Manifest) (dir : ManifestDir) → a.steps ≡ saved → (save a m dir).0 ≡ true
unfolding save
save_succeeds a m dir h = rw h refl

-- What a tick that went through has done: the watermark is at the target, and the manifest on disk
-- is the one in memory.
pub record Done (target : ℤ) (b : SaveAnswers) (r : TickResult) (s : WorkerState) : Type 0 where
  pub written : ℕ
  pub hours : ℕ
  pub result : r ≡ tick_ok (stats written target hours)
  pub watermark : s.manifest.hourly_rollup_ms ≡ target
  pub reloaded : (load b s.manifest_dir).0 ≡ found s.manifest

commit_tick-Done :
    (b : SaveAnswers) (a : TickAnswers) (target : ℤ) (new_segments : List SegmentMeta) (hours : ℕ)
    (s : WorkerState)
    → a.saves.steps ≡ saved
    → Done target b
        (commit_tick a target new_segments hours s).0
        (commit_tick a target new_segments hours s).1
unfolding commit_tick
commit_tick-Done b a target new_segments hours s h =
    let m : Manifest = commit_rollups new_segments target s.manifest in
    let ok = save_succeeds a.saves m s.manifest_dir h in
    record {
      written = length new_segments;
      hours = hours;
      result = rw ok refl;
      watermark = commit_tick-hourly a target new_segments hours s;
      reloaded = rw ok (load-save a.saves b m s.manifest_dir ok);
    }

after_hours-Done :
    (b : SaveAnswers) (a : TickAnswers) (target : ℤ) (s : WorkerState) (r : HoursResult)
    → a.saves.steps ≡ saved
    → AllRolled r
    → Done target b (after_hours a target s r).0 (after_hours a target s r).1
unfolding after_hours
after_hours-Done b a target s (hours_failed files) h f = absurd f
after_hours-Done b a target s out_of_fuel h f = absurd f
after_hours-Done b a target s (hours_rolled new_segments hours files) h f =
    commit_tick-Done b a target new_segments hours (record s { rollup_files = files }) h

-- A tick makes progress: it ends well, the watermark is at the target hour, and the manifest that a
-- restart loads is the one in memory. The conditions: no flush is in flight, the memtable is not too
-- old, the target lies past the watermark, the times are in range, and the files can be read, the
-- rollups written and the manifest saved.
pub tick_progress :
    (b : SaveAnswers) (config : WorkerConfig) (a : TickAnswers) (now : ℤ) (s : WorkerState)
    → s.wal.active_id ≤ s.manifest.last_sealed_wal_id + 1
    → too_old now config.memtable_max_age_ms s.memtable.oldest_insert_at_ms ≡ false
    → start_watermark s.manifest.hourly_rollup_ms s.manifest.raw_segments
      <ℤ target_hour config now s.memtable
    → InRange config now s.manifest
    → ((id : String) → a.readable id ≡ true)
    → ((i : ℕ) → (a.write i).outcome ≡ finished)
    → a.saves.steps ≡ saved
    → Done (target_hour config now s.memtable) b (tick config a now s).0 (tick config a now s).1
unfolding tick act roll_to
tick_progress b config a now s sealed young ahead range r w h =
    let watermark = start_watermark s.manifest.hourly_rollup_ms s.manifest.raw_segments in
    let target = target_hour config now s.memtable in
    let goes = decide-advance config now s.manifest s.wal.active_id s.memtable sealed young ahead in
    let bounds =
      subst Bounded goes (decide-Bounded config now s.manifest s.wal.active_id s.memtable range) in
    rw (tick, goes)
      (after_hours-Done b a target s
        (roll_hours (hours_fuel watermark target) (snapshot_run config a s) a.write target watermark
          [] 0 s.rollup_files)
        h
        (roll_hours-AllRolled (hours_fuel watermark target) (snapshot_run config a s) a.write target
          watermark [] 0 s.rollup_files (r, w) bounds (fuel_enough watermark target)))
