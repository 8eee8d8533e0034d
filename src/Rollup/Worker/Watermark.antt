-- ===== src/Rollup/Worker/Watermark.antt =====
-- The watermark and the events that are not flushed.
use usagedb.Prelude.{
  ℕ, ◌≡◌, refl, Bool, true, false, Option, none, some, List, [], ◌∷◌, is_empty, arith, Elem,
  Bool-cases, Option-cases, inl, inr, ◌⊎◌,
}
use usagedb.Prelude.Int.{ℤ, pos, ◌≤ℤ◌, min_ℤ, max_ℤ, div_trunc, scale}
use usagedb.Model.{UsageEvent}
use usagedb.Storage.Manifest.{Manifest, SegmentMeta}
use usagedb.Storage.Generations.{save}
use usagedb.Storage.Generations.Outcomes.{save_keeps}
use usagedb.Ingest.Memtable.{Memtable, min_timestamp, min_event_timestamp_ms, drain_all}
use usagedb.Ingest.Wal.{rotate}
use usagedb.Rollup.{hour_of}
use usagedb.Rollup.Hours.{HoursResult, hours_rolled, hours_failed, out_of_fuel, roll_hours}
use usagedb.Rollup.Worker.{
  WorkerConfig, WorkerState, TickAnswers, Decision, wait_for_flush, force_drain, up_to_date,
  advance, cap_target, target_hour, advance_or_stay, decide, send, force_drain_memtable,
  commit_rollups, commit_tick, snapshot_run, hours_fuel, roll_to, drained, act, tick, queue_drained,
  after_hours,
}

-- The hour of a time starts at a later time that is not negative, or before.
hour_of-le : (m t : ℤ) → pos 0 ≤ℤ t → m ≤ℤ t → hour_of m ≤ℤ t
unfolding hour_of div_trunc scale
hour_of-le m t p h = ground arith

min_timestamp-le :
    (e : UsageEvent) (es : List UsageEvent)
    → Elem e es
    → (m : ℤ) × ((min_timestamp es ≡ some m) × (m ≤ℤ e.timestamp_ms))
unfolding min_timestamp
min_timestamp-le e [] h = absurd h
min_timestamp-le e (d ∷ es) (inl here) = elim (Option-cases (min_timestamp es)) [
  | inl empty ↦ (d.timestamp_ms, (rw empty refl, rw here (omega arith)))
  | inr (m, some_m) ↦ (min_ℤ d.timestamp_ms m, (rw some_m refl, rw here (ground arith)))
]
min_timestamp-le e (d ∷ es) (inr later) =
    let (m, (some_m, le)) = min_timestamp-le e es later in
    (min_ℤ d.timestamp_ms m, (rw some_m refl, ground (arith, le)))

target_hour-le :
    (config : WorkerConfig) (now : ℤ) (m : Memtable) (e : UsageEvent)
    → Elem e m.events
    → pos 0 ≤ℤ e.timestamp_ms
    → target_hour config now m ≤ℤ e.timestamp_ms
unfolding target_hour cap_target min_event_timestamp_ms
target_hour-le config now m e h p =
    let (t, (some_t, le)) = min_timestamp-le e m.events h in
    rw some_t (ground (arith, hour_of-le t e.timestamp_ms p le))

pub commit_tick-manifest :
    (a : TickAnswers) (target : ℤ) (new_segments : List SegmentMeta) (hours : ℕ) (s : WorkerState)
    → (commit_tick a target new_segments hours s).1.manifest
      ≡ (save a.saves (commit_rollups new_segments target s.manifest) s.manifest_dir).1.0
unfolding commit_tick
commit_tick-manifest a target new_segments hours s =
    let m : Manifest = commit_rollups new_segments target s.manifest in
    elim (Bool-cases (save a.saves m s.manifest_dir).0) [
      | inl ok ↦ rw ok refl
      | inr failed ↦ rw failed refl
    ]

pub commit_tick-hourly :
    (a : TickAnswers) (target : ℤ) (new_segments : List SegmentMeta) (hours : ℕ) (s : WorkerState)
    → (commit_tick a target new_segments hours s).1.manifest.hourly_rollup_ms ≡ target
unfolding commit_rollups
commit_tick-hourly a target new_segments hours s =
    let m : Manifest = commit_rollups new_segments target s.manifest in
    rw (commit_tick-manifest a target new_segments hours s)
      (save_keeps (λ (n : Manifest). n.hourly_rollup_ms) a.saves m s.manifest_dir refl)

-- What a tick may do to the watermark: leave it, or move it to the target.
abbrev Moves : ℤ → ℤ → ℤ → Type 0
Moves old target new = (new ≡ old) ⊎ (new ≡ target)

queue_drained-manifest :
    (sent : Bool) (events : List UsageEvent) (sealed : Option ℕ) (s : WorkerState)
    → (queue_drained sent events sealed s).1.manifest ≡ s.manifest
unfolding queue_drained send
queue_drained-manifest sent events none s = refl
queue_drained-manifest true events (some id) s = refl
queue_drained-manifest false events (some id) s = refl

pub force_drain-manifest :
    (a : TickAnswers) (s : WorkerState) → (force_drain_memtable a s).1.manifest ≡ s.manifest
unfolding force_drain_memtable
force_drain-manifest a s = elim (Bool-cases (is_empty s.memtable.events)) [
  | inl empty ↦ rw empty refl
  | inr some_events ↦
      let (sealed, wal') = rotate a.rotate_flushed a.rotate_synced a.rotate_opened s.wal in
      rw some_events (
        queue_drained-manifest a.sent s.memtable.events sealed
          (record s { wal = wal'; memtable = (drain_all s.memtable).1 }))
]

drained-state : (t : ℤ) (r : Bool × WorkerState) → (drained t r).1 ≡ r.1
unfolding drained
drained-state t (true, s) = refl
drained-state t (false, s) = refl

after_hours-Moves :
    (a : TickAnswers) (target : ℤ) (s : WorkerState) (r : HoursResult)
    → Moves s.manifest.hourly_rollup_ms target
        (after_hours a target s r).1.manifest.hourly_rollup_ms
unfolding after_hours
after_hours-Moves a target s (hours_failed files) = inl refl
after_hours-Moves a target s out_of_fuel = inl refl
after_hours-Moves a target s (hours_rolled new_segments hours files) =
    inr (commit_tick-hourly a target new_segments hours (record s { rollup_files = files }))

-- The target of a decision; a decision that has none leaves the watermark.
abbrev target_of : ℤ → Decision → ℤ
target_of old wait_for_flush = old
target_of old force_drain = old
target_of old (up_to_date watermark) = old
target_of old (advance watermark target) = target

act-Moves :
    (config : WorkerConfig) (a : TickAnswers) (d : Decision) (s : WorkerState)
    → Moves s.manifest.hourly_rollup_ms
        (target_of s.manifest.hourly_rollup_ms d)
        (act config a d s).1.manifest.hourly_rollup_ms
unfolding act roll_to
act-Moves config a wait_for_flush s = inl refl
act-Moves config a force_drain s = inl (
    rw (drained-state s.manifest.hourly_rollup_ms (force_drain_memtable a s))
      (rw (force_drain-manifest a s) refl))
act-Moves config a (up_to_date watermark) s = inl refl
act-Moves config a (advance watermark target) s = after_hours-Moves a target s (
    roll_hours (hours_fuel watermark target) (snapshot_run config a s) a.write target watermark [] 0
      s.rollup_files)

decide-target :
    (config : WorkerConfig) (now : ℤ) (m : Manifest) (active : ℕ) (t : Memtable)
    → let target = target_of m.hourly_rollup_ms (decide config now m active t) in
      (target ≡ m.hourly_rollup_ms) ⊎ (target ≡ target_hour config now t)
unfolding decide advance_or_stay
decide-target config now m active t = ground arith

moved-le :
    (old target new bound : ℤ)
    → Moves old target new
    → (target ≡ old) ⊎ (target ≤ℤ bound)
    → new ≤ℤ max_ℤ old bound
moved-le old target new bound m h = ground arith

-- A tick never moves the watermark past an event that is in the memtable and whose time is not
-- negative: afterwards the watermark is at most the old one or the event's time, whichever is later.
-- This holds on every branch, failures included.
pub tick-watermark :
    (config : WorkerConfig) (a : TickAnswers) (now : ℤ) (s : WorkerState) (e : UsageEvent)
    → Elem e s.memtable.events
    → pos 0 ≤ℤ e.timestamp_ms
    → (tick config a now s).1.manifest.hourly_rollup_ms
      ≤ℤ max_ℤ s.manifest.hourly_rollup_ms e.timestamp_ms
unfolding tick
tick-watermark config a now s e h p =
    let d = decide config now s.manifest s.wal.active_id s.memtable in
    let old : ℤ = s.manifest.hourly_rollup_ms in
    moved-le old (target_of old d) (act config a d s).1.manifest.hourly_rollup_ms e.timestamp_ms
      (act-Moves config a d s)
      (elim (decide-target config now s.manifest s.wal.active_id s.memtable) [
        | inl stays ↦ inl stays
        | inr goes ↦ inr (rw goes (target_hour-le config now s.memtable e h p))
      ])
