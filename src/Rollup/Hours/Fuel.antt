-- ===== src/Rollup/Hours/Fuel.antt =====
-- The loop over the hours ends, and with a friendly system it rolls every hour.
use usagedb.Prelude.{
  ℕ, zero, suc, ◌*◌, ◌≡◌, refl, true, some, List, [], ◌∷◌, ◌++◌, String, ℕ_discrete, length, arith,
  Bool-cases, Option-cases, inl, inr, ◌⊎◌, subst,
}
use usagedb.Prelude.Int.{
  ℤ, pos, ◌≤ℤ◌, ◌<ℤ◌, ◌+ℤ◌, ◌-ℤ◌, pos_part, ltb_ℤ, add64, add64_exact, i64_min, int_laws, sub64,
}
use usagedb.Prelude.Text.{String_discrete}
use usagedb.Prelude.Map.{get, insert, remove}
use usagedb.Storage.Manifest.{SegmentMeta}
use usagedb.Rollup.{HourlyRollupRecord, finalize}
use usagedb.Rollup.Hours.{
  Run, RollupAnswer, RollupFiles, HourLoop, Builders, Inputs, finished, HourResult, hour_rolled,
  hour_failed, HoursResult, hours_rolled, hours_failed, out_of_fuel, roll_hour, roll_hours,
  scan_segments, scan_rows, overlaps_hour, write_builders, write_rollup_segment, or_default,
  hour_ms, rollup_written, build_rollup_segment_meta,
}

HourResult-cases :
    (r : HourResult)
    → ((files : RollupFiles) × (r ≡ hour_failed files))
      ⊎ ((new_segments : List SegmentMeta) × ((files : RollupFiles) × (r
              ≡ hour_rolled new_segments files)))
HourResult-cases (hour_failed files) = inl (files, refl)
HourResult-cases (hour_rolled new_segments files) = inr (new_segments, (files, refl))

abbrev pub Ended : HoursResult → Type 0
Ended (hours_rolled _ _ _) = Unit
Ended (hours_failed _) = Unit
Ended out_of_fuel = ⊥

-- The times at which the loop does not overflow.
abbrev pub NoOverflow : ℤ → ℤ → Type 0
NoOverflow hour target = (i64_min ≤ℤ hour) × (target ≤ℤ pos 9223372036851175807)

before-lt : (a b : ℤ) → ltb_ℤ a b ≡ true → a <ℤ b
before-lt a b h = ground arith

next_hour :
    (hour target : ℤ)
    → NoOverflow hour target
    → ltb_ℤ hour target ≡ true
    → add64 hour (pos hour_ms) ≡ hour +ℤ pos hour_ms
next_hour hour target b h =
    let lt = before-lt hour target h in
    add64_exact hour (pos hour_ms) (omega (int_laws, b.0, b.1, lt), omega (int_laws, b.0, b.1, lt))

next_NoOverflow :
    (hour target : ℤ) → NoOverflow hour target → NoOverflow (hour +ℤ pos hour_ms) target
next_NoOverflow hour target b = (omega (int_laws, b.0), b.1)

next_enough :
    (fuel : ℕ) (hour target : ℤ)
    → target ≤ℤ hour +ℤ pos (suc fuel * 3600000)
    → target ≤ℤ hour +ℤ pos hour_ms +ℤ pos (fuel * 3600000)
next_enough fuel hour target h = omega (int_laws, h)

-- With fuel for the hours up to the target the loop does not run out of it.
pub roll_hours-Ended :
    (fuel : ℕ) (run : Run) (answer : ℕ → RollupAnswer) (target hour : ℤ)
    (new_segments : List SegmentMeta) (processed : ℕ) (files : RollupFiles)
    → NoOverflow hour target
    → target ≤ℤ hour +ℤ pos (fuel * 3600000)
    → Ended (roll_hours fuel run answer target hour new_segments processed files)
unfolding roll_hours
roll_hours-Ended zero run answer target hour new_segments processed files b h =
    elim (Bool-cases (ltb_ℤ hour target)) [
      | inl before ↦ absurd (omega (int_laws, h, before-lt hour target before))
      | inr done ↦ rw done tt
    ]
roll_hours-Ended (suc fuel) run answer target hour new_segments processed files b h =
    elim (Bool-cases (ltb_ℤ hour target)) [
      | inr done ↦ rw (roll_hours, done) tt
      | inl before ↦ elim (HourResult-cases (roll_hour run answer hour new_segments files)) [
        | inl (files', failed) ↦ rw (roll_hours, before, failed) tt
        | inr (new', (files', rolled)) ↦
            rw (roll_hours, before, rolled)
              (rw (next_hour hour target b before) (
                roll_hours-Ended fuel run answer target (hour +ℤ pos hour_ms) new' (suc processed)
                  files' (next_NoOverflow hour target b) (next_enough fuel hour target h)))
      ]
    ]

-- A system in which every file can be read and every rollup is written.
abbrev pub Friendly : Run → (ℕ → RollupAnswer) → Type 0
Friendly run answer =
    ((id : String) → run.readable id ≡ true) × ((i : ℕ) → (answer i).outcome ≡ finished)

scan_segments-some :
    (run : Run) (hour : ℤ) (segments : List SegmentMeta) (l : HourLoop)
    → ((id : String) → run.readable id ≡ true)
    → (l' : HourLoop) × (scan_segments run hour segments l ≡ some l')
unfolding scan_segments
scan_segments-some run hour [] l r = (l, refl)
scan_segments-some run hour (s ∷ segments) l r = elim (Bool-cases (overlaps_hour hour s)) [
  | inr outside ↦ rw (scan_segments, outside) (scan_segments-some run hour segments l r)
  | inl inside ↦ elim (Option-cases (get String_discrete s.segment_id run.files)) [
    | inl missing ↦ rw (scan_segments, inside, missing) (scan_segments-some run hour segments l r)
    | inr (rows, there) ↦
        rw (scan_segments, inside, there, r s.segment_id)
          (scan_segments-some run hour segments (scan_rows run hour s.segment_id rows l) r)
  ]
]

abbrev pub Rolled : HourResult → Type 0
Rolled (hour_rolled _ _) = Unit
Rolled (hour_failed _) = ⊥

pub write_finished :
    (a : RollupAnswer) (records : List HourlyRollupRecord) (bucket : ℕ) (from to : ℤ)
    (inputs : List String) (files : RollupFiles)
    → a.outcome ≡ finished
    → write_rollup_segment a records bucket from to inputs files
      ≡ rollup_written
          (build_rollup_segment_meta a.segment_id records bucket a.checksum from
            (sub64 to (pos 1))
            (length records)
            inputs)
          (insert String_discrete a.segment_id (some records) files)
unfolding write_rollup_segment
write_finished a records bucket from to inputs files h = rw (write_rollup_segment, h) refl

write_builders-Rolled :
    (answer : ℕ → RollupAnswer) (hour : ℤ) (inputs : Inputs) (builders : Builders)
    (new_segments : List SegmentMeta) (files : RollupFiles)
    → ((i : ℕ) → (answer i).outcome ≡ finished)
    → Rolled (write_builders answer hour inputs builders new_segments files)
unfolding write_builders finalize
write_builders-Rolled answer hour inputs [] new_segments files w = tt
write_builders-Rolled answer hour inputs ((bucket, []) ∷ rest) new_segments files w =
    write_builders-Rolled answer hour inputs rest new_segments files w
write_builders-Rolled answer hour inputs ((bucket, (k, r) ∷ rs) ∷ rest) new_segments files w =
    let a : RollupAnswer = answer (length new_segments) in
    let records = r ∷ finalize rs in
    let hour_end = add64 hour (pos hour_ms) in
    let ids : List String = or_default (get ℕ_discrete bucket inputs) in
    let meta =
      build_rollup_segment_meta a.segment_id records bucket a.checksum hour (sub64 hour_end (pos 1))
        (length records) ids in
    rw
      (
        write_builders,
        write_finished a records bucket hour hour_end ids files (w (length new_segments)),
      )
      (write_builders-Rolled answer hour (remove ℕ_discrete bucket inputs) rest
        (new_segments ++ meta ∷ []) (insert String_discrete a.segment_id (some records) files) w)

roll_hour-Rolled :
    (run : Run) (answer : ℕ → RollupAnswer) (hour : ℤ) (new_segments : List SegmentMeta)
    (files : RollupFiles)
    → Friendly run answer
    → Rolled (roll_hour run answer hour new_segments files)
unfolding roll_hour
roll_hour-Rolled run answer hour new_segments files f =
    let start : HourLoop = record { by_bucket = []; inputs_by_bucket = [] } in
    let (l, scanned) = scan_segments-some run hour run.raw_segments start f.0 in
    rw (roll_hour, scanned)
      (write_builders-Rolled answer hour l.inputs_by_bucket l.by_bucket new_segments files f.1)

abbrev pub AllRolled : HoursResult → Type 0
AllRolled (hours_rolled _ _ _) = Unit
AllRolled (hours_failed _) = ⊥
AllRolled out_of_fuel = ⊥

pub roll_hours-AllRolled :
    (fuel : ℕ) (run : Run) (answer : ℕ → RollupAnswer) (target hour : ℤ)
    (new_segments : List SegmentMeta) (processed : ℕ) (files : RollupFiles)
    → Friendly run answer
    → NoOverflow hour target
    → target ≤ℤ hour +ℤ pos (fuel * 3600000)
    → AllRolled (roll_hours fuel run answer target hour new_segments processed files)
unfolding roll_hours
roll_hours-AllRolled zero run answer target hour new_segments processed files f b h =
    elim (Bool-cases (ltb_ℤ hour target)) [
      | inl before ↦ absurd (omega (int_laws, h, before-lt hour target before))
      | inr done ↦ rw (roll_hours, done) tt
    ]
roll_hours-AllRolled (suc fuel) run answer target hour new_segments processed files f b h =
    elim (Bool-cases (ltb_ℤ hour target)) [
      | inr done ↦ rw (roll_hours, done) tt
      | inl before ↦ elim (HourResult-cases (roll_hour run answer hour new_segments files)) [
        | inl (files', failed) ↦
            absurd (subst Rolled failed (roll_hour-Rolled run answer hour new_segments files f))
        | inr (new', (files', rolled)) ↦
            rw (roll_hours, before, rolled)
              (rw (next_hour hour target b before) (
                roll_hours-AllRolled fuel run answer target (hour +ℤ pos hour_ms) new'
                  (suc processed) files' f (next_NoOverflow hour target b)
                  (next_enough fuel hour target h)))
      ]
    ]

-- The fuel that a tick takes is enough.
pub fuel_enough : (hour target : ℤ) → target ≤ℤ hour +ℤ pos (pos_part (target -ℤ hour) * 3600000)
fuel_enough hour target = omega int_laws
