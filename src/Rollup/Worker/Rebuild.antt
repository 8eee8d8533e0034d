-- ===== src/Rollup/Worker/Rebuild.antt =====
-- What a rebuild leaves of the rollups, and what a failed save leaves.
use usagedb.Prelude.{
  ℕ, ◌+◌, ◌-◌, ◌≡◌, refl, ◌∙◌, Bool, true, false, none, List, [], ◌∷◌, String, length,
  length-retain-le, retain, any, arith, All, Bool-cases, inl, inr, if◌then◌else◌, map, ◌++◌, ite,
  if_pos,
}
use usagedb.Prelude.Int.{ℤ, ◌≤ℤ◌, ◌<ℤ◌, min_ℤ, ltb_ℤ}
use usagedb.Prelude.Text.{String_discrete}
use usagedb.Prelude.Map.{get, remove, get-remove}
use usagedb.Storage.Manifest.{Manifest, SegmentMeta}
use usagedb.Storage.Generations.{SaveAnswers, ManifestDir, save}
use usagedb.Storage.Generations.Outcomes.{save_keeps}
use usagedb.Rollup.Hours.{RollupFiles, rolls, already_rolled}
use usagedb.Rollup.Worker.{
  WorkerState, TickAnswers, outside, rewound, rebuild_rollups, remove_files, commit_rollups,
  commit_tick,
}

-- A segment of rollups covers a range of times that is not empty.
abbrev pub Ordered : SegmentMeta → Type 0
Ordered s = s.min_timestamp_ms ≤ℤ s.max_timestamp_ms

retain-All : (p : SegmentMeta → Bool) (xs : List SegmentMeta) → All (λ x. p x ≡ true) (retain p xs)
unfolding retain
retain-All p [] = tt
retain-All p (x ∷ xs) = elim (Bool-cases (p x)) [
  | inl kept ↦ rw kept (kept, retain-All p xs)
  | inr dropped ↦ rw dropped (retain-All p xs)
]

not_rolled :
    (from_ms to_ms hour : ℤ) (bucket : ℕ) (xs : List SegmentMeta)
    → from_ms ≤ℤ hour
    → hour <ℤ to_ms
    → All Ordered xs
    → already_rolled (retain (outside from_ms to_ms) xs) hour bucket ≡ false
unfolding already_rolled retain any rolls outside
not_rolled from_ms to_ms hour bucket [] h k o = refl
not_rolled from_ms to_ms hour bucket (x ∷ xs) h k o =
    ground (arith, h, k, o.0, not_rolled from_ms to_ms hour bucket xs h k o.1)

-- What a rebuild makes of the manifest m.
pub record Rebuilt (from_ms to_ms : ℤ) (dropped : ℕ) (m m' : Manifest) : Type 0 where
  pub kept : All (λ s. outside from_ms to_ms s ≡ true) m'.rollup_segments
  pub counted : length m'.rollup_segments + dropped ≡ length m.rollup_segments
  pub watermark : m'.hourly_rollup_ms ≡ min_ℤ from_ms m.hourly_rollup_ms
  pub raw : m'.raw_segments ≡ m.raw_segments

abbrev pub dropped_by : ℤ → ℤ → Manifest → ℕ
dropped_by from_ms to_ms m =
    length m.rollup_segments - length (retain (outside from_ms to_ms) m.rollup_segments)

min_watermark : (from_ms old : ℤ) → (if ltb_ℤ from_ms old then from_ms else old) ≡ min_ℤ from_ms old
min_watermark from_ms old = ground arith

rewound_back : (from_ms old : ℤ) → (if ltb_ℤ from_ms old then from_ms else old) ≤ℤ from_ms
rewound_back from_ms old = ground arith

-- A rebuild keeps just the rollups outside the range, and rewinds the watermark to the start of the
-- range if it is past it. The raw segments stay. The manifest in memory is changed so even when it
-- cannot be saved.
pub rebuild_rollups-Rebuilt :
    (a : SaveAnswers) (from_ms to_ms : ℤ) (m : Manifest) (dir : ManifestDir)
    → Rebuilt from_ms to_ms
        (dropped_by from_ms to_ms m)
        m
        (rebuild_rollups a from_ms to_ms m dir).1.0
unfolding rebuild_rollups rewound
rebuild_rollups-Rebuilt a from_ms to_ms m dir =
    let m' = rewound from_ms to_ms m in
    let segments = save_keeps (λ (n : Manifest). n.rollup_segments) a m' dir refl in
    record {
      kept = rw segments (retain-All (outside from_ms to_ms) m.rollup_segments);
      counted =
          rw segments (omega (arith, length-retain-le (outside from_ms to_ms) m.rollup_segments));
      watermark =
          save_keeps (λ (n : Manifest). n.hourly_rollup_ms) a m' dir refl
          ∙ min_watermark from_ms m.hourly_rollup_ms;
      raw = save_keeps (λ (n : Manifest). n.raw_segments) a m' dir refl;
    }

-- After a rebuild no hour of the range counts as rolled up, in any bucket, and the watermark is at most the
-- start of the range. The condition is that the rollups cover ranges that are not empty.
pub rebuild_rollups-already_rolled :
    (a : SaveAnswers) (from_ms to_ms hour : ℤ) (bucket : ℕ) (m : Manifest) (dir : ManifestDir)
    → All Ordered m.rollup_segments
    → from_ms ≤ℤ hour
    → hour <ℤ to_ms
    → let m' = (rebuild_rollups a from_ms to_ms m dir).1.0 in
      (already_rolled m'.rollup_segments hour bucket ≡ false) × (m'.hourly_rollup_ms ≤ℤ from_ms)
unfolding rebuild_rollups rewound
rebuild_rollups-already_rolled a from_ms to_ms hour bucket m dir o h k =
    let m' = rewound from_ms to_ms m in
    (
      rw (save_keeps (λ (n : Manifest). n.rollup_segments) a m' dir refl)
          (not_rolled from_ms to_ms hour bucket m.rollup_segments h k o),
      rw (save_keeps (λ (n : Manifest). n.hourly_rollup_ms) a m' dir refl)
          (rewound_back from_ms m.hourly_rollup_ms),
    )

removed_stays :
    (id : String) (ids : List String) (files : RollupFiles)
    → get String_discrete id files ≡ none
    → get String_discrete id (remove_files true ids files) ≡ none
unfolding remove_files
removed_stays id [] files h = h
removed_stays id (i ∷ ids) files h = removed_stays id ids (remove String_discrete i files) (
    get-remove String_discrete i id files
    ∙ (elim (String_discrete i id) as (λ c. ite c none (get String_discrete id files) ≡ none) [
      | yes e ↦ refl
      | no n ↦ h
    ]))

abbrev pub Gone : RollupFiles → SegmentMeta → Type 0
Gone files m = get String_discrete m.segment_id files ≡ none

Gone-all :
    (new_segments : List SegmentMeta) (files : RollupFiles)
    → All
        (Gone (remove_files true (map (λ (m : SegmentMeta). m.segment_id) new_segments) files))
        new_segments
unfolding remove_files
Gone-all [] files = tt
Gone-all (m ∷ ms) files = (
  removed_stays m.segment_id (map (λ (n : SegmentMeta). n.segment_id) ms)
      (remove String_discrete m.segment_id files)
      (get-remove String_discrete m.segment_id m.segment_id files
        ∙ if_pos (String_discrete m.segment_id m.segment_id) refl none
            (get String_discrete m.segment_id files)),
  Gone-all ms (remove String_discrete m.segment_id files),
)

-- When the manifest cannot be saved at the end of a tick, the manifest in memory still has the new
-- watermark and all the new rollups, while the files of these rollups are gone. The condition on the
-- system is that files can be removed.
pub commit_tick_failed :
    (a : TickAnswers) (target : ℤ) (new_segments : List SegmentMeta) (hours : ℕ) (s : WorkerState)
    → (save a.saves (commit_rollups new_segments target s.manifest) s.manifest_dir).0 ≡ false
    → a.removes ≡ true
    → let s' = (commit_tick a target new_segments hours s).1 in
      (s'.manifest.hourly_rollup_ms ≡ target)
      × ((s'.manifest.rollup_segments ≡ s.manifest.rollup_segments ++ new_segments)
          × All (Gone s'.rollup_files) new_segments)
unfolding commit_tick commit_rollups
commit_tick_failed a target new_segments hours s h r =
    let m : Manifest = commit_rollups new_segments target s.manifest in
    rw h (
      save_keeps (λ (n : Manifest). n.hourly_rollup_ms) a.saves m s.manifest_dir refl,
      (
        save_keeps (λ (n : Manifest). n.rollup_segments) a.saves m s.manifest_dir refl,
        rw r (Gone-all new_segments s.rollup_files),
      ),
    )
