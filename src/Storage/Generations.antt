-- ===== src/Storage/Generations.antt =====
-- src/storage/manifest.rs: `save`, `load` and `prune_old_generations`.
-- The directory maps a generation to its file: a manifest, or `none` for a file that cannot be read or
-- parsed. The field `current_generation` is not in the file.
pub mod Recovery
pub mod Outcomes
use usagedb.Prelude.{
  ℕ, zero, suc, ◌+◌, ◌-◌, ltb, leb, Bool, true, false, Option, none, some, List, [], ◌∷◌, retain,
  ite, ◌||◌, not, ℕ_discrete, if◌then◌else◌,
}
use usagedb.Prelude.Map.{get, insert}
use usagedb.Storage.Manifest.{Manifest}

-- `current` is the content of the file CURRENT (`some none`: not a number), `legacy` that of the old `manifest.json`.
pub record ManifestDir : Type 0 where
  pub generations : List (ℕ × Option Manifest)
  pub current : Option (Option ℕ)
  pub legacy : Option (Option Manifest)

-- How far `save` comes: up to the rename of the generation file, up to the rename of CURRENT, up to the
-- sync of the directory, or to the end.
pub data SaveSteps : Type 0 where
  no_file no_current no_sync saved : SaveSteps

-- `prunes` says which old files are removed: a failure is ignored, and where the directory cannot be read
-- none is removed.
pub record SaveAnswers : Type 0 where
  pub steps : SaveSteps
  pub prunes : ℕ → Bool

abbrev pub keep_generations : ℕ
keep_generations = 10

unfoldable pub prune_old_generations :
    (ℕ → Bool) → ℕ → List (ℕ × Option Manifest) → List (ℕ × Option Manifest)
prune_old_generations prunes current generations =
    if leb current keep_generations
    then generations
    else (let floor = current - keep_generations + 1 in
        retain (λ f. leb floor f.0 || not (prunes f.0)) generations)

-- What the generation file holds: `current_generation` is left out, and is 0 when it is read.
unfoldable pub contents : Manifest → Manifest
contents m = record m { current_generation = 0 }

unfoldable pub write_generation : Manifest → ManifestDir → ManifestDir
unfolding contents
write_generation m dir = record dir {
  generations = insert ℕ_discrete (m.current_generation + 1) (some (contents m)) dir.generations;
}

unfoldable pub point_current : ℕ → ManifestDir → ManifestDir
point_current g dir = record dir { current = some (some g) }

unfoldable pub prune : (ℕ → Bool) → ℕ → ManifestDir → ManifestDir
unfolding prune_old_generations
prune prunes g dir = record dir { generations = prune_old_generations prunes g dir.generations }

-- The Boolean is `is_ok()`; the manifest is `self` afterwards.
unfoldable pub save : SaveAnswers → Manifest → ManifestDir → Bool × (Manifest × ManifestDir)
unfolding write_generation point_current prune
save a m dir =
    let next_gen = m.current_generation + 1 in
    let written = write_generation m dir in
    elim a.steps [
      | no_file ↦ (false, (m, dir))
      | no_current ↦ (false, (m, written))
      | no_sync ↦ (false, (m, point_current next_gen written))
      | saved ↦ (
        true,
        (
          record m { current_generation = next_gen },
          prune a.prunes next_gen (point_current next_gen written),
        ),
      )
    ]

pub data LoadResult : Type 0 where
  absent corrupt io_error : LoadResult
  found : Manifest → LoadResult

-- The generations from g down to 1.
unfoldable pub walk : ℕ → List (ℕ × Option Manifest) → LoadResult
walk zero generations = corrupt
walk (suc g) generations =
    let older = walk g generations in
    elim (get ℕ_discrete (suc g) generations) [
      | none ↦ older
      | some none ↦ older
      | some (some m) ↦ found (record m { current_generation = suc g })
    ]

-- The migration saves the old manifest as a new generation and removes the old file.
unfoldable pub migrate_legacy :
    SaveAnswers → Option Manifest → ManifestDir → LoadResult × ManifestDir
unfolding save
migrate_legacy a none dir = (corrupt, dir)
migrate_legacy a (some m) dir =
    let (ok, (m', dir')) = save a m dir in
    if ok then (found m', record dir' { legacy = none }) else (io_error, dir')

unfoldable pub load : SaveAnswers → ManifestDir → LoadResult × ManifestDir
unfolding walk migrate_legacy
load a dir = elim dir.current [
  | some (some g) ↦ (walk g dir.generations, dir)
  | some none ↦ (corrupt, dir)
  | none ↦ elim dir.legacy [ some file ↦ migrate_legacy a file dir | none ↦ (absent, dir) ]
]
