-- ===== src/Storage/Generations/Outcomes.antt =====
-- What `save` leaves in memory.
use usagedb.Prelude.{ℕ, ◌+◌, ◌≡◌, refl, Bool, true, false, ◌⊎◌, inl, inr}
use usagedb.Storage.Manifest.{Manifest}
use usagedb.Storage.Generations.{
  ManifestDir, SaveAnswers, SaveSteps, no_file, no_current, no_sync, saved, save,
}

-- The number of the generation that `save` writes, in the manifest.
abbrev pub next_generation : Manifest → Manifest
next_generation m = record m { current_generation = m.current_generation + 1 }

abbrev pub Outcome : Bool → Manifest → Manifest → Type 0
Outcome ok m m' = ((ok ≡ true) × (m' ≡ next_generation m)) ⊎ ((ok ≡ false) × (m' ≡ m))

Outcome-by_steps :
    (steps : SaveSteps) (prunes : ℕ → Bool) (m : Manifest) (dir : ManifestDir)
    → let a : SaveAnswers = record { steps = steps; prunes = prunes } in
      Outcome (save a m dir).0 m (save a m dir).1.0
unfolding save
Outcome-by_steps no_file p m dir = inr (refl, refl)
Outcome-by_steps no_current p m dir = inr (refl, refl)
Outcome-by_steps no_sync p m dir = inr (refl, refl)
Outcome-by_steps saved p m dir = inl (refl, refl)

pub save-cases :
    (a : SaveAnswers) (m : Manifest) (dir : ManifestDir)
    → Outcome (save a m dir).0 m (save a m dir).1.0
save-cases a m dir = Outcome-by_steps a.steps a.prunes m dir

-- A field that is not the number of the generation is as before.
pub save_keeps :
    {A : Type 0} (field : Manifest → A) (a : SaveAnswers) (m : Manifest) (dir : ManifestDir)
    → field (next_generation m) ≡ field m
    → field (save a m dir).1.0 ≡ field m
save_keeps field a m dir h = elim (save-cases a m dir) [
  | inl (ok, same) ↦ rw same h
  | inr (failed, same) ↦ rw same refl
]
