-- ===== src/Storage/Generations/Recovery.antt =====
-- What is read back after a save, whether it ended well or not, and after a generation is damaged.
use usagedb.Prelude.{
  ℕ, zero, suc, ◌+◌, ◌-◌, ◌≤◌, ◌<◌, leb, ◌||◌, not, ◌≡◌, refl, Bool, true, Option, none, some, List,
  [], ◌∷◌, retain, ℕ_discrete, arith, Bool-cases, if_pos, sym, ap, subst, ◌∙◌, inl, inr, ◌⊎◌,
}
use usagedb.Prelude.Map.{get, insert, get-insert}
use usagedb.Storage.Manifest.{Manifest}
use usagedb.Storage.Generations.{
  ManifestDir, SaveAnswers, SaveSteps, no_file, no_current, no_sync, saved, prune_old_generations,
  contents, write_generation, point_current, prune, save, LoadResult, absent, io_error, found,
  corrupt, walk, load,
}

get-retain_above :
    (prunes : ℕ → Bool) (floor g : ℕ) (gens : List (ℕ × Option Manifest))
    → floor ≤ g
    → get ℕ_discrete g (retain (λ f. leb floor f.0 || not (prunes f.0)) gens)
      ≡ get ℕ_discrete g gens
unfolding get retain
get-retain_above prunes floor g [] h = refl
get-retain_above prunes floor g ((j, f) ∷ gens) h =
    ground (arith, get-retain_above prunes floor g gens h)

get-prune :
    (prunes : ℕ → Bool) (g : ℕ) (gens : List (ℕ × Option Manifest))
    → get ℕ_discrete g (prune_old_generations prunes g gens) ≡ get ℕ_discrete g gens
unfolding prune_old_generations
get-prune prunes g gens = elim (Bool-cases (leb g 10)) [
  | inl few ↦ rw few refl
  | inr many ↦ rw many (get-retain_above prunes (g - 10 + 1) g gens (ground arith))
]

walk_top :
    (m : Manifest) (n : ℕ) (gens : List (ℕ × Option Manifest))
    → 0 < n
    → get ℕ_discrete n gens ≡ some (some (contents m))
    → walk n gens ≡ found (record m { current_generation = n })
unfolding contents walk
walk_top m zero gens p h = absurd (omega arith)
walk_top m (suc g) gens p h = rw (walk, h) refl

written_newest :
    (m : Manifest) (dir : ManifestDir)
    → get ℕ_discrete
        (m.current_generation + 1)
        (insert ℕ_discrete (m.current_generation + 1) (some (contents m)) dir.generations)
      ≡ some (some (contents m))
written_newest m dir =
    let g = m.current_generation + 1 in
    get-insert ℕ_discrete g g (some (contents m)) dir.generations
    ∙ if_pos (ℕ_discrete g g) refl (some (some (contents m))) (get ℕ_discrete g dir.generations)

load_current :
    (b : SaveAnswers) (g : ℕ) (dir : ManifestDir)
    → dir.current ≡ some (some g)
    → (load b dir).0 ≡ walk g dir.generations
unfolding load
load_current b g dir h = rw h refl

saved_case :
    (steps : SaveSteps) (prunes : ℕ → Bool) (b : SaveAnswers) (m : Manifest) (dir : ManifestDir)
    → let a : SaveAnswers = record { steps = steps; prunes = prunes } in
      (save a m dir).0 ≡ true → (load b (save a m dir).1.1).0 ≡ found (save a m dir).1.0
unfolding save load prune point_current
saved_case no_file p b m dir h = cc
saved_case no_current p b m dir h = cc
saved_case no_sync p b m dir h = cc
saved_case saved p b m dir h =
    let g = m.current_generation + 1 in
    let gens = insert ℕ_discrete g (some (contents m)) dir.generations in
    walk_top m g (prune_old_generations p g gens) (omega arith)
      (get-prune p g gens ∙ written_newest m dir)

walk_below :
    (g k : ℕ) (v : Option Manifest) (gens : List (ℕ × Option Manifest))
    → g < k
    → walk g (insert ℕ_discrete k v gens) ≡ walk g gens
unfolding walk
walk_below zero k v gens h = refl
walk_below (suc g) k v gens h =
    ground (arith, walk_below g k v gens, get-insert ℕ_discrete k (suc g) v gens)

failed_case :
    (steps : SaveSteps) (prunes : ℕ → Bool) (b : SaveAnswers) (m : Manifest) (dir : ManifestDir)
    → let a : SaveAnswers = record { steps = steps; prunes = prunes } in
      dir.current ≡ some (some m.current_generation)
      → (steps ≡ no_file) ⊎ (steps ≡ no_current)
      → (load b (save a m dir).1.1).0 ≡ (load b dir).0
unfolding save write_generation
failed_case no_file p b m dir c h = refl
failed_case no_current p b m dir c h =
    let g = m.current_generation in
    load_current b g (write_generation m dir) c
    ∙ walk_below g (g + 1) (some (contents m)) dir.generations (omega arith)
    ∙ sym (load_current b g dir c)
failed_case no_sync p b m dir c h = ground arith
failed_case saved p b m dir c h = ground arith

-- A manifest that was saved is the one that is loaded, with its new generation, whether or not old
-- generations are removed.
pub load-save :
    (a b : SaveAnswers) (m : Manifest) (dir : ManifestDir)
    → (save a m dir).0 ≡ true
    → (load b (save a m dir).1.1).0 ≡ found (save a m dir).1.0
load-save a b m dir h = saved_case a.steps a.prunes b m dir h

-- While CURRENT names the generation of the manifest in memory, a failed save before the rename of
-- CURRENT changes nothing that is loaded.
pub load-failed_save :
    (a b : SaveAnswers) (m : Manifest) (dir : ManifestDir)
    → dir.current ≡ some (some m.current_generation)
    → (a.steps ≡ no_file) ⊎ (a.steps ≡ no_current)
    → (load b (save a m dir).1.1).0 ≡ (load b dir).0
load-failed_save a b m dir c h = failed_case a.steps a.prunes b m dir c h

file_cases :
    (file : Option (Option Manifest))
    → ((file ≡ none) ⊎ (file ≡ some none)) ⊎ ((c : Manifest) × (file ≡ some (some c)))
file_cases none = inl (inl refl)
file_cases (some none) = inl (inr refl)
file_cases (some (some c)) = inr (c, refl)

found_top :
    (g : ℕ) (gens : List (ℕ × Option Manifest)) (c : Manifest)
    → get ℕ_discrete (suc g) gens ≡ some (some c)
    → walk (suc g) gens ≡ found (record c { current_generation = suc g })
unfolding walk
found_top g gens c h = rw (walk, h) refl

skipped :
    (g : ℕ) (gens : List (ℕ × Option Manifest)) (m : Manifest)
    → (get ℕ_discrete (suc g) gens ≡ none) ⊎ (get ℕ_discrete (suc g) gens ≡ some none)
    → walk g gens ≡ walk (suc g) gens
unfolding walk
skipped g gens m (inl e) = rw (walk, e) refl
skipped g gens m (inr e) = rw (walk, e) refl

abbrev generation_of : LoadResult → ℕ
generation_of absent = 0
generation_of corrupt = 0
generation_of io_error = 0
generation_of (found m) = m.current_generation

not_newer :
    (g : ℕ) (gens : List (ℕ × Option Manifest)) (c m : Manifest)
    → get ℕ_discrete (suc g) gens ≡ some (some c)
    → walk (suc g) gens ≡ found m
    → m.current_generation < suc g
    → ⊥
not_newer g gens c m readable w below =
    omega (arith, ap generation_of (sym w), ap generation_of (found_top g gens c readable))

-- Where the walk from generation g down finds a manifest, every later generation up to g is missing or
-- cannot be read.
pub walk-newest :
    (g h : ℕ) (gens : List (ℕ × Option Manifest)) (m : Manifest)
    → walk g gens ≡ found m
    → m.current_generation < h
    → h ≤ g
    → (get ℕ_discrete h gens ≡ none) ⊎ (get ℕ_discrete h gens ≡ some none)
unfolding walk
walk-newest zero h gens m w below upto = cc
walk-newest (suc g) h gens m w below upto = elim (file_cases (get ℕ_discrete (suc g) gens)) [
  | inl unreadable ↦ elim (ℕ_discrete h (suc g)) [
    | yes same ↦
        subst (λ j. (get ℕ_discrete j gens ≡ none) ⊎ (get ℕ_discrete j gens ≡ some none)) (sym same)
          unreadable
    | no other ↦ walk-newest g h gens m (skipped g gens m unreadable ∙ w) below (omega arith)
  ]
  | inr (c, readable) ↦ absurd (not_newer g gens c m readable w (omega arith))
]
