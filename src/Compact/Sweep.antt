-- ===== src/Compact/Sweep.antt =====
-- src/compact/worker.rs: what `sweep_pending_deletions` deletes and what it keeps.
use usagedb.Prelude.{
  append_assoc, ◌≡◌, refl, sym, ap, ◌∙◌, Bool, true, false, List, [], ◌∷◌, ◌++◌, String, arith, All,
  any, not, retain, is_empty, if_pos, Bool-cases, inl, inr, subst,
}
use usagedb.Prelude.Int.{ℤ, sub64}
use usagedb.Storage.Manifest.{Manifest, ReplacementRecord}
use usagedb.Storage.Generations.{SaveAnswers}
use usagedb.Storage.Generations.Outcomes.{save_keeps}
use usagedb.Query.Aggregate.{Strings_discrete}
use usagedb.Compact.{CompactState, is_due, same_key, drop_finalized, sweep_pending_deletions}

same_key_refl : (r : ReplacementRecord) → same_key r r ≡ true
unfolding same_key
same_key_refl r =
    rw (if_pos (Strings_discrete r.old_segments r.old_segments) refl true false) (ground arith)

same_key_due :
    (cutoff : ℤ) (r q : ReplacementRecord)
    → same_key r q ≡ true
    → is_due cutoff q ≡ true
    → is_due cutoff r ≡ true
unfolding same_key is_due
same_key_due cutoff r q h k = ground (arith, h, k)

finalized_due :
    (cutoff : ℤ) (r : ReplacementRecord) (rs : List ReplacementRecord)
    → is_due cutoff r ≡ false
    → any (same_key r) (retain (is_due cutoff) rs) ≡ false
unfolding any retain
finalized_due cutoff r [] h = refl
finalized_due cutoff r (q ∷ rs) h = elim (Bool-cases (is_due cutoff q)) [
  | inr other ↦ rw other (finalized_due cutoff r rs h)
  | inl due ↦ rw due (ground (arith, h, due, same_key_due cutoff r q, finalized_due cutoff r rs h))
]

-- The comparison by keys drops just the records that are due.
dropped_due :
    (cutoff : ℤ) (rs qs : List ReplacementRecord)
    → All (λ r. any (same_key r) qs ≡ is_due cutoff r) rs
    → retain (λ r. not (any (same_key r) qs)) rs ≡ retain (λ r. not (is_due cutoff r)) rs
unfolding retain
dropped_due cutoff [] qs h = refl
dropped_due cutoff (r ∷ rs) qs h = rw (h.0, dropped_due cutoff rs qs h.1) refl

due_found :
    (cutoff : ℤ) (r : ReplacementRecord) (qs : List ReplacementRecord)
    → any (same_key r) (r ∷ qs) ≡ true
unfolding any
due_found cutoff r qs = rw (same_key_refl r) refl

-- A list with the records of another in front.
any_more :
    (p : ReplacementRecord → Bool) (xs ys : List ReplacementRecord)
    → any p ys ≡ true
    → any p (xs ++ ys) ≡ true
unfolding any
any_more p [] ys h = h
any_more p (x ∷ xs) ys h = ground (arith, any_more p xs ys h)

retain-append :
    (p : ReplacementRecord → Bool) (xs ys : List ReplacementRecord)
    → retain p (xs ++ ys) ≡ retain p xs ++ retain p ys
unfolding retain
retain-append p [] ys = refl
retain-append p (x ∷ xs) ys = ground (arith, retain-append p xs ys)

due_decided :
    (cutoff : ℤ) (before rs : List ReplacementRecord) (r : ReplacementRecord)
    → any (same_key r) (retain (is_due cutoff) (before ++ r ∷ rs)) ≡ is_due cutoff r
unfolding retain
due_decided cutoff before rs r = elim (Bool-cases (is_due cutoff r)) [
  | inr other ↦ finalized_due cutoff r (before ++ r ∷ rs) other ∙ sym other
  | inl due ↦
      ap (any (same_key r)) (retain-append (is_due cutoff) before (r ∷ rs))
      ∙ any_more (same_key r) (retain (is_due cutoff) before) (retain (is_due cutoff) (r ∷ rs))
          (rw due (due_found cutoff r (retain (is_due cutoff) rs)))
      ∙ sym due
]

all_decided :
    (cutoff : ℤ) (before rs : List ReplacementRecord)
    → All (λ r. any (same_key r) (retain (is_due cutoff) (before ++ rs)) ≡ is_due cutoff r) rs
all_decided cutoff before [] = tt
all_decided cutoff before (r ∷ rs) = (
  due_decided cutoff before rs r,
  subst (λ l. All (λ q. any (same_key q) (retain (is_due cutoff) l) ≡ is_due cutoff q) rs)
      (append_assoc before (r ∷ []) rs) (all_decided cutoff (before ++ r ∷ []) rs),
)

nothing_due :
    (p : ReplacementRecord → Bool) (rs : List ReplacementRecord)
    → is_empty (retain p rs) ≡ true
    → retain (λ r. not (p r)) rs ≡ rs
unfolding retain
nothing_due p [] h = refl
nothing_due p (r ∷ rs) h = ground (arith, h, nothing_due p rs)

-- A sweep drops from the manifest just the records that are due: those committed at the cutoff or
-- before, and not at time zero. The others stay in their order, also when the save fails.
pub sweep_retains :
    (removes : String → Bool) (a : SaveAnswers) (now grace_ms : ℤ) (s : CompactState)
    → (sweep_pending_deletions removes a now grace_ms s).1.manifest.compacted_replacements
      ≡ retain (λ r. not (is_due (sub64 now grace_ms) r)) s.manifest.compacted_replacements
unfolding sweep_pending_deletions drop_finalized
sweep_retains removes a now grace_ms s =
    let cutoff = sub64 now grace_ms in
    let rs : List ReplacementRecord = s.manifest.compacted_replacements in
    let finalized = retain (is_due cutoff) rs in
    let m : Manifest = drop_finalized finalized s.manifest in
    elim (Bool-cases (is_empty finalized)) [
      | inl none_due ↦ rw none_due (sym (nothing_due (is_due cutoff) rs none_due))
      | inr some_due ↦ rw some_due (
          save_keeps (λ (n : Manifest). n.compacted_replacements) a m s.manifest_dir refl
          ∙ dropped_due cutoff rs finalized (all_decided cutoff [] rs))
    ]
