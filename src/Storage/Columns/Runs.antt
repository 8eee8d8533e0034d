-- ===== src/Storage/Columns/Runs.antt =====
-- The column of kinds: run lengths.
use usagedb.Prelude.{
  ℕ, zero, suc, ◌+◌, ◌^◌, ◌≤◌, ◌<◌, ◌≡◌, refl, sym, ap, ◌∙◌, false, some, List, [], ◌∷◌, ◌++◌,
  length, replicate, ltb, ◌==◌, ==_iff, arith, Bool-cases, inl, inr,
}
use usagedb.Storage.Columns.{
  Bincode, ReadsBack, add_one, runs_from, runs_of, append_run, expand_runs, encode_rle_u8,
  decode_rle_u8,
}

replicate_more : (n c : ℕ) (vs : List ℕ) → replicate (suc n) c ++ vs ≡ replicate n c ++ (c ∷ vs)
replicate_more zero c vs = refl
replicate_more (suc n) c vs = ap (λ (t : List ℕ). c ∷ t) (replicate_more n c vs)

add_one_exact : (n : ℕ) → n < 4294967295 → add_one n ≡ suc n
unfolding add_one
add_one_exact n h = ground (arith, h)

few : (len c : ℕ) → len + c ≤ 10000000000 → ltb 10000000000 (len + c) ≡ false
few len c h = ground (arith, h)

expand_run :
    (len v c : ℕ) (runs : List (ℕ × ℕ)) (out : List ℕ)
    → len + c ≤ 10000000000
    → expand_runs (len + c) runs ≡ some out
    → expand_runs len ((v, c) ∷ runs) ≡ some (replicate c v ++ out)
unfolding expand_runs append_run
expand_run len v c runs out h k = rw (few len c h, k) refl

expand_runs-runs_from :
    (len current count : ℕ) (vs : List ℕ)
    → len + count + length vs < 2 ^ 32
    → expand_runs len (runs_from current count vs) ≡ some (replicate count current ++ vs)
unfolding runs_from
expand_runs-runs_from len current count [] h =
    expand_run len current count [] [] (omega (arith, h)) (unfold expand_runs in refl)
expand_runs-runs_from len current count (v ∷ vs) h = elim (Bool-cases (v == current)) [
  | inl same ↦
      rw (runs_from, same)
        (ap (λ (n : ℕ). expand_runs len (runs_from current n vs))
            (add_one_exact count (omega (arith, h)))
          ∙ expand_runs-runs_from len current (suc count) vs (omega (arith, h))
          ∙ ap some (
              replicate_more count current vs
              ∙ ap (λ (c : ℕ). replicate count current ++ (c ∷ vs))
                  (sym ((==_iff v current).0 same))))
  | inr other ↦
      rw (runs_from, other)
        (expand_run len current count (runs_from v 1 vs) (v ∷ vs) (omega (arith, h))
          (expand_runs-runs_from (len + count) v 1 vs (omega (arith, h))))
]

-- The runs of a column expand to the column, if it has fewer than 2^32 rows.
pub expand_runs-runs_of : (vs : List ℕ) → length vs < 2 ^ 32 → expand_runs 0 (runs_of vs) ≡ some vs
unfolding runs_of
expand_runs-runs_of [] h = unfold expand_runs in refl
expand_runs-runs_of (v ∷ vs) h = expand_runs-runs_from 0 v 1 vs (omega (arith, h))

-- The column of kinds is written, and read back as it was written, if bincode reads back its runs. It has fewer than
-- 2^32 rows.
pub decode_rle_u8-encode :
    (c : Bincode (List (ℕ × ℕ))) (vs bytes : List ℕ)
    → ReadsBack c (runs_of vs) bytes
    → length vs < 2 ^ 32
    → (encode_rle_u8 c vs ≡ some bytes) × (decode_rle_u8 c bytes ≡ some vs)
unfolding decode_rle_u8 encode_rle_u8
decode_rle_u8-encode c vs bytes h small =
    (h.0, rw (decode_rle_u8, h.1) (expand_runs-runs_of vs small))
