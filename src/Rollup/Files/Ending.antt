-- ===== src/Rollup/Files/Ending.antt =====
-- The loop that reads a file of rollups ends.
use usagedb.Prelude.{
  ℕ, zero, suc, ◌≤◌, ◌<◌, ◌≡◌, refl, ap, sym, ◌∙◌, subst, true, false, Option, none, some, List, [],
  ◌∷◌, ltb, ltb→lt, length, take, drop, arith, Bool-cases, Option-cases, inl, inr,
}
use usagedb.Model.{from_le_bytes}
use usagedb.Storage.Columns.{Bincode, cons_value}
use usagedb.Rollup.{HourlyRollupRecord}
use usagedb.Rollup.Files.{with_rest, read_payload, read_record, read_records}

length-drop-le : (n : ℕ) (bs : List ℕ) → length (drop n bs) ≤ length bs
length-drop-le zero bs = omega arith
length-drop-le (suc n) [] = omega arith
length-drop-le (suc n) (b ∷ bs) = omega (arith, length-drop-le n bs)

length-drop-lt : (n : ℕ) (bs : List ℕ) → 0 < length bs → length (drop (suc n) bs) < length bs
length-drop-lt n [] h = omega (arith, h)
length-drop-lt n (b ∷ bs) h = omega (arith, length-drop-le n bs)

-- What is left behind a record that was read is shorter than n.
abbrev LeavesBelow : ℕ → Option (HourlyRollupRecord × List ℕ) → Type 0
LeavesBelow n none = 0 ≤ n
LeavesBelow n (some (r, rest)) = length rest < n

with_rest-LeavesBelow :
    (n : ℕ) (rest : List ℕ) (o : Option HourlyRollupRecord)
    → length rest < n
    → LeavesBelow n (with_rest rest o)
unfolding with_rest
with_rest-LeavesBelow n rest none h = omega arith
with_rest-LeavesBelow n rest (some r) h = h

read_payload-LeavesBelow :
    (c : Bincode HourlyRollupRecord) (n len : ℕ) (bytes : List ℕ)
    → length bytes < n
    → LeavesBelow n (read_payload c len bytes)
unfolding read_payload
read_payload-LeavesBelow c n len bytes h = elim (Bool-cases (ltb (length bytes) len)) [
  | inl short ↦ rw (read_payload, short) (omega arith)
  | inr long ↦
      rw (read_payload, long)
        (with_rest-LeavesBelow n (drop len bytes) (c.deserialize (take len bytes))
          (omega (arith, h, length-drop-le len bytes)))
]

read_record-LeavesBelow :
    (c : Bincode HourlyRollupRecord) (bytes : List ℕ)
    → 0 < length bytes
    → LeavesBelow (length bytes) (read_record c bytes)
unfolding read_record
read_record-LeavesBelow c bytes h = elim (Bool-cases (ltb (length bytes) 4)) [
  | inl short ↦ rw (read_record, short) (omega arith)
  | inr long ↦
      rw (read_record, long)
        (read_payload-LeavesBelow c (length bytes) (from_le_bytes (take 4 bytes)) (drop 4 bytes)
          (length-drop-lt 3 bytes h))
]

pub turn_done :
    (c : Bincode HourlyRollupRecord) (fuel : ℕ) (bytes rest : List ℕ) (r : HourlyRollupRecord)
    → ltb 0 (length bytes) ≡ true
    → read_record c bytes ≡ some (r, rest)
    → read_records c (suc fuel) bytes ≡ cons_value (some r) (read_records c fuel rest)
unfolding read_records
turn_done c fuel bytes rest r more h = rw (read_records, more, h) refl

turn_failed :
    (c : Bincode HourlyRollupRecord) (fuel : ℕ) (bytes : List ℕ)
    → ltb 0 (length bytes) ≡ true
    → read_record c bytes ≡ none
    → read_records c (suc fuel) bytes ≡ none
unfolding read_records
turn_failed c fuel bytes more h = rw (read_records, more, h) refl

pub all_read :
    (c : Bincode HourlyRollupRecord) (fuel : ℕ) (bytes : List ℕ)
    → ltb 0 (length bytes) ≡ false
    → read_records c fuel bytes ≡ some []
unfolding read_records
all_read c zero bytes h = rw h refl
all_read c (suc fuel) bytes h = rw (read_records, h) refl

nothing_left : (n : ℕ) → n ≤ 0 → ltb 0 n ≡ false
nothing_left n h = ground (arith, h)

-- The loop that reads a file of rollups ends on any bytes, well-formed or not: fuel beyond their number changes nothing, so neither
-- result comes from fuel that ran out.
pub read_records_enough :
    (c : Bincode HourlyRollupRecord) (fuel fuel' : ℕ) (bytes : List ℕ)
    → length bytes ≤ fuel
    → length bytes ≤ fuel'
    → read_records c fuel bytes ≡ read_records c fuel' bytes
read_records_enough c zero fuel' bytes h k =
    let ended = nothing_left (length bytes) h in
    all_read c zero bytes ended ∙ sym (all_read c fuel' bytes ended)
read_records_enough c (suc fuel) zero bytes h k =
    let ended = nothing_left (length bytes) k in
    all_read c (suc fuel) bytes ended ∙ sym (all_read c zero bytes ended)
read_records_enough c (suc fuel) (suc fuel') bytes h k = elim (Bool-cases (ltb 0 (length bytes))) [
  | inl more ↦ elim (Option-cases (read_record c bytes)) [
    | inl failed ↦
        turn_failed c fuel bytes more failed ∙ sym (turn_failed c fuel' bytes more failed)
    | inr ((r, rest), done) ↦
        let shorter : length rest < length bytes =
          subst (LeavesBelow (length bytes)) done
            (read_record-LeavesBelow c bytes (ltb→lt 0 (length bytes) more)) in
        turn_done c fuel bytes rest r more done
        ∙ ap (cons_value (some r)) (
            read_records_enough c fuel fuel' rest (omega (arith, h, shorter))
              (omega (arith, k, shorter)))
        ∙ sym (turn_done c fuel' bytes rest r more done)
  ]
  | inr ended ↦ all_read c (suc fuel) bytes ended ∙ sym (all_read c (suc fuel') bytes ended)
]
