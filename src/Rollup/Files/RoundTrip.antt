-- ===== src/Rollup/Files/RoundTrip.antt =====
-- A file of rollups is read back as it was written.
use usagedb.Prelude.{
  ℕ, zero, suc, ◌+◌, ◌%◌, ◌^◌, ◌≤◌, ◌<◌, ◌≡◌, refl, ap, sym, ◌∙◌, true, false, some, List, [], ◌∷◌,
  ◌++◌, ltb, length, length-append, append_assoc, append-nil, arith, All,
}
use usagedb.Storage.Columns.{Bincode, ReadsBack, to_le_bytes, cons_value}
use usagedb.Storage.Columns.Varints.{from_le_bytes-to_le_bytes, count_fits, enough_bytes}
use usagedb.Storage.DedupeIndex.{checksum}
use usagedb.Storage.DedupeIndex.RoundTrip.{take-append, drop-append, same}
use usagedb.Rollup.{HourlyRollupRecord}
use usagedb.Rollup.Files
use usagedb.Rollup.Files.{
  RollupSegmentWriter, RollupSegmentReader, write_record, write_records, finish, with_rest,
  read_payload, read_record, read_records, at_start, open_segment,
}
use usagedb.Rollup.Files.Ending.{turn_done, all_read}

-- bincode writes a record in fewer than 2^32 bytes, and reads it back.
abbrev pub IsSerializable : Bincode HourlyRollupRecord → HourlyRollupRecord → Type 0
IsSerializable c r = (payload : List ℕ) × (ReadsBack c r payload × (length payload < 2 ^ 32))

framed : List ℕ → List ℕ
framed payload = to_le_bytes 4 (length payload % 2 ^ 32) ++ payload

-- The bytes of some records.
all_framed :
    (c : Bincode HourlyRollupRecord) (rs : List HourlyRollupRecord)
    → All (IsSerializable c) rs
    → List ℕ
all_framed c [] ok = []
all_framed c (r ∷ rs) ok = framed ok.0.0 ++ all_framed c rs ok.1

long_enough : (xs ys : List ℕ) → ltb (length (xs ++ ys)) (length xs) ≡ false
long_enough xs ys = ground (arith, length-append xs ys)

read_payload-written :
    (c : Bincode HourlyRollupRecord) (r : HourlyRollupRecord) (payload rest : List ℕ)
    → ReadsBack c r payload
    → read_payload c (length payload) (payload ++ rest) ≡ some (r, rest)
unfolding read_payload with_rest
read_payload-written c r payload rest h =
    rw (long_enough payload rest, take-append payload rest, drop-append payload rest, h.1) refl

read_record-written :
    (c : Bincode HourlyRollupRecord) (r : HourlyRollupRecord) (payload rest : List ℕ)
    → ReadsBack c r payload
    → length payload < 2 ^ 32
    → read_record c (framed payload ++ rest) ≡ some (r, rest)
unfolding read_record framed
read_record-written c r payload rest h small =
    let n = length payload in
    ap (read_record c) (append_assoc (to_le_bytes 4 (n % 2 ^ 32)) payload rest)
    ∙ rw (enough_bytes (n % 2 ^ 32) (payload ++ rest)) (
        unfold to_le_bytes in
        ap (λ (t : ℕ). read_payload c t (payload ++ rest))
          (from_le_bytes-to_le_bytes 4 (n % 2 ^ 32) (omega arith) ∙ count_fits n small)
        ∙ read_payload-written c r payload rest h)

framed_more : (payload rest : List ℕ) → ltb 0 (length (framed payload ++ rest)) ≡ true
unfolding framed to_le_bytes
framed_more payload rest = ground arith

read_all :
    (c : Bincode HourlyRollupRecord) (fuel : ℕ) (rs : List HourlyRollupRecord)
    (ok : All (IsSerializable c) rs)
    → length rs ≤ fuel
    → read_records c fuel (all_framed c rs ok) ≡ some rs
unfolding all_framed cons_value
read_all c fuel [] ok h = all_read c fuel [] (ground arith)
read_all c zero (r ∷ rs) ok h = absurd (omega (arith, h))
read_all c (suc fuel) (r ∷ rs) ok h =
    let payload = ok.0.0 in
    let rest = all_framed c rs ok.1 in
    turn_done c fuel (framed payload ++ rest) rest r (framed_more payload rest)
      (read_record-written c r payload rest ok.0.1.0 ok.0.1.1)
    ∙ ap (cons_value (some r)) (read_all c fuel rs ok.1 (omega (arith, h)))

-- No record is shorter than a byte.
few_records :
    (c : Bincode HourlyRollupRecord) (rs : List HourlyRollupRecord) (ok : All (IsSerializable c) rs)
    → length rs ≤ length (all_framed c rs ok)
unfolding all_framed framed to_le_bytes
few_records c [] ok = omega arith
few_records c (r ∷ rs) ok =
    omega (arith, few_records c rs ok.1, length-append (framed ok.0.0) (all_framed c rs ok.1))

abbrev grown : RollupSegmentWriter → List ℕ → ℕ → RollupSegmentWriter
grown w more n = record { bytes = w.bytes ++ more; row_count = w.row_count + n }

write_record-written :
    (c : Bincode HourlyRollupRecord) (w : RollupSegmentWriter) (r : HourlyRollupRecord)
    (payload : List ℕ)
    → ReadsBack c r payload
    → write_record c w r
      ≡ some (record { bytes = w.bytes ++ framed payload; row_count = suc w.row_count })
unfolding write_record framed
write_record-written c w r payload h = rw (write_record, h.0) refl

write_records-written :
    (c : Bincode HourlyRollupRecord) (w : RollupSegmentWriter) (rs : List HourlyRollupRecord)
    (ok : All (IsSerializable c) rs)
    → write_records c w rs ≡ some (grown w (all_framed c rs ok) (length rs))
unfolding write_records all_framed
write_records-written c w [] ok =
    ap (λ (b : List ℕ). some (record { bytes = b; row_count = w.row_count }))
      (sym (append-nil w.bytes))
    ∙ ap (λ (n : ℕ). some (record { bytes = w.bytes ++ []; row_count = n })) (omega arith)
write_records-written c w (r ∷ rs) ok =
    let payload = ok.0.0 in
    let rest = all_framed c rs ok.1 in
    let w' : RollupSegmentWriter = record {
      bytes = w.bytes ++ framed payload;
      row_count = suc w.row_count;
    } in
    rw (write_records, write_record-written c w r payload ok.0.1.0)
      (write_records-written c w' rs ok.1
        ∙ ap (λ (b : List ℕ). some (record { bytes = b; row_count = suc w.row_count + length rs }))
            (append_assoc w.bytes (framed payload) rest)
        ∙ ap
            (λ (n : ℕ).
              some (record { bytes = w.bytes ++ (framed payload ++ rest); row_count = n }))
            (omega arith))

-- A file of rollups is written, and read back as it was written, with the checksum and the number of rows
-- that the writer gives to the manifest. The condition is that bincode writes each record in fewer than
-- 2^32 bytes, and reads it back.
pub open_segment-write_records :
    (blake3 : List ℕ → List ℕ) (c : Bincode HourlyRollupRecord) (rs : List HourlyRollupRecord)
    → All (IsSerializable c) rs
    → (w : RollupSegmentWriter) × ((write_records c Files.new rs ≡ some w)
        × (((finish blake3 w).0 ≡ length rs)
            × (open_segment blake3 c w.bytes (finish blake3 w).1 ≡ at_start (some rs))))
unfolding open_segment finish Files.new
open_segment-write_records blake3 c rs ok =
    let bytes = all_framed c rs ok in
    (
      grown Files.new bytes (length rs),
      (
        write_records-written c Files.new rs ok,
        (
          omega arith,
          rw (same (checksum blake3 bytes))
              (ap at_start (read_all c (length bytes) rs ok (few_records c rs ok))),
        ),
      ),
    )
