-- ===== src/Rollup/Files.antt =====
-- src/rollup/writer.rs and src/rollup/reader.rs: the bytes of a file of rollups.
-- blake3 and bincode are parameters; creating, flushing and reading the file are left to the caller.
pub mod RoundTrip
pub mod Ending
use usagedb.Prelude.{
  ℕ, zero, suc, ◌%◌, ◌^◌, Bool, true, false, Option, none, some, List, [], ◌∷◌, ◌++◌, ltb, ◌==◌,
  not, length, take, drop, get_elem?, if◌then◌else◌,
}
use usagedb.Model.{from_le_bytes}
use usagedb.Storage.Columns.{Bincode, to_le_bytes, cons_value}
use usagedb.Storage.DedupeIndex.{checksum}
use usagedb.Rollup.{HourlyRollupRecord}

-- The bytes are those that have been written to the file.
pub record RollupSegmentWriter : Type 0 where
  pub bytes : List ℕ
  pub row_count : ℕ

unfoldable pub new : RollupSegmentWriter
new = record { bytes = []; row_count = 0 }

-- `none` is an error of bincode.
unfoldable pub write_record :
    Bincode HourlyRollupRecord
    → RollupSegmentWriter
    → HourlyRollupRecord
    → Option RollupSegmentWriter
unfolding to_le_bytes
write_record c w r = elim (c.serialize r) [
  | none ↦ none
  | some payload ↦ some (record {
    bytes = w.bytes ++ (to_le_bytes 4 (length payload % 2 ^ 32) ++ payload);
    row_count = suc w.row_count;
  })
]

-- The loop of `write_rollup_segment`.
unfoldable pub write_records :
    Bincode HourlyRollupRecord
    → RollupSegmentWriter
    → List HourlyRollupRecord
    → Option RollupSegmentWriter
unfolding write_record
write_records c w [] = some w
write_records c w (r ∷ rs) = elim (write_record c w r) [
  | none ↦ none
  | some w' ↦ write_records c w' rs
]

unfoldable pub finish : (List ℕ → List ℕ) → RollupSegmentWriter → ℕ × ℕ
finish blake3 w = (w.row_count, checksum blake3 w.bytes)

pub record RollupSegmentReader : Type 0 where
  pub records : List HourlyRollupRecord
  pub cursor : ℕ

unfoldable pub with_rest : List ℕ → Option HourlyRollupRecord → Option (HourlyRollupRecord × List ℕ)
with_rest rest none = none
with_rest rest (some r) = some (r, rest)

-- A record of a given length, and what follows it.
unfoldable pub read_payload :
    Bincode HourlyRollupRecord → ℕ → List ℕ → Option (HourlyRollupRecord × List ℕ)
unfolding with_rest
read_payload c len bytes =
    if ltb (length bytes) len
    then none
    else with_rest (drop len bytes) (c.deserialize (take len bytes))

-- One turn of the loop of `RollupSegmentReader::open`, on the bytes from the offset on.
unfoldable pub read_record :
    Bincode HourlyRollupRecord → List ℕ → Option (HourlyRollupRecord × List ℕ)
read_record c bytes =
    if ltb (length bytes) 4
    then none
    else read_payload c (from_le_bytes (take 4 bytes)) (drop 4 bytes)

-- The loop, on fuel. Each turn reads a byte at least, so the length of the bytes is enough.
unfoldable pub read_records :
    Bincode HourlyRollupRecord → ℕ → List ℕ → Option (List HourlyRollupRecord)
unfolding cons_value
read_records c zero bytes = if ltb 0 (length bytes) then none else some []
read_records c (suc fuel) bytes = elim (ltb 0 (length bytes)) [
  | false ↦ some []
  | true ↦ elim (read_record c bytes) [
    | none ↦ none
    | some (r, rest) ↦ cons_value (some r) (read_records c fuel rest)
  ]
]

unfoldable pub at_start : Option (List HourlyRollupRecord) → Option RollupSegmentReader
at_start none = none
at_start (some records) = some (record { records = records; cursor = 0 })

-- `none` is a file that is not what the manifest expects, or is malformed.
unfoldable pub open_segment :
    (List ℕ → List ℕ) → Bincode HourlyRollupRecord → List ℕ → ℕ → Option RollupSegmentReader
unfolding at_start
open_segment blake3 c bytes expected_checksum =
    if not (checksum blake3 bytes == expected_checksum)
    then none
    else at_start (read_records c (length bytes) bytes)

unfoldable pub read_next : RollupSegmentReader → Option HourlyRollupRecord × RollupSegmentReader
read_next reader =
    if ltb reader.cursor (length reader.records)
    then (get_elem? reader.records reader.cursor, record reader { cursor = suc reader.cursor })
    else (none, reader)
