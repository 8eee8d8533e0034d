-- ===== src/Storage/DedupeIndex.antt =====
-- src/storage/dedupe_index.rs: the bytes of a sidecar, with `checksum` of src/storage/segment_format.rs.
-- blake3 and bincode are parameters. A sidecar that is missing, and one that cannot be read from the disk,
-- are left to the caller.
pub mod RoundTrip
use usagedb.Prelude.{
  ℕ, zero, suc, ◌+◌, ◌-◌, ◌%◌, ◌^◌, Bool, true, false, Option, none, some, List, [], ◌∷◌, ◌++◌, ltb,
  ◌==◌, ◌&&◌, not, length, take, drop, if◌then◌else◌,
}
use usagedb.Prelude.Int.{ℤ}
use usagedb.Model.{from_le_bytes}
use usagedb.Storage.Columns.{Bincode, to_le_bytes}

abbrev pub IndexEntries : Type 0
IndexEntries = List ((ℕ × ℕ) × ℤ)

-- The bytes of "UDBIDX01".
abbrev pub magic : List ℕ
magic = 85 ∷ 68 ∷ 66 ∷ 73 ∷ 68 ∷ 88 ∷ 48 ∷ 49 ∷ []

-- The low 8 bytes of the hash.
unfoldable pub checksum : (List ℕ → List ℕ) → List ℕ → ℕ
checksum blake3 bytes = from_le_bytes (take 8 (blake3 bytes))

unfoldable pub sealed_bytes : (List ℕ → List ℕ) → List ℕ → List ℕ
sealed_bytes blake3 buf = buf ++ to_le_bytes 8 (checksum blake3 buf)

unfoldable pub index_buffer : ℕ → List ℕ → List ℕ
index_buffer count body = magic ++ (to_le_bytes 4 (count % 2 ^ 32) ++ body)

-- The bytes of the file; `none` is an error of bincode.
unfoldable pub write_dedupe_index :
    (List ℕ → List ℕ) → Bincode IndexEntries → IndexEntries → Option (List ℕ)
unfolding sealed_bytes index_buffer
write_dedupe_index blake3 c entries = elim (c.serialize entries) [
  | none ↦ none
  | some body ↦ some (sealed_bytes blake3 (index_buffer (length entries) body))
]

unfoldable pub same_bytes : List ℕ → List ℕ → Bool
same_bytes [] [] = true
same_bytes [] (y ∷ ys) = false
same_bytes (x ∷ xs) [] = false
same_bytes (x ∷ xs) (y ∷ ys) = x == y && same_bytes xs ys

unfoldable pub check_count : ℕ → Option IndexEntries → Option IndexEntries
check_count count none = none
check_count count (some entries) = if length entries == count then some entries else none

-- What follows the tests of the length, the magic and the checksum.
unfoldable pub read_entries : Bincode IndexEntries → List ℕ → Option IndexEntries
unfolding check_count
read_entries c body =
    check_count (from_le_bytes (take 4 (drop 8 body))) (c.deserialize (drop 12 body))

-- `none` is a corrupt index.
unfoldable pub read_dedupe_index :
    (List ℕ → List ℕ) → Bincode IndexEntries → List ℕ → Option IndexEntries
read_dedupe_index blake3 c bytes =
    let cs_off = length bytes - 8 in
    let stored_cs = from_le_bytes (take 8 (drop cs_off bytes)) in
    let body = take cs_off bytes in
    if ltb (length bytes) 20
    then none
    else if not (same_bytes (take 8 bytes) magic)
    then none
    else if not (checksum blake3 body == stored_cs)
    then none
    else read_entries c body
