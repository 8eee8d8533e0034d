-- ===== src/Storage/DedupeIndex/RoundTrip.antt =====
-- A sidecar is read back as it was written.
use usagedb.Prelude.{
  ℕ, zero, suc, ◌+◌, ◌-◌, ◌%◌, ◌^◌, ◌≤◌, ◌<◌, ◌≡◌, refl, ap, ◌∙◌, true, false, some, List, [], ◌∷◌,
  ◌++◌, ltb, ◌==◌, ==_iff, length, length-append, take, drop, arith, All,
}
use usagedb.Model.{from_le_bytes}
use usagedb.Storage.Columns.{Bincode, ReadsBack, to_le_bytes}
use usagedb.Storage.Columns.Varints.{from_le_bytes-to_le_bytes, count_fits}
use usagedb.Storage.DedupeIndex.{
  IndexEntries, magic, checksum, sealed_bytes, index_buffer, write_dedupe_index, same_bytes,
  check_count, read_entries, read_dedupe_index,
}

pub take-append : (xs ys : List ℕ) → take (length xs) (xs ++ ys) ≡ xs
take-append [] ys = refl
take-append (x ∷ xs) ys = ap (λ (t : List ℕ). x ∷ t) (take-append xs ys)

pub drop-append : (xs ys : List ℕ) → drop (length xs) (xs ++ ys) ≡ ys
drop-append [] ys = refl
drop-append (x ∷ xs) ys = drop-append xs ys

abbrev pub AreBytes : List ℕ → Type 0
AreBytes bs = All (λ (b : ℕ). b < 256) bs

from_le_bytes-lt : (n : ℕ) (bs : List ℕ) → AreBytes bs → from_le_bytes (take n bs) < 256 ^ n
unfolding from_le_bytes
from_le_bytes-lt zero bs h = omega arith
from_le_bytes-lt (suc n) [] h = omega (arith, from_le_bytes-lt n [] tt)
from_le_bytes-lt (suc n) (b ∷ bs) h = omega (arith, h.0, from_le_bytes-lt n bs h.1)

length-to_le_bytes : (n x : ℕ) → length (to_le_bytes n x) ≡ n
unfolding to_le_bytes
length-to_le_bytes zero x = refl
length-to_le_bytes (suc n) x = ap suc (length-to_le_bytes n _)

take_eight : (x : ℕ) → take 8 (to_le_bytes 8 x) ≡ to_le_bytes 8 x
unfolding to_le_bytes
take_eight x = refl

long_enough : (n : ℕ) → 20 ≤ n → ltb n 20 ≡ false
long_enough n h = ground (arith, h)

pub same : (n : ℕ) → (n == n) ≡ true
same n = (==_iff n n).1 refl

buffer_length : (n : ℕ) (body : List ℕ) → 12 ≤ length (index_buffer n body)
unfolding index_buffer to_le_bytes
buffer_length n body = omega arith

entries_back :
    (c : Bincode IndexEntries) (entries : IndexEntries) (body : List ℕ)
    → ReadsBack c entries body
    → length entries < 2 ^ 32
    → read_entries c (index_buffer (length entries) body) ≡ some entries
unfolding read_entries index_buffer check_count
entries_back c entries body h small =
    let n = length entries in
    unfold to_le_bytes in
    ap (λ (t : ℕ). check_count t (c.deserialize body))
      (from_le_bytes-to_le_bytes 4 (n % 2 ^ 32) (omega arith) ∙ count_fits n small)
    ∙ rw (h.1, same n) refl

module _ (blake3 : List ℕ → List ℕ) (hash : (bytes : List ℕ) → AreBytes (blake3 bytes)) where
  sealed_length : (buf : List ℕ) → length (sealed_bytes blake3 buf) ≡ length buf + 8
  unfolding sealed_bytes
  sealed_length buf =
      length-append buf (to_le_bytes 8 (checksum blake3 buf))
      ∙ ap (λ (t : ℕ). length buf + t) (length-to_le_bytes 8 (checksum blake3 buf))

  sealed_offset : (buf : List ℕ) → length (sealed_bytes blake3 buf) - 8 ≡ length buf
  sealed_offset buf = omega (arith, sealed_length buf)

  -- The two halves of a sealed file.
  sealed_body :
      (buf : List ℕ) → take (length (sealed_bytes blake3 buf) - 8) (sealed_bytes blake3 buf) ≡ buf
  unfolding sealed_bytes
  sealed_body buf =
      ap (λ (t : ℕ). take t (sealed_bytes blake3 buf)) (sealed_offset buf)
      ∙ take-append buf (to_le_bytes 8 (checksum blake3 buf))

  sealed_checksum :
      (buf : List ℕ)
      → from_le_bytes
          (take 8 (drop (length (sealed_bytes blake3 buf) - 8) (sealed_bytes blake3 buf)))
        ≡ checksum blake3 buf
  unfolding sealed_bytes checksum
  sealed_checksum buf =
      let cs = to_le_bytes 8 (checksum blake3 buf) in
      ap (λ (t : ℕ). from_le_bytes (take 8 (drop t (sealed_bytes blake3 buf)))) (sealed_offset buf)
      ∙ ap (λ (t : List ℕ). from_le_bytes (take 8 t)) (drop-append buf cs)
      ∙ ap from_le_bytes (take_eight (checksum blake3 buf))
      ∙ from_le_bytes-to_le_bytes 8 (checksum blake3 buf)
          (from_le_bytes-lt 8 (blake3 buf) (hash buf))

  index_length : (n : ℕ) (body : List ℕ) → 20 ≤ length (sealed_bytes blake3 (index_buffer n body))
  index_length n body = omega (arith, sealed_length (index_buffer n body), buffer_length n body)

  starts_with_magic :
      (n : ℕ) (body : List ℕ)
      → same_bytes (take 8 (sealed_bytes blake3 (index_buffer n body))) magic ≡ true
  unfolding sealed_bytes index_buffer same_bytes
  starts_with_magic n body = refl

  -- A sidecar is read back as it was written. The conditions: the bytes of a hash are bytes, bincode reads
  -- back the entries, and there are fewer than 2^32 of them.
  pub read-write_dedupe_index :
      (c : Bincode IndexEntries) (entries : IndexEntries) (body : List ℕ)
      → ReadsBack c entries body
      → length entries < 2 ^ 32
      → (bytes : List ℕ) × ((write_dedupe_index blake3 c entries ≡ some bytes)
          × (read_dedupe_index blake3 c bytes ≡ some entries))
  unfolding write_dedupe_index read_dedupe_index
  read-write_dedupe_index c entries body h small =
      let n = length entries in
      let buf = index_buffer n body in
      (
        sealed_bytes blake3 buf,
        (
          rw (write_dedupe_index, h.0) refl,
          rw
              (
                long_enough (length (sealed_bytes blake3 buf)) (index_length n body),
                starts_with_magic n body,
                sealed_body buf,
                sealed_checksum buf,
                same (checksum blake3 buf),
              )
              (entries_back c entries body h small),
        ),
      )
