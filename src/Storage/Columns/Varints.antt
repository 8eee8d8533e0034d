-- ===== src/Storage/Columns/Varints.antt =====
-- The column of quantities: zigzag and variable-length numbers.
use usagedb.Prelude.{
  ℕ, zero, suc, ◌+◌, ◌*◌, ◌/◌, ◌%◌, ◌^◌, ◌≤◌, ◌<◌, ◌≡◌, refl, sym, ap, ◌∙◌, some, List, [], ◌∷◌,
  ◌++◌, length, arith, All, append_assoc, append-nil, false, Bool-cases, ltb, ltb→lt, inl, inr,
}
use native.Mathlib.Nat.{div-add-mod}
use native.Mathlib.Numerals.{towards_suc}
use usagedb.Prelude.Int.{ℤ, pos, negsuc, to_bits, IsI128}
use usagedb.Model.{from_le_bytes}
use usagedb.Storage.Encoding.{zigzag_encode, zigzag_decode}
use usagedb.Storage.Encoding.RoundTrips.{zigzag_decode-encode}
use usagedb.Storage.Columns.{
  to_le_bytes, varint, varints, encode_zigzag_varint_i128, read_varint, read_varints,
  decode_zigzag_varint, cons_value,
}

-- A number in place p is its lowest group in place p and the others in the place of the next group.
regroup : (x p : ℕ) → x % 128 * p + x / 128 * (p * 128) ≡ x * p
regroup x p = omega (arith, ap (λ (y : ℕ). y * p) (div-add-mod x 128))

next_place : (shift : ℕ) → 2 ^ shift * 128 ≡ 2 ^ (shift + 7)
next_place shift = sym (simp towards_suc (omega arith))

groups_sum : (x shift : ℕ) → x % 128 * 2 ^ shift + x / 128 * 2 ^ (shift + 7) ≡ x * 2 ^ shift
groups_sum x shift =
    ap (λ (place : ℕ). x % 128 * 2 ^ shift + x / 128 * place) (sym (next_place shift))
    ∙ regroup x (2 ^ shift)

low_group : (b : ℕ) → b < 128 → b % 128 ≡ b
low_group b h = ground arith

below_mod : (x : ℕ) → x < 2 ^ 128 → x % 2 ^ 128 ≡ x
below_mod x h = ground arith

small_mod : (b p : ℕ) → b < 128 → b * p < 2 ^ 128 → (b % 128 * p) % 2 ^ 128 ≡ b * p
small_mod b p h k = ap (λ (t : ℕ). (t * p) % 2 ^ 128) (low_group b h) ∙ below_mod (b * p) k

low_byte : (b : ℕ) → b < 128 → b % 256 ≡ b
low_byte b h = ground arith

divided : (k w : ℕ) → w < 128 ^ suc (suc k) → w / 128 < 128 ^ suc k
divided k w h = omega (arith, h)

high_group : (g : ℕ) → g < 128 → (g + 128) % 128 ≡ g
high_group g h = ground arith

last_byte :
    (w x shift : ℕ) (rest : List ℕ)
    → w < 128
    → x + w * 2 ^ shift < 2 ^ 128
    → read_varint (w ∷ rest) x shift ≡ some (x + w * 2 ^ shift, rest)
unfolding read_varint
last_byte w x shift rest hw fits =
    rw (small_mod w (2 ^ shift) hw (omega (arith, fits))) (ground (arith, hw))

inner_byte :
    (g x shift : ℕ) (rest : List ℕ)
    → g < 128
    → shift + 7 < 128
    → x + g * 2 ^ shift < 2 ^ 128
    → read_varint ((g + 128) ∷ rest) x shift ≡ read_varint rest (x + g * 2 ^ shift) (shift + 7)
unfolding read_varint
inner_byte g x shift rest hg hs fits =
    rw (high_group g hg, below_mod (g * 2 ^ shift) (omega (arith, fits))) (ground (arith, hg, hs))

-- What is left of a number is written behind the groups that have been read.
read_varint-varint :
    (k w x shift : ℕ) (rest : List ℕ)
    → w < 128 ^ suc k
    → shift + 7 * k ≤ 126
    → x + w * 2 ^ shift < 2 ^ 128
    → read_varint (varint k w ++ rest) x shift ≡ some (x + w * 2 ^ shift, rest)
unfolding varint
read_varint-varint zero w x shift rest hw hs fits =
    rw (low_byte w (omega (arith, hw))) (last_byte w x shift rest (omega (arith, hw)) fits)
read_varint-varint (suc k) w x shift rest hw hs fits = elim (Bool-cases (ltb w 128)) [
  | inl small ↦ rw (varint, small) (last_byte w x shift rest (ltb→lt w 128 small) fits)
  | inr large ↦
      rw (varint, large)
        (inner_byte (w % 128) x shift (varint k (w / 128) ++ rest) (ground arith)
            (omega (arith, hs)) (omega (arith, fits, groups_sum w shift))
          ∙ read_varint-varint k (w / 128) (x + w % 128 * 2 ^ shift) (shift + 7) rest
              (divided k w hw) (omega (arith, hs)) (omega (arith, fits, groups_sum w shift))
          ∙ ap (λ (t : ℕ). some (t, rest)) (omega (arith, groups_sum w shift)))
]

-- A `u128` that is written is read back, with what follows it.
read_varint_whole :
    (w : ℕ) (rest : List ℕ) → w < 2 ^ 128 → read_varint (varint 18 w ++ rest) 0 0 ≡ some (w, rest)
read_varint_whole w rest h =
    read_varint-varint 18 w 0 0 rest (omega (arith, h)) (omega arith) (omega (arith, h))
    ∙ ap (λ (t : ℕ). some (t, rest)) (omega arith)

zigzag_fits : (n : ℤ) → IsI128 n → zigzag_encode n < 2 ^ 128
unfolding zigzag_encode to_bits
zigzag_fits (pos n) h = ground arith
zigzag_fits (negsuc n) h = ground arith

read_next :
    (n x : ℕ) (bytes rest : List ℕ)
    → read_varint bytes 0 0 ≡ some (x, rest)
    → read_varints (suc n) bytes ≡ cons_value (some (zigzag_decode x)) (read_varints n rest)
unfolding read_varints
read_next n x bytes rest h = rw (read_varints, h) refl

read_varints-varints :
    (vs : List ℤ) (rest : List ℕ)
    → All IsI128 vs
    → read_varints (length vs) (varints vs ++ rest) ≡ some vs
unfolding varints cons_value
read_varints-varints [] rest h = unfold read_varints in refl
read_varints-varints (v ∷ vs) rest h =
    let x = zigzag_encode v in
    ap (read_varints (suc (length vs))) (append_assoc (varint 18 x) (varints vs) rest)
    ∙ read_next (length vs) x (varint 18 x ++ (varints vs ++ rest)) (varints vs ++ rest)
        (read_varint_whole x (varints vs ++ rest) (zigzag_fits v h.0))
    ∙ rw (zigzag_decode-encode v h.0, read_varints-varints vs rest h.1) refl

-- The first bytes of a number.
pub from_le_bytes-to_le_bytes : (n x : ℕ) → x < 256 ^ n → from_le_bytes (to_le_bytes n x) ≡ x
unfolding from_le_bytes to_le_bytes
from_le_bytes-to_le_bytes zero x h = omega (arith, h)
from_le_bytes-to_le_bytes (suc n) x h =
    ap (λ (t : ℕ). x % 256 + 256 * t) (from_le_bytes-to_le_bytes n (x / 256) (omega (arith, h)))
    ∙ omega (arith, div-add-mod x 256)

pub enough_bytes : (x : ℕ) (rest : List ℕ) → ltb (length (to_le_bytes 4 x ++ rest)) 4 ≡ false
unfolding to_le_bytes
enough_bytes x rest = ground arith

pub count_fits : (n : ℕ) → n < 2 ^ 32 → n % 2 ^ 32 ≡ n
count_fits n h = ground arith

-- The column of quantities is read back as it was written. The quantities are 128-bit, and there are
-- fewer than 2^32 of them.
pub decode_zigzag_varint-encode :
    (vs : List ℤ)
    → All IsI128 vs
    → length vs < 2 ^ 32
    → decode_zigzag_varint (encode_zigzag_varint_i128 vs) ≡ some vs
unfolding decode_zigzag_varint encode_zigzag_varint_i128
decode_zigzag_varint-encode vs h small =
    let n = length vs in
    rw (enough_bytes (n % 2 ^ 32) (varints vs)) (
      unfold to_le_bytes in
      ap (λ (t : ℕ). read_varints t (varints vs))
        (from_le_bytes-to_le_bytes 4 (n % 2 ^ 32) (omega arith) ∙ count_fits n small)
      ∙ ap (read_varints n) (sym (append-nil (varints vs)))
      ∙ read_varints-varints vs [] h)
