-- ===== src/Prelude/Int.antt =====
-- Signed integers over the native numbers, with the machine arithmetic of `i64` and `i128`: wrapping,
-- saturating, and division that truncates towards zero.
use usagedb.Prelude.{
  ℕ, suc, ◌+◌, ◌-◌, ◌*◌, ◌/◌, ◌%◌, ◌^◌, ◌≤◌, ◌<◌, ◌≡◌, refl, sym, ◌⊎◌, Bool, arith, ltb, leb,
  if◌then◌else◌, List, [], ◌∷◌, ◌++◌,
}

-- `negsuc n` is -(n + 1).
pub data ℤ : Type 0 where
  pos : ℕ → ℤ
  negsuc : ℕ → ℤ

abbrev pub pos_part : ℤ → ℕ
pos_part (pos n) = n
pos_part (negsuc n) = 0

abbrev pub neg_part : ℤ → ℕ
neg_part (pos n) = 0
neg_part (negsuc n) = suc n

-- a - b, as an integer.
abbrev pub sub_ℕ : ℕ → ℕ → ℤ
sub_ℕ a b = if leb b a then pos (a - b) else negsuc (b - a - 1)

infixl 65 ◌+ℤ◌ ◌-ℤ◌
infix 50 ◌≤ℤ◌ ◌<ℤ◌
unfoldable pub ◌+ℤ◌ : ℤ → ℤ → ℤ
a +ℤ b = sub_ℕ (pos_part a + pos_part b) (neg_part a + neg_part b)

unfoldable pub ◌-ℤ◌ : ℤ → ℤ → ℤ
a -ℤ b = sub_ℕ (pos_part a + neg_part b) (neg_part a + pos_part b)

abbrev pub ◌≤ℤ◌ : ℤ → ℤ → Type 0
a ≤ℤ b = pos_part a + neg_part b ≤ pos_part b + neg_part a

abbrev pub ◌<ℤ◌ : ℤ → ℤ → Type 0
a <ℤ b = pos_part a + neg_part b < pos_part b + neg_part a

abbrev pub ltb_ℤ : ℤ → ℤ → Bool
ltb_ℤ a b = ltb (pos_part a + neg_part b) (pos_part b + neg_part a)

abbrev pub leb_ℤ : ℤ → ℤ → Bool
leb_ℤ a b = leb (pos_part a + neg_part b) (pos_part b + neg_part a)

-- `Ord::min` and `Ord::max`.
abbrev pub min_ℤ : ℤ → ℤ → ℤ
min_ℤ a b = if leb_ℤ a b then a else b

abbrev pub max_ℤ : ℤ → ℤ → ℤ
max_ℤ a b = if leb_ℤ a b then b else a

-- Rust's `/` on signed integers, by a positive divisor: towards zero.
unfoldable pub div_trunc : ℤ → ℕ → ℤ
div_trunc (pos n) d = pos (n / d)
div_trunc (negsuc n) d = sub_ℕ 0 (suc n / d)

unfoldable pub scale : ℤ → ℕ → ℤ
scale (pos n) d = pos (n * d)
scale (negsuc n) d = sub_ℕ 0 (suc n * d)

abbrev pub i64_max : ℤ
i64_max = pos 9223372036854775807

abbrev pub i64_min : ℤ
i64_min = negsuc 9223372036854775807

abbrev pub i128_max : ℤ
i128_max = pos 170141183460469231731687303715884105727

abbrev pub i128_min : ℤ
i128_min = negsuc 170141183460469231731687303715884105727

abbrev pub IsI64 : ℤ → Type 0
IsI64 z = (i64_min ≤ℤ z) × (z ≤ℤ i64_max)

abbrev pub IsI128 : ℤ → Type 0
IsI128 z = (i128_min ≤ℤ z) × (z ≤ℤ i128_max)

-- Clamping to a range: what `saturating_add` and `saturating_sub` do with the exact result.
abbrev pub clamp : ℤ → ℤ → ℤ → ℤ
clamp lo hi z = if ltb_ℤ z lo then lo else if ltb_ℤ hi z then hi else z

unfoldable pub saturating_add : ℤ → ℤ → ℤ
saturating_add a b = clamp i128_min i128_max (a +ℤ b)

unfoldable pub saturating_sub64 : ℤ → ℤ → ℤ
saturating_sub64 a b = clamp i64_min i64_max (a -ℤ b)

-- Two's complement of w bits: the bit pattern of an integer, and the integer of a bit pattern.
unfoldable pub to_bits : ℕ → ℤ → ℕ
to_bits w (pos n) = n % 2 ^ w
to_bits w (negsuc n) = 2 ^ w - 1 - n % 2 ^ w

unfoldable pub of_bits : ℕ → ℕ → ℤ
of_bits w n = if ltb n (2 ^ (w - 1)) then pos n else negsuc (2 ^ w - 1 - n)

-- `-` and `+` on `i64`, with the wrap-around of a release build (a debug build panics there).
unfoldable pub sub64 : ℤ → ℤ → ℤ
unfolding to_bits of_bits
sub64 a b = of_bits 64 (to_bits 64 (a -ℤ b))

unfoldable pub add64 : ℤ → ℤ → ℤ
unfolding to_bits of_bits
add64 a b = of_bits 64 (to_bits 64 (a +ℤ b))

unfoldable pub sum : List ℤ → ℤ
sum [] = pos 0
sum (z ∷ zs) = z +ℤ sum zs

pub +ℤ_parts :
    (a b : ℤ)
    → pos_part (a +ℤ b) + neg_part a + neg_part b ≡ neg_part (a +ℤ b) + pos_part a + pos_part b
unfolding ◌+ℤ◌
+ℤ_parts a b = ground arith

pub -ℤ_parts :
    (a b : ℤ)
    → pos_part (a -ℤ b) + neg_part a + pos_part b ≡ neg_part (a -ℤ b) + pos_part a + neg_part b
unfolding ◌-ℤ◌
-ℤ_parts a b = ground arith

pub eq_of_parts : (a b : ℤ) → pos_part a + neg_part b ≡ pos_part b + neg_part a → a ≡ b
eq_of_parts a b h = ground arith

pub ruleset int_laws = (arith, +ℤ_parts, -ℤ_parts, eq_of_parts)

pub +ℤ_comm : (a b : ℤ) → a +ℤ b ≡ b +ℤ a
+ℤ_comm a b = omega int_laws

pub +ℤ_assoc : (a b c : ℤ) → a +ℤ b +ℤ c ≡ a +ℤ (b +ℤ c)
+ℤ_assoc a b c = omega int_laws

pub zero_+ℤ : (a : ℤ) → pos 0 +ℤ a ≡ a
zero_+ℤ a = omega int_laws

pub sum-append : (xs ys : List ℤ) → sum (xs ++ ys) ≡ sum xs +ℤ sum ys
unfolding sum
sum-append [] ys = sym (zero_+ℤ (sum ys))
sum-append (x ∷ xs) ys = rw (sum-append xs ys) (sym (+ℤ_assoc x (sum xs) (sum ys)))

-- Where nothing overflows the machine operation is the exact one.
pub saturating_add_exact : (a b : ℤ) → IsI128 (a +ℤ b) → saturating_add a b ≡ a +ℤ b
unfolding saturating_add
saturating_add_exact a b h = ground arith

pub of_bits-to_bits64 : (a : ℤ) → IsI64 a → of_bits 64 (to_bits 64 a) ≡ a
unfolding of_bits to_bits
of_bits-to_bits64 a h = ground arith

pub sub64_exact : (a b : ℤ) → IsI64 (a -ℤ b) → sub64 a b ≡ a -ℤ b
unfolding sub64
sub64_exact a b h = of_bits-to_bits64 (a -ℤ b) h

pub add64_exact : (a b : ℤ) → IsI64 (a +ℤ b) → add64 a b ≡ a +ℤ b
unfolding add64
add64_exact a b h = of_bits-to_bits64 (a +ℤ b) h
