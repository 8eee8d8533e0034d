-- ===== src/Prelude/Text.antt =====
-- Texts: equality as a decision, the bytes of a text in UTF-8, and the order of Rust's `str`.
use Prim.Native.Char.{code}
use text.Mathlib.Text.{◌==◌ as str_eq}
use text.Mathlib.TextEquality.{eq_iff}
use usagedb.Prelude.{
  ℕ, ◌+◌, ◌/◌, ◌%◌, ◌≡◌, refl, String, Bool, true, false, List, [], ◌∷◌, ◌++◌, ltb, ◌==◌, arith,
  if◌then◌else◌,
}

unfoldable pub decide_by : {P : Type 0} (b : Bool) → (b ≡ true → P) → (P → b ≡ true) → Dec P
decide_by true f g = yes (f refl)
decide_by false f g = no (λ p. cc (g p))

unfoldable pub String_discrete : Discrete String
unfolding decide_by
String_discrete s t = decide_by (str_eq s t) (eq_iff s t).0 (eq_iff s t).1

abbrev pub codes : String → List ℕ
codes String.[] = []
codes (String.◌∷◌ c s) = code c ∷ codes s

-- `as_bytes`: UTF-8.
unfoldable pub utf8_char : ℕ → List ℕ
utf8_char c =
    if ltb c 0x80
    then c ∷ []
    else if ltb c 0x800
    then (0xc0 + c / 64) ∷ (0x80 + c % 64) ∷ []
    else if ltb c 0x1_0000
    then (0xe0 + c / 4096) ∷ (0x80 + c / 64 % 64) ∷ (0x80 + c % 64) ∷ []
    else (0xf0 + c / 262144) ∷ (0x80 + c / 4096 % 64) ∷ (0x80 + c / 64 % 64) ∷ (0x80 + c % 64) ∷ []

unfoldable pub utf8 : List ℕ → List ℕ
unfolding utf8_char
utf8 [] = []
utf8 (c ∷ cs) = utf8_char c ++ utf8 cs

-- `s < t`: lexicographic. UTF-8 keeps the order of the code points, so these are compared.
unfoldable pub lex_lt : List ℕ → List ℕ → Bool
lex_lt [] [] = false
lex_lt [] (d ∷ ds) = true
lex_lt (c ∷ cs) [] = false
lex_lt (c ∷ cs) (d ∷ ds) = if ltb c d then true else if c == d then lex_lt cs ds else false

unfoldable pub str_lt : String → String → Bool
unfolding lex_lt
str_lt s t = lex_lt (codes s) (codes t)

lex_lt_irrefl : (cs : List ℕ) → lex_lt cs cs ≡ false
unfolding lex_lt
lex_lt_irrefl [] = refl
lex_lt_irrefl (c ∷ cs) = ground (arith, lex_lt_irrefl cs)

-- `s < t` is false and `t < u` is false: then `s < u` is false.
lex_le_trans : (a b c : List ℕ) → lex_lt b a ≡ false → lex_lt c b ≡ false → lex_lt c a ≡ false
unfolding lex_lt
lex_le_trans [] [] [] p q = refl
lex_le_trans [] [] (z ∷ zs) p q = q
lex_le_trans [] (y ∷ ys) [] p q = refl
lex_le_trans [] (y ∷ ys) (z ∷ zs) p q = refl
lex_le_trans (x ∷ xs) [] c p q = cc
lex_le_trans (x ∷ xs) (y ∷ ys) [] p q = cc
lex_le_trans (x ∷ xs) (y ∷ ys) (z ∷ zs) p q = ground (arith, lex_le_trans xs ys zs)

lex_lt_asym : (a b : List ℕ) → lex_lt a b ≡ true → lex_lt b a ≡ false
unfolding lex_lt
lex_lt_asym [] [] p = refl
lex_lt_asym [] (y ∷ ys) p = refl
lex_lt_asym (x ∷ xs) [] p = cc
lex_lt_asym (x ∷ xs) (y ∷ ys) p = ground (arith, lex_lt_asym xs ys)

pub str_lt_irrefl : (s : String) → str_lt s s ≡ false
unfolding str_lt
str_lt_irrefl s = lex_lt_irrefl (codes s)

pub str_le_trans : (s t u : String) → str_lt t s ≡ false → str_lt u t ≡ false → str_lt u s ≡ false
unfolding str_lt
str_le_trans s t u = lex_le_trans (codes s) (codes t) (codes u)

pub str_lt_asym : (s t : String) → str_lt s t ≡ true → str_lt t s ≡ false
unfolding str_lt
str_lt_asym s t = lex_lt_asym (codes s) (codes t)
