-- ===== src/Storage/Encoding.antt =====
-- src/storage/encoding.rs: the dictionary, the delta coding and the zigzag coding.
-- A bit pattern is the natural number that it stands for.
pub mod RoundTrips
pub mod Dictionary
use usagedb.Prelude.{
  ℕ, ◌+◌, ◌-◌, ◌*◌, ◌/◌, ◌%◌, ◌^◌, ◌==◌, Bool, true, false, Option, none, some, List, [], ◌∷◌, ◌++◌,
  String, length, if◌then◌else◌,
}
use usagedb.Prelude.Int.{ℤ, pos, negsuc, to_bits, of_bits, sub64, add64}
use usagedb.Prelude.Text.{String_discrete}
use usagedb.Prelude.Map.{get, insert}

pub record DictionaryEncoder : Type 0 where
  pub dict : List (String × ℕ)
  pub reverse_dict : List String

abbrev pub new : DictionaryEncoder
new = record { dict = []; reverse_dict = [] }

-- The cast `as u32` keeps the low 32 bits.
unfoldable pub encode_new : DictionaryEncoder → String → ℕ × DictionaryEncoder
encode_new d value =
    let id = length d.reverse_dict % 2 ^ 32 in
    (
      id,
      record {
        dict = insert String_discrete value id d.dict;
        reverse_dict = d.reverse_dict ++ value ∷ [];
      },
    )

unfoldable pub encode : DictionaryEncoder → String → ℕ × DictionaryEncoder
unfolding encode_new
encode d value = elim (get String_discrete value d.dict) [
  | some id ↦ (id, d)
  | none ↦ encode_new d value
]

unfoldable pub get_dictionary : DictionaryEncoder → List String
get_dictionary d = d.reverse_dict

-- The loops, from the value of `last`.
unfoldable pub deltas_from : ℤ → List ℤ → List ℤ
deltas_from last [] = []
deltas_from last (v ∷ vs) = sub64 v last ∷ deltas_from v vs

unfoldable pub encode_deltas : List ℤ → List ℤ
unfolding deltas_from
encode_deltas values = deltas_from (pos 0) values

unfoldable pub values_from : ℤ → List ℤ → List ℤ
values_from last [] = []
values_from last (d ∷ ds) = let v = add64 last d in v ∷ values_from v ds

unfoldable pub decode_deltas : List ℤ → List ℤ
unfolding values_from
decode_deltas deltas = values_from (pos 0) deltas

-- The exclusive or of 128 bits with a pattern of 128 equal bits.
unfoldable pub xor_all : Bool → ℕ → ℕ
xor_all true bits = 2 ^ 128 - 1 - bits
xor_all false bits = bits

-- `n >> 127` is 0 or -1.
unfoldable pub is_negative : ℤ → Bool
is_negative (pos n) = false
is_negative (negsuc n) = true

unfoldable pub zigzag_encode : ℤ → ℕ
unfolding xor_all is_negative
zigzag_encode n = xor_all (is_negative n) ((2 * to_bits 128 n) % 2 ^ 128)

-- `-((n & 1) as i128)` is 0 or -1.
unfoldable pub zigzag_decode : ℕ → ℤ
unfolding xor_all
zigzag_decode n = of_bits 128 (xor_all (n % 2 == 1) (n / 2))
