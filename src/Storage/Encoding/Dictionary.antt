-- ===== src/Storage/Encoding/Dictionary.antt =====
-- src/storage/encoding.rs: the two halves of a dictionary, and its identifiers.
use usagedb.Prelude.{
  ℕ, zero, suc, ◌<◌, ◌^◌, ◌%◌, ◌≡◌, refl, none, some, List, [], ◌∷◌, ◌++◌, String, arith, length,
  get_elem?, ite, Option-cases, if_pos, ◌∙◌, inl, inr,
}
use usagedb.Prelude.Text.{String_discrete}
use usagedb.Prelude.Map.{get, insert, get-insert}
use usagedb.Storage.Encoding
use usagedb.Storage.Encoding.{DictionaryEncoder, encode, encode_new, get_dictionary}

-- Every identifier that the map holds is the place of its value in the reverse dictionary.
abbrev pub IsValid : DictionaryEncoder → Type 0
IsValid d =
    (v : String) (id : ℕ)
    → get String_discrete v d.dict ≡ some id
    → get_elem? d.reverse_dict id ≡ some v

pub new-IsValid : IsValid Encoding.new
unfolding get
new-IsValid v id h = cc

pub get_elem?-append :
    (xs ys : List String) (i : ℕ) (v : String)
    → get_elem? xs i ≡ some v
    → get_elem? (xs ++ ys) i ≡ some v
get_elem?-append [] ys i v h = cc
get_elem?-append (x ∷ xs) ys zero v h = h
get_elem?-append (x ∷ xs) ys (suc i) v h = get_elem?-append xs ys i v h

get_elem?-last : (xs : List String) (v : String) → get_elem? (xs ++ v ∷ []) (length xs) ≡ some v
get_elem?-last [] v = refl
get_elem?-last (x ∷ xs) v = get_elem?-last xs v

small_mod : (n : ℕ) → n < 2 ^ 32 → n % 2 ^ 32 ≡ n
small_mod n h = ground arith

abbrev grown : DictionaryEncoder → String → DictionaryEncoder
grown d v = record {
  dict = insert String_discrete v (length d.reverse_dict) d.dict;
  reverse_dict = d.reverse_dict ++ v ∷ [];
}

get-grown :
    (d : DictionaryEncoder) (v : String)
    → get String_discrete v (grown d v).dict ≡ some (length d.reverse_dict)
get-grown d v =
    get-insert String_discrete v v (length d.reverse_dict) d.dict
    ∙ if_pos (String_discrete v v) refl (some (length d.reverse_dict))
        (get String_discrete v d.dict)

placed :
    (d : DictionaryEncoder) (v w : String) (id : ℕ)
    → IsValid d
    → (same : Dec (v ≡ w))
    → ite same (some (length d.reverse_dict)) (get String_discrete w d.dict) ≡ some id
    → get_elem? (d.reverse_dict ++ v ∷ []) id ≡ some w
placed d v w id ok (yes same) h = ground (arith, get_elem?-last d.reverse_dict v, same)
placed d v w id ok (no other) h = get_elem?-append d.reverse_dict (v ∷ []) id w (ok w id h)

pub encode_old :
    (d : DictionaryEncoder) (v : String) (id : ℕ)
    → get String_discrete v d.dict ≡ some id
    → encode d v ≡ (id, d)
unfolding encode
encode_old d v id h = rw (encode, h) refl

pub encode_fresh :
    (d : DictionaryEncoder) (v : String)
    → get String_discrete v d.dict ≡ none
    → length d.reverse_dict < 2 ^ 32
    → encode d v ≡ (
      length d.reverse_dict,
      record {
        dict = insert String_discrete v (length d.reverse_dict) d.dict;
        reverse_dict = d.reverse_dict ++ v ∷ [];
      },
    )
unfolding encode encode_new
encode_fresh d v h small = rw (encode, h) (rw (small_mod (length d.reverse_dict) small) refl)

-- Encoding keeps the two halves in agreement, while the dictionary has fewer than 2^32 values.
pub encode-IsValid :
    (d : DictionaryEncoder) (v : String)
    → IsValid d
    → length d.reverse_dict < 2 ^ 32
    → IsValid (encode d v).1
encode-IsValid d v ok small w id = elim (Option-cases (get String_discrete v d.dict)) [
  | inl absent ↦ rw (encode_fresh d v absent small) (
      rw (get-insert String_discrete v w (length d.reverse_dict) d.dict)
        (placed d v w id ok (String_discrete v w)))
  | inr (old, present) ↦ rw (encode_old d v old present) (ok w id)
]

-- The identifier that `encode` returns names the value in the dictionary, and a value that comes again
-- gets the same identifier and changes nothing. The dictionary is valid and has fewer than 2^32 values.
pub encode-lookup :
    (d : DictionaryEncoder) (v : String)
    → IsValid d
    → length d.reverse_dict < 2 ^ 32
    → (get_elem? (get_dictionary (encode d v).1) (encode d v).0 ≡ some v)
      × (encode (encode d v).1 v ≡ encode d v)
unfolding get_dictionary
encode-lookup d v ok small = elim (Option-cases (get String_discrete v d.dict)) [
  | inl absent ↦ rw (encode_fresh d v absent small) (
    get_elem?-last d.reverse_dict v,
    encode_old (grown d v) v (length d.reverse_dict) (get-grown d v),
  )
  | inr (old, present) ↦
      rw (encode_old d v old present) (ok v old present, encode_old d v old present)
]

-- Encoding a value leaves the identifiers of all values as they are.
pub encode_keeps :
    (d : DictionaryEncoder) (v w : String) (id : ℕ)
    → length d.reverse_dict < 2 ^ 32
    → get String_discrete w d.dict ≡ some id
    → get String_discrete w (encode d v).1.dict ≡ some id
encode_keeps d v w id small h = elim (Option-cases (get String_discrete v d.dict)) [
  | inl absent ↦ rw (encode_fresh d v absent small) (
      rw (get-insert String_discrete v w (length d.reverse_dict) d.dict)
        (ground (arith, absent, h)))
  | inr (old, present) ↦ rw (encode_old d v old present) h
]
