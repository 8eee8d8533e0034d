-- ===== src/Storage/Columns/Strings.antt =====
-- The columns of texts: dictionaries and indices.
use usagedb.Prelude.{
  ℕ, suc, ◌+◌, ◌^◌, ◌≤◌, ◌<◌, ◌≡◌, refl, sym, ap, ◌∙◌, Option, none, some, List, [], ◌∷◌, ◌++◌,
  String, length, length-append, get_elem?, arith, append_assoc, append-nil, Option-cases, inl, inr,
}
use usagedb.Prelude.Text.{String_discrete}
use usagedb.Prelude.Map.{get}
use usagedb.Storage.Encoding
use usagedb.Storage.Encoding.{DictionaryEncoder, encode, get_dictionary}
use usagedb.Storage.Encoding.Dictionary.{
  IsValid, new-IsValid, encode-IsValid, encode-lookup, get_elem?-append, encode_old, encode_fresh,
}
use usagedb.Storage.Columns.{
  Bincode, ReadsBack, cons_index, dict_strings, encode_dict_strings, cons_option,
  dict_option_strings, encode_dict_option_strings, cons_value, look_up, decode_dict_strings,
  look_up_option, look_up_options, decode_dict_option_strings,
}

-- A dictionary with more values behind those of another one, at most n of them.
abbrev Extends : ℕ → List String → List String → Type 0
Extends n dict dict' = (more : List String) × ((dict' ≡ dict ++ more) × (length more ≤ n))

Extends-next :
    (n : ℕ) (xs ys zs : List String) → Extends 1 xs ys → Extends n ys zs → Extends (suc n) xs zs
Extends-next n xs ys zs (more, (e, l)) (more', (e', l')) = (
  more ++ more',
  (
    e' ∙ ap (λ (t : List String). t ++ more') e ∙ append_assoc xs more more',
    omega (arith, l, l', length-append more more'),
  ),
)

encode-Extends :
    (d : DictionaryEncoder) (v : String)
    → length d.reverse_dict < 2 ^ 32
    → Extends 1 d.reverse_dict (encode d v).1.reverse_dict
encode-Extends d v small = elim (Option-cases (get String_discrete v d.dict)) [
  | inl absent ↦ rw (encode_fresh d v absent small) (v ∷ [], (refl, omega arith))
  | inr (old, present) ↦
      rw (encode_old d v old present) ([], (sym (append-nil d.reverse_dict), omega arith))
]

still_there :
    (n : ℕ) (xs ys : List String) (i : ℕ) (v : String)
    → Extends n xs ys
    → get_elem? xs i ≡ some v
    → get_elem? ys i ≡ some v
still_there n xs ys i v (more, (e, l)) h =
    ap (λ (t : List String). get_elem? t i) e ∙ get_elem?-append xs more i v h

Extends-length : (n : ℕ) (xs ys : List String) → Extends n xs ys → length ys ≤ length xs + n
Extends-length n xs ys (more, (e, l)) = omega (arith, ap length e, length-append xs more, l)

-- Where a value has been looked up, the rest of the indices follow.
abbrev Fills : DictionaryEncoder → List String → List ℕ × DictionaryEncoder → Type 0
Fills d vs r =
    (look_up (get_dictionary r.1) r.0 ≡ some vs)
    × Extends (length vs) d.reverse_dict r.1.reverse_dict

cons-Fills :
    (d d' : DictionaryEncoder) (i : ℕ) (v : String) (vs : List String)
    (r : List ℕ × DictionaryEncoder)
    → get_elem? d'.reverse_dict i ≡ some v
    → Extends 1 d.reverse_dict d'.reverse_dict
    → Fills d' vs r
    → Fills d (v ∷ vs) (cons_index i r)
unfolding cons_index look_up cons_value get_dictionary
cons-Fills d d' i v vs r h e f = (
  rw (still_there (length vs) d'.reverse_dict r.1.reverse_dict i v f.1 h, f.0) refl,
  Extends-next (length vs) d.reverse_dict d'.reverse_dict r.1.reverse_dict e f.1,
)

dict_strings-Fills :
    (d : DictionaryEncoder) (vs : List String)
    → IsValid d
    → length d.reverse_dict + length vs ≤ 2 ^ 32
    → Fills d vs (dict_strings d vs)
unfolding dict_strings look_up
dict_strings-Fills d [] ok small = (refl, ([], (sym (append-nil d.reverse_dict), omega arith)))
dict_strings-Fills d (v ∷ vs) ok small =
    let room : length d.reverse_dict < 2 ^ 32 = omega (arith, small) in
    let d' = (encode d v).1 in
    let grown = encode-Extends d v room in
    cons-Fills d d' (encode d v).0 v vs (dict_strings d' vs)
      (unfold get_dictionary in (encode-lookup d v ok room).0) grown
      (dict_strings-Fills d' vs (encode-IsValid d v ok room)
        (omega (arith, small, Extends-length 1 d.reverse_dict d'.reverse_dict grown)))

-- A column of texts is written, and read back as it was written, if bincode reads back the dictionary and the
-- indices. It has at most 2^32 rows.
pub decode_dict_strings-encode :
    (c : Bincode (List String × List ℕ)) (vs : List String) (bytes : List ℕ)
    → (let (indices, d) = dict_strings Encoding.new vs in
        ReadsBack c (get_dictionary d, indices) bytes)
    → length vs ≤ 2 ^ 32
    → (encode_dict_strings c vs ≡ some bytes) × (decode_dict_strings c bytes ≡ some vs)
unfolding decode_dict_strings encode_dict_strings
decode_dict_strings-encode c vs bytes h small = (
  h.0,
  rw (decode_dict_strings, h.1)
      (dict_strings-Fills Encoding.new vs new-IsValid (omega (arith, small))).0,
)

abbrev FillsOptions :
    DictionaryEncoder → List (Option String) → List (Option ℕ) × DictionaryEncoder → Type 0
FillsOptions d vs r =
    (look_up_options (get_dictionary r.1) r.0 ≡ some vs)
    × Extends (length vs) d.reverse_dict r.1.reverse_dict

found_option :
    (dict : List String) (i : ℕ) (v : String)
    → get_elem? dict i ≡ some v
    → look_up_option dict (some i) ≡ some (some v)
unfolding look_up_option
found_option dict i v h = rw (look_up_option, h) refl

cons-FillsOptions :
    (d d' : DictionaryEncoder) (i : ℕ) (v : String) (vs : List (Option String))
    (r : List (Option ℕ) × DictionaryEncoder)
    → get_elem? d'.reverse_dict i ≡ some v
    → Extends 1 d.reverse_dict d'.reverse_dict
    → FillsOptions d' vs r
    → FillsOptions d (some v ∷ vs) (cons_option (some i) r)
unfolding cons_option look_up_options cons_value get_dictionary
cons-FillsOptions d d' i v vs r h e f = (
  rw
      (
        found_option (get_dictionary r.1) i v
            (still_there (length vs) d'.reverse_dict r.1.reverse_dict i v f.1 h),
        f.0,
      )
      refl,
  Extends-next (length vs) d.reverse_dict d'.reverse_dict r.1.reverse_dict e f.1,
)

Extends-same : (n : ℕ) (xs ys : List String) → Extends n xs ys → Extends (suc n) xs ys
Extends-same n xs ys (more, (e, l)) = (more, (e, omega (arith, l)))

none-FillsOptions :
    (d : DictionaryEncoder) (vs : List (Option String)) (r : List (Option ℕ) × DictionaryEncoder)
    → FillsOptions d vs r
    → FillsOptions d (none ∷ vs) (cons_option none r)
unfolding cons_option look_up_options look_up_option cons_value get_dictionary
none-FillsOptions d vs r f =
    (rw f.0 refl, Extends-same (length vs) d.reverse_dict r.1.reverse_dict f.1)

dict_option_strings-Fills :
    (d : DictionaryEncoder) (vs : List (Option String))
    → IsValid d
    → length d.reverse_dict + length vs ≤ 2 ^ 32
    → FillsOptions d vs (dict_option_strings d vs)
unfolding dict_option_strings look_up_options
dict_option_strings-Fills d [] ok small =
    (refl, ([], (sym (append-nil d.reverse_dict), omega arith)))
dict_option_strings-Fills d (none ∷ vs) ok small =
    none-FillsOptions d vs (dict_option_strings d vs)
      (dict_option_strings-Fills d vs ok (omega (arith, small)))
dict_option_strings-Fills d (some v ∷ vs) ok small =
    let room : length d.reverse_dict < 2 ^ 32 = omega (arith, small) in
    let d' = (encode d v).1 in
    let grown = encode-Extends d v room in
    cons-FillsOptions d d' (encode d v).0 v vs (dict_option_strings d' vs)
      (unfold get_dictionary in (encode-lookup d v ok room).0) grown
      (dict_option_strings-Fills d' vs (encode-IsValid d v ok room)
        (omega (arith, small, Extends-length 1 d.reverse_dict d'.reverse_dict grown)))

-- A column of texts that may be absent is written, and read back as it was written, if bincode reads back the
-- dictionary and the indices. It has at most 2^32 rows.
pub decode_dict_option_strings-encode :
    (c : Bincode (List String × List (Option ℕ))) (vs : List (Option String)) (bytes : List ℕ)
    → (let (indices, d) = dict_option_strings Encoding.new vs in
        ReadsBack c (get_dictionary d, indices) bytes)
    → length vs ≤ 2 ^ 32
    → (encode_dict_option_strings c vs ≡ some bytes)
      × (decode_dict_option_strings c bytes ≡ some vs)
unfolding decode_dict_option_strings encode_dict_option_strings
decode_dict_option_strings-encode c vs bytes h small = (
  h.0,
  rw (decode_dict_option_strings, h.1)
      (dict_option_strings-Fills Encoding.new vs new-IsValid (omega (arith, small))).0,
)
