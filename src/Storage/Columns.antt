-- ===== src/Storage/Columns.antt =====
-- src/storage/segment_writer.rs and src/storage/segment_reader.rs: the encodings of the columns.
-- A byte is a number below 256. bincode is a parameter for each type that it writes; `none` is an error.
-- The two loops that build a dictionary here are those of `DictionaryEncoder::encode`.
pub mod Strings
pub mod Runs
pub mod Varints
use usagedb.Prelude.{
  ℕ, zero, suc, ◌+◌, ◌-◌, ◌*◌, ◌/◌, ◌%◌, ◌^◌, ◌≡◌, Bool, true, false, Option, none, some, List, [],
  ◌∷◌, ◌++◌, String, ltb, leb, ◌==◌, length, take, drop, replicate, get_elem?, if◌then◌else◌,
}
use usagedb.Prelude.Int.{ℤ}
use usagedb.Model.{from_le_bytes}
use usagedb.Storage.Encoding
use usagedb.Storage.Encoding.{
  DictionaryEncoder, encode, get_dictionary, encode_deltas, decode_deltas, zigzag_encode,
  zigzag_decode,
}

pub record Bincode (A : Type 0) : Type 0 where
  pub serialize : A → Option (List ℕ)
  pub deserialize : List ℕ → Option A

-- What bincode promises: what it has written is read back.
abbrev pub ReadsBack : {A : Type 0} → Bincode A → A → List ℕ → Type 0
ReadsBack c x bytes = (c.serialize x ≡ some bytes) × (c.deserialize bytes ≡ some x)

-- `to_le_bytes` of a number with n bytes.
unfoldable pub to_le_bytes : ℕ → ℕ → List ℕ
to_le_bytes zero x = []
to_le_bytes (suc n) x = x % 256 ∷ to_le_bytes n (x / 256)

unfoldable pub cons_index : ℕ → List ℕ × DictionaryEncoder → List ℕ × DictionaryEncoder
cons_index i (indices, d) = (i ∷ indices, d)

-- `encode_dict_strings`: the indices and the dictionary.
unfoldable pub dict_strings : DictionaryEncoder → List String → List ℕ × DictionaryEncoder
unfolding cons_index
dict_strings d [] = ([], d)
dict_strings d (v ∷ vs) = let (i, d') = encode d v in cons_index i (dict_strings d' vs)

unfoldable pub encode_dict_strings : Bincode (List String × List ℕ) → List String → Option (List ℕ)
unfolding dict_strings get_dictionary
encode_dict_strings c values =
    let (indices, d) = dict_strings Encoding.new values in c.serialize (get_dictionary d, indices)

unfoldable pub cons_option :
    Option ℕ → List (Option ℕ) × DictionaryEncoder → List (Option ℕ) × DictionaryEncoder
cons_option i (indices, d) = (i ∷ indices, d)

unfoldable pub dict_option_strings :
    DictionaryEncoder → List (Option String) → List (Option ℕ) × DictionaryEncoder
unfolding cons_option
dict_option_strings d [] = ([], d)
dict_option_strings d (none ∷ vs) = cons_option none (dict_option_strings d vs)
dict_option_strings d (some v ∷ vs) =
    let (i, d') = encode d v in cons_option (some i) (dict_option_strings d' vs)

unfoldable pub encode_dict_option_strings :
    Bincode (List String × List (Option ℕ)) → List (Option String) → Option (List ℕ)
unfolding dict_option_strings get_dictionary
encode_dict_option_strings c values =
    let (indices, d) = dict_option_strings Encoding.new values in
    c.serialize (get_dictionary d, indices)

unfoldable pub cons_value : {A : Type 0} → Option A → Option (List A) → Option (List A)
cons_value none rest = none
cons_value (some v) none = none
cons_value (some v) (some vs) = some (v ∷ vs)

-- The Dictionary branch of `decode_strings`.
unfoldable pub look_up : List String → List ℕ → Option (List String)
unfolding cons_value
look_up dict [] = some []
look_up dict (i ∷ indices) = cons_value (get_elem? dict i) (look_up dict indices)

unfoldable pub decode_dict_strings : Bincode (List String × List ℕ) → List ℕ → Option (List String)
unfolding look_up
decode_dict_strings c bytes = elim (c.deserialize bytes) [
  | none ↦ none
  | some (dict, indices) ↦ look_up dict indices
]

unfoldable pub look_up_option : List String → Option ℕ → Option (Option String)
look_up_option dict none = some none
look_up_option dict (some i) = elim (get_elem? dict i) [ none ↦ none | some v ↦ some (some v) ]

unfoldable pub look_up_options : List String → List (Option ℕ) → Option (List (Option String))
unfolding cons_value look_up_option
look_up_options dict [] = some []
look_up_options dict (i ∷ indices) =
    cons_value (look_up_option dict i) (look_up_options dict indices)

-- The Dictionary branch of `decode_option_strings`.
unfoldable pub decode_dict_option_strings :
    Bincode (List String × List (Option ℕ)) → List ℕ → Option (List (Option String))
unfolding look_up_options
decode_dict_option_strings c bytes = elim (c.deserialize bytes) [
  | none ↦ none
  | some (dict, indices) ↦ look_up_options dict indices
]

unfoldable pub encode_delta_i64 : Bincode (List ℤ) → List ℤ → Option (List ℕ)
unfolding encode_deltas
encode_delta_i64 c values = c.serialize (encode_deltas values)

-- The Delta branch of `decode_i64`.
unfoldable pub decode_delta_i64 : Bincode (List ℤ) → List ℕ → Option (List ℤ)
unfolding decode_deltas
decode_delta_i64 c bytes = elim (c.deserialize bytes) [
  | none ↦ none
  | some deltas ↦ some (decode_deltas deltas)
]

-- The loop that writes one number, on fuel: a `u128` has at most 19 groups of 7 bits, so 18 is enough.
unfoldable pub varint : ℕ → ℕ → List ℕ
varint zero x = x % 256 ∷ []
varint (suc k) x =
    let rest = varint k (x / 128) in if ltb x 128 then x ∷ [] else (x % 128 + 128) ∷ rest

unfoldable pub varints : List ℤ → List ℕ
unfolding zigzag_encode
varints [] = []
varints (v ∷ vs) = varint 18 (zigzag_encode v) ++ varints vs

unfoldable pub encode_zigzag_varint_i128 : List ℤ → List ℕ
unfolding to_le_bytes
encode_zigzag_varint_i128 values = to_le_bytes 4 (length values % 2 ^ 32) ++ varints values

-- The loop that reads one number. The groups do not overlap, so their disjunction is their sum.
unfoldable pub read_varint : List ℕ → ℕ → ℕ → Option (ℕ × List ℕ)
read_varint [] x shift = none
read_varint (b ∷ bytes) x shift =
    let x' = x + (b % 128 * 2 ^ shift) % 2 ^ 128 in
    let rest = read_varint bytes x' (shift + 7) in
    if ltb b 128 then some (x', bytes) else if leb 128 (shift + 7) then none else rest

unfoldable pub read_varints : ℕ → List ℕ → Option (List ℤ)
unfolding zigzag_decode cons_value
read_varints zero bytes = some []
read_varints (suc count) bytes = elim (read_varint bytes 0 0) [
  | none ↦ none
  | some (x, rest) ↦ cons_value (some (zigzag_decode x)) (read_varints count rest)
]

unfoldable pub decode_zigzag_varint : List ℕ → Option (List ℤ)
unfolding from_le_bytes
decode_zigzag_varint bytes =
    if ltb (length bytes) 4
    then none
    else read_varints (from_le_bytes (take 4 bytes)) (drop 4 bytes)

-- `count.saturating_add(1)` on a `u32`.
unfoldable pub add_one : ℕ → ℕ
add_one count = if ltb count 4294967295 then suc count else 4294967295

-- The loop of `encode_rle_u8`, with the run so far.
unfoldable pub runs_from : ℕ → ℕ → List ℕ → List (ℕ × ℕ)
unfolding add_one
runs_from current count [] = (current, count) ∷ []
runs_from current count (v ∷ vs) = elim (v == current) [
  | true ↦ runs_from current (add_one count) vs
  | false ↦ (current, count) ∷ runs_from v 1 vs
]

unfoldable pub runs_of : List ℕ → List (ℕ × ℕ)
unfolding runs_from
runs_of [] = []
runs_of (v ∷ vs) = runs_from v 1 vs

unfoldable pub encode_rle_u8 : Bincode (List (ℕ × ℕ)) → List ℕ → Option (List ℕ)
unfolding runs_of
encode_rle_u8 c values = c.serialize (runs_of values)

unfoldable pub append_run : ℕ → ℕ → Option (List ℕ) → Option (List ℕ)
append_run v c none = none
append_run v c (some out) = some (replicate c v ++ out)

-- The loop of `decode_rle_u8`, with the length of the output so far.
unfoldable pub expand_runs : ℕ → List (ℕ × ℕ) → Option (List ℕ)
unfolding append_run
expand_runs len [] = some []
expand_runs len ((v, c) ∷ runs) =
    let rest = append_run v c (expand_runs (len + c) runs) in
    if ltb 10000000000 (len + c) then none else rest

unfoldable pub decode_rle_u8 : Bincode (List (ℕ × ℕ)) → List ℕ → Option (List ℕ)
unfolding expand_runs
decode_rle_u8 c bytes = elim (c.deserialize bytes) [ none ↦ none | some runs ↦ expand_runs 0 runs ]
