-- ===== src/Tests/Columns.antt =====
-- Columns and a sidecar that are written and read back.
use usagedb.Prelude.{
  ℕ, ◌≡◌, ◌%◌, ◌*◌, refl, none, some, Option, List, [], ◌∷◌, String, length, arith, All,
}
use usagedb.Prelude.Int.{ℤ, pos, negsuc}
use usagedb.Storage.Columns.{
  Bincode, encode_rle_u8, decode_rle_u8, encode_dict_strings, decode_dict_strings,
  encode_dict_option_strings, decode_dict_option_strings, encode_zigzag_varint_i128,
  decode_zigzag_varint,
}
use usagedb.Storage.Columns.Runs.{decode_rle_u8-encode}
use usagedb.Storage.Columns.Strings.{decode_dict_strings-encode, decode_dict_option_strings-encode}
use usagedb.Storage.Columns.Varints.{decode_zigzag_varint-encode}
use usagedb.Rollup.Files.{
  RollupSegmentWriter, new, write_records, finish, read_records, at_start, open_segment,
}
use usagedb.Rollup.Files.RoundTrip.{IsSerializable, open_segment-write_records}
use usagedb.Rollup.Files.Ending.{read_records_enough}
use usagedb.Tests.Queries.{row}
use usagedb.Storage.DedupeIndex.{IndexEntries, write_dedupe_index, read_dedupe_index}
use usagedb.Storage.DedupeIndex.RoundTrip.{read-write_dedupe_index}

-- An encoding that knows one value.
abbrev only : {A : Type 0} → A → Bincode A
only x = record { serialize = λ y. some (7 ∷ []); deserialize = λ bytes. some x }

abbrev kinds : List ℕ
kinds = 0 ∷ 0 ∷ 2 ∷ []

decode_rle_u8-encode_example :
    (encode_rle_u8 (only ((0, 2) ∷ (2, 1) ∷ [])) kinds ≡ some (7 ∷ []))
    × (decode_rle_u8 (only ((0, 2) ∷ (2, 1) ∷ [])) (7 ∷ []) ≡ some kinds)
unfolding usagedb.Storage.Columns.runs_of usagedb.Storage.Columns.runs_from
    usagedb.Storage.Columns.add_one
decode_rle_u8-encode_example =
    decode_rle_u8-encode (only ((0, 2) ∷ (2, 1) ∷ [])) kinds (7 ∷ []) (refl, refl) (omega arith)

abbrev meters : List String
meters = "m" ∷ "n" ∷ "m" ∷ []

abbrev meter_column : List String × List ℕ
meter_column = ("m" ∷ "n" ∷ [], 0 ∷ 1 ∷ 0 ∷ [])

decode_dict_strings-encode_example :
    (encode_dict_strings (only meter_column) meters ≡ some (7 ∷ []))
    × (decode_dict_strings (only meter_column) (7 ∷ []) ≡ some meters)
unfolding usagedb.Storage.Encoding.get_dictionary usagedb.Storage.Columns.dict_strings
    usagedb.Storage.Encoding.encode usagedb.Prelude.Map.get usagedb.Prelude.Map.insert
    usagedb.Prelude.Text.String_discrete
decode_dict_strings-encode_example =
    decode_dict_strings-encode (only meter_column) meters (7 ∷ []) (refl, refl) (omega arith)

abbrev models : List (Option String)
models = some "x" ∷ none ∷ some "x" ∷ []

abbrev model_column : List String × List (Option ℕ)
model_column = ("x" ∷ [], some 0 ∷ none ∷ some 0 ∷ [])

decode_dict_option_strings-encode_example :
    (encode_dict_option_strings (only model_column) models ≡ some (7 ∷ []))
    × (decode_dict_option_strings (only model_column) (7 ∷ []) ≡ some models)
unfolding usagedb.Storage.Encoding.get_dictionary usagedb.Storage.Columns.dict_option_strings
    usagedb.Storage.Encoding.encode usagedb.Prelude.Map.get usagedb.Prelude.Map.insert
    usagedb.Prelude.Text.String_discrete
decode_dict_option_strings-encode_example =
    decode_dict_option_strings-encode (only model_column) models (7 ∷ []) (refl, refl) (omega arith)

abbrev quantities : List ℤ
quantities = pos 300 ∷ negsuc 4 ∷ []

decode_zigzag_varint-encode_example :
    decode_zigzag_varint (encode_zigzag_varint_i128 quantities) ≡ some quantities
decode_zigzag_varint-encode_example =
    decode_zigzag_varint-encode quantities (omega arith, omega arith) (omega arith)

abbrev sample_hash : List ℕ → List ℕ
sample_hash bytes = length bytes % 256 ∷ 7 ∷ []

read_records_enough_example :
    read_records (only row) 9 (9 ∷ 0 ∷ 0 ∷ 0 ∷ []) ≡ read_records (only row) 4 (9 ∷ 0 ∷ 0 ∷ 0 ∷ [])
read_records_enough_example =
    read_records_enough (only row) 9 4 (9 ∷ 0 ∷ 0 ∷ 0 ∷ []) (omega arith) (omega arith)

open_segment-write_records_example :
    (w : RollupSegmentWriter) × ((write_records (only row) new (row ∷ row ∷ []) ≡ some w)
      × (((finish sample_hash w).0 ≡ 2)
          × (open_segment sample_hash (only row) w.bytes (finish sample_hash w).1
              ≡ at_start (some (row ∷ row ∷ [])))))
open_segment-write_records_example =
    let fits : IsSerializable (only row) row = (7 ∷ [], ((refl, refl), omega arith)) in
    open_segment-write_records sample_hash (only row) (row ∷ row ∷ []) (fits, (fits, tt))

abbrev sidecar : IndexEntries
sidecar = ((1, 2), pos 50) ∷ ((3, 4), pos 51) ∷ []

read-write_dedupe_index_example :
    (bytes : List ℕ) × ((write_dedupe_index sample_hash (only sidecar) sidecar ≡ some bytes)
      × (read_dedupe_index sample_hash (only sidecar) bytes ≡ some sidecar))
read-write_dedupe_index_example =
    read-write_dedupe_index sample_hash (λ (bytes : List ℕ). (omega arith, (omega arith, tt)))
      (only sidecar) sidecar (7 ∷ []) (refl, refl) (omega arith)
