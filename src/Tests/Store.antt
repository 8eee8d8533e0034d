-- ===== src/Tests/Store.antt =====
-- The generations of the manifest and the encodings on small inputs.
use usagedb.Prelude.{
  ◌≡◌, ◌⊎◌, ◌+◌, ◌^◌, refl, inl, inr, none, some, List, [], ◌∷◌, String, arith, get_elem?, length,
  ◌<◌, ℕ, ℕ_discrete, true, Option,
}
use usagedb.Prelude.Map.{get}
use usagedb.Prelude.Text.{String_discrete}
use usagedb.Storage.Manifest.{Manifest, default_manifest}
use usagedb.Storage.Generations.{SaveAnswers, ManifestDir, no_current, save, load, walk, found}
use usagedb.Storage.Generations.Recovery.{load-save}
use usagedb.Storage.Encoding
use usagedb.Storage.Encoding.{
  DictionaryEncoder, encode, get_dictionary, encode_deltas, decode_deltas, zigzag_encode,
  zigzag_decode,
}
use usagedb.Storage.Encoding.Dictionary.{IsValid, new-IsValid, encode-IsValid}
use usagedb.Tests.Data.{save_answers, empty_dir}

was_saved : (save save_answers default_manifest empty_dir).0 ≡ true
unfolding save
was_saved = refl

load-save_example :
    (load save_answers (save save_answers default_manifest empty_dir).1.1).0
    ≡ found (save save_answers default_manifest empty_dir).1.0
load-save_example = load-save save_answers save_answers default_manifest empty_dir was_saved

abbrev stopped : SaveAnswers
stopped = record { steps = no_current; prunes = λ g. true }

-- Generation 1 can be read, 2 cannot.
abbrev damaged : ManifestDir
damaged = record {
  generations = (1, some default_manifest) ∷ (2, none) ∷ [];
  current = some (some 2);
  legacy = none;
}

abbrev second_manifest : Manifest
second_manifest = record default_manifest { current_generation = 2 }

rolled_back :
    walk 2 damaged.generations ≡ found (record default_manifest { current_generation = 1 })
unfolding walk get ℕ_discrete
rolled_back = refl

abbrev one_word : DictionaryEncoder
one_word = (encode Encoding.new "apple").1

one_word-IsValid : IsValid one_word
one_word-IsValid = encode-IsValid Encoding.new "apple" new-IsValid (omega arith)

one_word_small : length one_word.reverse_dict < 2 ^ 32
unfolding encode Encoding.encode_new get
one_word_small = omega arith

apple_known : get String_discrete "apple" one_word.dict ≡ some 0
unfolding encode Encoding.encode_new get usagedb.Prelude.Map.insert String_discrete
apple_known = refl
