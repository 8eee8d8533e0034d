-- ===== src/Storage/Encoding/RoundTrips.antt =====
-- src/storage/encoding.rs: the codings against their decodings.
use usagedb.Prelude.{ℕ, ◌<◌, ◌^◌, ◌≡◌, refl, List, [], ◌∷◌, arith, All}
use usagedb.Prelude.Int.{ℤ, pos, negsuc, to_bits, of_bits, sub64, add64, IsI64, IsI128, ◌+ℤ◌, ◌-ℤ◌}
use usagedb.Storage.Encoding.{
  deltas_from, encode_deltas, values_from, decode_deltas, zigzag_encode, zigzag_decode,
}

-- The zigzag coding is inverted for every `i128`.
pub zigzag_decode-encode : (n : ℤ) → IsI128 n → zigzag_decode (zigzag_encode n) ≡ n
unfolding zigzag_decode zigzag_encode to_bits of_bits
zigzag_decode-encode (pos n) h = ground arith
zigzag_decode-encode (negsuc n) h = ground arith

-- And every `u128` is the code of the number that it decodes to.
pub zigzag_encode-decode : (n : ℕ) → n < 2 ^ 128 → zigzag_encode (zigzag_decode n) ≡ n
unfolding zigzag_decode zigzag_encode to_bits of_bits
zigzag_encode-decode n h = ground arith

add64-sub64 : (a b : ℤ) → IsI64 a → IsI64 b → add64 a (sub64 b a) ≡ b
unfolding sub64 add64 ◌+ℤ◌ ◌-ℤ◌
add64-sub64 (pos a) (pos b) h k = ground arith
add64-sub64 (pos a) (negsuc b) h k = ground arith
add64-sub64 (negsuc a) (pos b) h k = ground arith
add64-sub64 (negsuc a) (negsuc b) h k = ground arith

values_from-deltas_from :
    (last : ℤ) (vs : List ℤ)
    → IsI64 last
    → All IsI64 vs
    → values_from last (deltas_from last vs) ≡ vs
unfolding values_from deltas_from
values_from-deltas_from last [] h k = refl
values_from-deltas_from last (v ∷ vs) h k =
    rw (add64-sub64 last v h k.0) (rw (values_from-deltas_from v vs k.0 k.1) refl)

-- The delta coding is inverted for every list of `i64`, whether or not a difference overflows.
pub decode_deltas-encode : (vs : List ℤ) → All IsI64 vs → decode_deltas (encode_deltas vs) ≡ vs
unfolding decode_deltas encode_deltas
decode_deltas-encode vs h = values_from-deltas_from (pos 0) vs (omega arith, omega arith) h
