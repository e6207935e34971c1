-- ===== src/Tests/Binding.antt =====
-- The hash of a header and the items behind it.
use mathlib.Core.Path.{subst}
use mathlib.Core.Option.{some-injective}
use helios_bsc.Prelude.{
  ℕ, ◌<◌, ◌≡◌, ◌⊎◌, refl, Option, none, some, List, [], ◌∷◌, Bytes, length, All, arith, Result, ok,
  err,
}
use helios_bsc.Prelude.Words.{IsByte}
use helios_bsc.Tests.Samples.{sample_external, unhex, pairs}
use helios_bsc.Tests.Chain.{sealed_header}
use helios_bsc.Types.External.{Collision}
use helios_bsc.Types.Hex.{
  to_digit, strip_0x, digits_from, from_str_radix, decode_raw_u64, decode_u64, decode_hex,
  decode_hex_fixed,
}
use helios_bsc.Rlp.Encode.{
  to_be_bytes, position_nonzero, len_be, encode_string, encode_bytes, encode_uint128, concat,
  list_header, encode_list,
}
use helios_bsc.Consensus.Seal.Hash.{
  encode_opt_uint, encode_opt_hash, optional_items, header_items, header_hash,
}
use helios_bsc.Consensus.Seal.Binding.{SameContent, header_hash-SameContent}

abbrev unwrap : {E : Type 0} → Result E (List Bytes) → List Bytes
unwrap (ok items) = items
unwrap (err e) = []

abbrev sample_items : ℕ → List Bytes
unfolding strip_0x to_digit digits_from from_str_radix decode_raw_u64 decode_u64 decode_hex
    decode_hex_fixed to_be_bytes position_nonzero len_be encode_string encode_bytes encode_uint128
    encode_opt_uint encode_opt_hash optional_items header_items
sample_items n = unwrap (header_items sample_external (sealed_header n))

runs :
    (header_items sample_external (sealed_header 1) ≡ ok (sample_items 1))
    × (header_items sample_external (sealed_header 2) ≡ ok (sample_items 2))
    × (header_hash sample_external (sealed_header 1)
        ≡ header_hash sample_external (sealed_header 2))
    × (length (concat (sample_items 1)) < 1000)
    × (length (concat (sample_items 2)) < 1000)
unfolding strip_0x to_digit digits_from from_str_radix decode_raw_u64 decode_u64 decode_hex
    decode_hex_fixed to_be_bytes position_nonzero len_be encode_string encode_bytes encode_uint128
    concat list_header encode_list encode_opt_uint encode_opt_hash optional_items header_items
    header_hash sample_items
runs = (refl, refl, refl, omega arith, omega arith)

to_digit-lt : (c d : ℕ) → to_digit c ≡ some d → d < 16
unfolding to_digit
to_digit-lt c d e = ground arith

pairs-IsByte :
    (hi lo : Option ℕ) (rest : Option Bytes) (b : Bytes)
    → ((d : ℕ) → hi ≡ some d → d < 16)
    → ((d : ℕ) → lo ≡ some d → d < 16)
    → ((r : Bytes) → rest ≡ some r → All IsByte r)
    → pairs hi lo rest ≡ some b
    → All IsByte b
pairs-IsByte none lo rest b high low others e = cc
pairs-IsByte (some h) none rest b high low others e = cc
pairs-IsByte (some h) (some l) none b high low others e = cc
pairs-IsByte (some h) (some l) (some r) b high low others e =
    let fits₁ = high h refl in
    let fits₂ = low l refl in subst (All IsByte) (some-injective _ b e) (omega arith, others r refl)

unhex-IsByte : (s b : Bytes) → unhex s ≡ some b → All IsByte b
unhex-IsByte [] b e = subst (All IsByte) (some-injective [] b e) tt
unhex-IsByte (c ∷ []) b e = cc
unhex-IsByte (c ∷ d ∷ s) b e =
    pairs-IsByte (to_digit c) (to_digit d) (unhex s) b (to_digit-lt c) (to_digit-lt d)
      (unhex-IsByte s) e

header_hash-SameContent_example :
    SameContent sample_external (sealed_header 1) (sealed_header 2) ⊎ Collision sample_external
header_hash-SameContent_example =
    header_hash-SameContent sample_external (sealed_header 1) (sealed_header 2) (sample_items 1)
      (sample_items 2) unhex-IsByte runs.0 runs.1 (omega (arith, runs.3)) (omega (arith, runs.4))
      runs.2
