-- ===== src/Tests/Codecs.antt =====
-- The codecs on sample bytes: RLP, `extraData`, hex.
use helios_bsc.Prelude.{
  false, All, ok, err, ◌≡◌, ◌≢◌, refl, some, [], ◌∷◌, ◌++◌, true, Bytes, arith, replicate,
}
use helios_bsc.Prelude.Words.{IsByte}
use helios_bsc.Rlp.Encode.{
  Rlp, bytes, list, nil, cons, encode_string, encode_bytes, concat, list_header, encode_list,
  encode, encode_each,
}
use helios_bsc.Rlp.Decode.{
  be_loop, be_len, split_checked, short_string, long_payload, decode_tagged, decode_one,
  decode_list, decode_items, finish, decode, out_of_fuel,
}
use helios_bsc.Rlp.RoundTrip.{nesting, nesting_items, decode-encode}
use helios_bsc.Rlp.Canonical.{encode-decode}
use helios_bsc.Rlp.Total.{decode-Ends}
use helios_bsc.Config.Extra.{ParsedExtra}
use helios_bsc.Types.Hex.Value.{digit_char, decode_u64-value}
use helios_bsc.Types.Hex.{
  strip_0x, to_digit, digits_from, from_str_radix, decode_raw_u64, decode_u64, decode_hex,
  decode_hex_fixed,
}
use helios_bsc.Tests.Samples.{sample_external, address_a, hex_text}

-- [0x07, ["dog"]]
abbrev sample_item : Rlp
sample_item =
    list (cons (bytes (7 ∷ [])) (cons (list (cons (bytes (b'd' ∷ b'o' ∷ b'g' ∷ [])) nil)) nil))

abbrev sample_rlp : Bytes
sample_rlp = 0xc6 ∷ 0x07 ∷ 0xc4 ∷ 0x83 ∷ b'd' ∷ b'o' ∷ b'g' ∷ []

sample_decoded : decode sample_rlp ≡ ok sample_item
unfolding be_loop be_len split_checked short_string long_payload decode_tagged decode_one
    decode_list decode_items finish decode
sample_decoded = refl

decode-encode_example : decode (encode sample_item) ≡ ok sample_item
unfolding nesting nesting_items encode encode_each concat list_header encode_bytes encode_string
    encode_list
decode-encode_example =
    decode-encode sample_item
      (
        omega arith,
        (
          ((omega arith, tt), omega arith),
          ((omega arith, (((omega arith, (omega arith, (omega arith, tt))), omega arith), tt)), tt),
        ),
      )
      (omega arith)

sample_rlp-IsByte : All IsByte sample_rlp
sample_rlp-IsByte = (
  omega arith,
  (omega arith, (omega arith, (omega arith, (omega arith, (omega arith, (omega arith, tt)))))),
)

encode-decode_example : encode sample_item ≡ sample_rlp
encode-decode_example = encode-decode sample_rlp sample_item sample_rlp-IsByte sample_decoded

decode-Ends_example : decode sample_rlp ≢ err out_of_fuel
decode-Ends_example = decode-Ends sample_rlp

-- An epoch header of one validator.
abbrev sample_epoch : Bytes
sample_epoch = replicate 32 0 ++ (1 ∷ (address_a ++ (replicate 48 1 ++ 8 ∷ replicate 65 5)))

abbrev sample_parsed : ParsedExtra
sample_parsed = record {
  vanity = replicate 32 0;
  next_fork_hash = replicate 4 0;
  validators = record { address = address_a; vote_key = replicate 48 1 } ∷ [];
  turn_length = some 8;
  attestation = [];
  seal = replicate 65 5;
}

address_decoded : decode_hex_fixed sample_external 20 (hex_text address_a) ≡ ok address_a
unfolding strip_0x to_digit decode_hex decode_hex_fixed
address_decoded = refl

number_decoded : decode_u64 (b'0' ∷ b'x' ∷ b'f' ∷ b'F' ∷ []) ≡ ok 255
unfolding strip_0x to_digit digits_from from_str_radix decode_raw_u64 decode_u64
number_decoded = refl

decode_u64-value_example :
    decode_u64 (b'0' ∷ b'x' ∷ digit_char (15, false) ∷ digit_char (15, true) ∷ []) ≡ ok 255
decode_u64-value_example =
    decode_u64-value false (15, false) ((15, true) ∷ []) (omega arith, (omega arith, tt))
