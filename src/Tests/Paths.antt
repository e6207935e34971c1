-- ===== src/Tests/Paths.antt =====
-- The hex-prefix codec of a path of three nibbles to a leaf.
use helios_bsc.Prelude.{◌≡◌, ◌↔◌, refl, true, [], ◌∷◌, Bytes, ok, arith}
use helios_bsc.Execution.Mpt.{bytes_to_nibbles, path_nibbles, hex_prefix_decode}
use helios_bsc.Execution.OrderedTrie.{pack_nibbles, hex_prefix_encode}
use helios_bsc.Execution.OrderedTrie.Prefix.{hex_prefix_decode-canonical}

abbrev three_nibbles : Bytes
three_nibbles = 10 ∷ 11 ∷ 12 ∷ []

hex_prefix_encode_test : hex_prefix_encode three_nibbles true ≡ 58 ∷ 188 ∷ []
unfolding hex_prefix_encode pack_nibbles
hex_prefix_encode_test = refl

hex_prefix_decode_test : hex_prefix_decode (58 ∷ 188 ∷ []) ≡ ok (three_nibbles, true)
unfolding hex_prefix_decode bytes_to_nibbles path_nibbles
hex_prefix_decode_test = refl

hex_prefix_decode-canonical_example :
    (hex_prefix_decode (58 ∷ 188 ∷ []) ≡ ok (three_nibbles, true))
    ↔ (hex_prefix_encode three_nibbles true ≡ 58 ∷ 188 ∷ [])
hex_prefix_decode-canonical_example =
    hex_prefix_decode-canonical (58 ∷ 188 ∷ []) three_nibbles true
      (omega arith, (omega arith, (omega arith, tt)))
