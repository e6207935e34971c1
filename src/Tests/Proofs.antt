-- ===== src/Tests/Proofs.antt =====
-- Merkle-Patricia proofs of one node.
use helios_bsc.Prelude.{
  ◌≡◌, ◌≢◌, ◌∷◌, refl, ok, err, Option, some, none, [], Bytes, replicate, arith, bytes_eq,
}
use helios_bsc.Tests.Samples.{sample_external, address_a}
use helios_bsc.Tests.Chain.{sample_hash}
use helios_bsc.Rlp.Encode.{
  to_be_bytes, position_nonzero, len_be, encode_string, encode_bytes, encode_uint, concat,
  list_header, encode_list,
}
use helios_bsc.Rlp.Decode.{
  be_loop, be_len, split_checked, short_string, long_payload, decode_tagged, decode_one,
  decode_list, decode_items, finish, decode,
}
use helios_bsc.Execution.Mpt.{
  out_of_fuel, as_bytes, as_list, item_count, item_at, bytes_to_nibbles, path_nibbles,
  hex_prefix_decode, after_path, leaf_value, proof_length, node_ref, walk_raw, consume_hashed,
  follow_ref, follow_child, branch_node, short_node, path_node, walk_items, verify_nibble_proof,
  verify_trie_proof,
}
use helios_bsc.Execution.Mpt.Leaves.{
  Account, be_from, rlp_uint, decode_account, decode_storage_leaf, verify_account_proof,
  verify_storage_proof,
}
use helios_bsc.Execution.Mpt.Unique.{Agree, verify_trie_proof-Agree}
use helios_bsc.Execution.Mpt.Ends.{verify_trie_proof-Ends}

abbrev pub sample_account : Account
sample_account = record {
  nonce = 3;
  balance = 1 ∷ 0 ∷ [];
  storage_root = replicate 32 4;
  code_hash = replicate 32 5;
}

-- A leaf at the whole key, which is the hash that `sample_external` gives.
abbrev pub leaf_of : Bytes → Bytes
unfolding encode_list encode_bytes
leaf_of value = encode_list (encode_bytes (0x20 ∷ sample_hash) ∷ encode_bytes value ∷ [])

abbrev pub account_node : Bytes
unfolding encode_list encode_bytes encode_uint leaf_of
account_node = leaf_of (
    encode_list (
      encode_uint 3
      ∷ encode_bytes (1 ∷ 0 ∷ [])
      ∷ encode_bytes (replicate 32 4)
      ∷ encode_bytes (replicate 32 5)
      ∷ []))

abbrev pub word_node : Bytes
unfolding leaf_of
word_node = leaf_of (9 ∷ [])

-- A leaf with an empty path, whose three bytes are its own root.
abbrev small_node : Bytes
small_node = 0xc2 ∷ 0x20 ∷ 5 ∷ []

runs :
    (verify_account_proof sample_external sample_hash address_a (account_node ∷ [])
      ≡ ok sample_account)
    × (verify_storage_proof sample_external sample_hash (replicate 32 0) (word_node ∷ [])
        ≡ ok (9 ∷ []))
    × (verify_trie_proof sample_external sample_hash sample_hash (word_node ∷ [])
        ≡ ok (some (9 ∷ [])))
    × (verify_trie_proof sample_external sample_hash (replicate 32 6) (word_node ∷ []) ≡ ok none)
    × (verify_trie_proof sample_external small_node [] (small_node ∷ []) ≡ ok (some (5 ∷ [])))
unfolding bytes_eq to_be_bytes position_nonzero len_be encode_string encode_bytes encode_uint concat
    list_header encode_list be_loop be_len split_checked short_string long_payload decode_tagged
    decode_one decode_list decode_items finish decode as_bytes as_list item_count item_at
    bytes_to_nibbles path_nibbles hex_prefix_decode after_path leaf_value proof_length node_ref
    walk_raw consume_hashed follow_ref follow_child branch_node short_node path_node walk_items
    verify_nibble_proof verify_trie_proof be_from rlp_uint decode_account decode_storage_leaf
    verify_account_proof verify_storage_proof leaf_of account_node word_node
runs = (refl, refl, refl, refl, refl)

verify_trie_proof-Agree_example :
    Agree {A = Option Bytes} sample_external (some (9 ∷ [])) (some (9 ∷ []))
verify_trie_proof-Agree_example =
    verify_trie_proof-Agree sample_external sample_hash sample_hash (word_node ∷ [])
      (word_node ∷ []) (some (9 ∷ [])) (some (9 ∷ [])) refl runs.2 runs.2

verify_trie_proof-Ends_example :
    verify_trie_proof sample_external small_node [] (small_node ∷ []) ≢ err out_of_fuel
verify_trie_proof-Ends_example =
    verify_trie_proof-Ends sample_external small_node [] (small_node ∷ [])
      ((omega arith, (omega arith, (omega arith, tt))), tt)
