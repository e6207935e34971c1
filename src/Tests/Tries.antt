-- ===== src/Tests/Tries.antt =====
-- The trie of a list of two items.
use mathlib.Core.Logic.{◌≢◌}
use helios_bsc.Prelude.{◌≡◌, ◌++◌, refl, bytes_eq, List, [], ◌∷◌, Bytes, replicate, ok, err}
use helios_bsc.Tests.Samples.{sample_external}
use helios_bsc.Consensus.Snapshot.State.{bytes_leb, insert_by_key, sort_by_key}
use helios_bsc.Rlp.Encode.{
  to_be_bytes, position_nonzero, len_be, encode_string, encode_bytes, encode_uint, concat,
  list_header, encode_list,
}
use helios_bsc.Execution.Mpt.{bytes_to_nibbles}
use helios_bsc.Execution.OrderedTrie.{
  out_of_fuel, pack_nibbles, hex_prefix_encode, shared_prefix_len, shared_by, nibble_at,
  count_nibble, child_ref, child_at, child_list, branch_children, leaf_node, shared_node,
  encode_node, pairs_from, longest_key, root_of, ordered_trie_root,
}
use helios_bsc.Execution.OrderedTrie.Ends.{ordered_trie_root-Ends}
use helios_bsc.Execution.BlockLists.{verify_tx_list, verify_receipt_list}

abbrev two_items : List Bytes
two_items = (0x61 ∷ []) ∷ (0x62 ∷ []) ∷ []

abbrev two_items_node : Bytes
two_items_node =
    (0xd5 ∷ 0xc2 ∷ 0x31 ∷ 0x62 ∷ [])
    ++ replicate 7 0x80
    ++ (0xc2 ∷ 0x30 ∷ 0x61 ∷ [])
    ++ replicate 8 0x80

encode_node_test :
    encode_node sample_external 3 (sort_by_key (λ p. p.0) (pairs_from 0 two_items)) 0
    ≡ ok two_items_node
unfolding bytes_eq bytes_leb insert_by_key sort_by_key to_be_bytes position_nonzero len_be
    encode_string encode_bytes encode_uint concat list_header encode_list bytes_to_nibbles
    pack_nibbles hex_prefix_encode shared_prefix_len shared_by nibble_at count_nibble child_ref
    child_at child_list branch_children leaf_node shared_node encode_node pairs_from
encode_node_test = refl

verify_receipt_list_test : verify_receipt_list sample_external two_items (replicate 32 7) ≡ ok tt
unfolding bytes_eq bytes_leb insert_by_key sort_by_key to_be_bytes position_nonzero len_be
    encode_string encode_bytes encode_uint concat list_header encode_list bytes_to_nibbles
    pack_nibbles hex_prefix_encode shared_prefix_len shared_by nibble_at count_nibble child_ref
    child_at child_list branch_children leaf_node shared_node encode_node pairs_from longest_key
    root_of ordered_trie_root verify_receipt_list
verify_receipt_list_test = refl

verify_tx_list_test :
    verify_tx_list sample_external two_items (replicate 32 7)
    ≡ ok (replicate 32 7 ∷ replicate 32 7 ∷ [])
unfolding bytes_eq bytes_leb insert_by_key sort_by_key to_be_bytes position_nonzero len_be
    encode_string encode_bytes encode_uint concat list_header encode_list bytes_to_nibbles
    pack_nibbles hex_prefix_encode shared_prefix_len shared_by nibble_at count_nibble child_ref
    child_at child_list branch_children leaf_node shared_node encode_node pairs_from longest_key
    root_of ordered_trie_root verify_tx_list
verify_tx_list_test = refl

ordered_trie_root-Ends_example : ordered_trie_root sample_external two_items ≢ err out_of_fuel
ordered_trie_root-Ends_example = ordered_trie_root-Ends sample_external two_items
