-- ===== src/Tests/Responses.antt =====
-- Responses to `eth_getProof`, and what is left of them.
use helios_bsc.Prelude.{◌≡◌, ◌∷◌, refl, ok, [], Bytes, replicate, bytes_eq}
use helios_bsc.Tests.Samples.{sample_external, address_a, hex_text}
use helios_bsc.Tests.Chain.{sample_hash}
use helios_bsc.Tests.Proofs.{account_node, word_node}
use helios_bsc.Types.Hex.{strip_0x, to_digit, decode_hex, decode_hex_fixed}
use helios_bsc.Types.Checkpoint.{seen_before}
use helios_bsc.Consensus.Engine.Checkpoints.{to_ascii_lowercase}
use helios_bsc.Rlp.Encode.{
  to_be_bytes, position_nonzero, len_be, encode_string, encode_bytes, encode_uint, concat,
  list_header, encode_list,
}
use helios_bsc.Rlp.Decode.{
  be_loop, be_len, split_checked, short_string, long_payload, decode_tagged, decode_one,
  decode_list, decode_items, finish, decode,
}
use helios_bsc.Execution.Mpt.{
  as_bytes, as_list, item_count, item_at, bytes_to_nibbles, path_nibbles, hex_prefix_decode,
  after_path, leaf_value, proof_length, node_ref, walk_raw, consume_hashed, follow_ref,
  follow_child, branch_node, short_node, path_node, walk_items, verify_nibble_proof,
  verify_trie_proof,
}
use helios_bsc.Execution.Mpt.Leaves.{
  be_from, rlp_uint, decode_account, decode_storage_leaf, verify_account_proof,
  verify_storage_proof,
}
use helios_bsc.Execution.Mpt.Unique.{Agree}
use helios_bsc.Execution.Proof.{
  StorageProofEntry, EthAccountProof, VerifiedAccount, strip_int, trim_zeros, pad32, check_entries,
  is_absent, encode_qty, decode_qty, parse_qty_u64, decode_nodes, check_claims,
  verify_eth_get_proof, slot_of_key, names_slot, find_entry, check_entry, verify_storage_slot,
}
use helios_bsc.Execution.Proof.Bound.{
  Proved, verify_eth_get_proof-Proved, verify_eth_get_proof-Agree, verify_storage_slot-Agree,
}
use helios_bsc.Execution.Proof.Retain.{
  slots_of_keys, retain_from, retain_requested_storage, Retained, retain_requested_storage-Retained,
}

abbrev zero_key : Bytes
zero_key = b'0' ∷ b'x' ∷ b'0' ∷ []

abbrev nine : Bytes
nine = b'0' ∷ b'x' ∷ b'9' ∷ []

abbrev word_entry : StorageProofEntry
word_entry = record { key = zero_key; value = nine; proof = hex_text word_node ∷ [] }

-- The slot is named twice; the second entry claims another word.
abbrev response : EthAccountProof
response = record {
  address = hex_text address_a;
  account_proof = hex_text account_node ∷ [];
  balance = hex_text (1 ∷ 0 ∷ []);
  code_hash = hex_text (replicate 32 5);
  nonce = b'0' ∷ b'x' ∷ b'3' ∷ [];
  storage_hash = hex_text (replicate 32 4);
  storage_proof = word_entry ∷ record { key = zero_key; value = zero_key; proof = [] } ∷ [];
}

abbrev proved_account : VerifiedAccount
proved_account = record {
  address = address_a;
  nonce = 3;
  balance_wei = 1 ∷ 0 ∷ [];
  storage_root = replicate 32 4;
  code_hash = replicate 32 5;
}

-- An account whose storage root is the hash that `sample_external` gives.
abbrev other_account : VerifiedAccount
other_account = record proved_account { storage_root = sample_hash }

abbrev kept : EthAccountProof
kept = record response { storage_proof = word_entry ∷ [] }

runs :
    (verify_eth_get_proof sample_external sample_hash address_a response ≡ ok proved_account)
    × (verify_storage_slot sample_external other_account (replicate 32 0) response ≡ ok (9 ∷ []))
    × (retain_requested_storage sample_external response (zero_key ∷ []) ≡ kept)
unfolding bytes_eq to_be_bytes position_nonzero len_be encode_string encode_bytes encode_uint concat
    list_header encode_list be_loop be_len split_checked short_string long_payload decode_tagged
    decode_one decode_list decode_items finish decode as_bytes as_list item_count item_at
    bytes_to_nibbles path_nibbles hex_prefix_decode after_path leaf_value proof_length node_ref
    walk_raw consume_hashed follow_ref follow_child branch_node short_node path_node walk_items
    verify_nibble_proof verify_trie_proof be_from rlp_uint decode_account decode_storage_leaf
    verify_account_proof verify_storage_proof strip_0x to_digit decode_hex decode_hex_fixed
    seen_before to_ascii_lowercase strip_int trim_zeros pad32 check_entries is_absent encode_qty
    decode_qty parse_qty_u64 decode_nodes check_claims verify_eth_get_proof slot_of_key names_slot
    find_entry check_entry verify_storage_slot slots_of_keys retain_from retain_requested_storage
runs = (refl, refl, refl)

verify_eth_get_proof-Proved_example :
    Proved sample_external sample_hash address_a response proved_account
verify_eth_get_proof-Proved_example =
    verify_eth_get_proof-Proved sample_external sample_hash address_a response proved_account runs.0

verify_eth_get_proof-Agree_example : Agree sample_external proved_account proved_account
verify_eth_get_proof-Agree_example =
    verify_eth_get_proof-Agree sample_external sample_hash address_a response response
      proved_account proved_account refl runs.0 runs.0

verify_storage_slot-Agree_example : Agree {A = Bytes} sample_external (9 ∷ []) (9 ∷ [])
verify_storage_slot-Agree_example =
    verify_storage_slot-Agree sample_external other_account (replicate 32 0) response response
      (9 ∷ []) (9 ∷ []) refl runs.1 runs.1

retain_requested_storage-Retained_example :
    Retained sample_external response
      (zero_key ∷ [])
      (retain_requested_storage sample_external response (zero_key ∷ []))
retain_requested_storage-Retained_example =
    retain_requested_storage-Retained sample_external response (zero_key ∷ [])
