-- ===== src/Tests/Walk.antt =====
-- The walk of snapshot.rs over sample headers.
use helios_bsc.Prelude.{◌⊎◌, inr, ok, err, ◌≡◌, refl, some, [], ◌∷◌, arith, bytes_eq}
use helios_bsc.Tests.Samples.{
  sample_external, snapshot_11, snapshot_signed, snapshot_due, header_12, address_a, vote_11,
  hash_9, hash_10,
}
use helios_bsc.Types.Hex.{
  strip_0x, to_digit, digits_from, from_str_radix, decode_raw_u64, decode_u64, decode_hex,
  decode_hex_fixed,
}
use helios_bsc.Rlp.Encode.{
  to_be_bytes, position_nonzero, len_be, encode_string, encode_bytes, encode_uint, concat,
  list_header, encode_list,
}
use helios_bsc.Config.{
  params_at, miner_history_check_len, attestation_target_window, ancestor_generation_depth,
  fermi_family,
}
use helios_bsc.Config.Extra.{
  slice, records_from, addresses_from, parse_pre_luban_epoch, parse_epoch, parse_mid, parse_extra,
}
use helios_bsc.Consensus.Vote.{source_below_target, vote_hash, min_votes_for_finality}
use helios_bsc.Consensus.Vote.Reader.{
  take, len_loop, long_len, short_str, long_payload, decode_tagged, decode_item, decode_list,
  decode_items, finish, decode_top, str_of, list_of, uint_loop, uint_of, fixed_str, four,
  decode_vote_data, decode_fields, decode_vote_attestation,
}
use helios_bsc.Consensus.Vote.Verify.{
  count_ones, trailing_zeros, set_bits, voted_indices, keys_at, verify_attestation_signature,
}
use helios_bsc.Consensus.Seal.Timing.{milli_timestamp, backoff_floor, verify_out_of_turn_backoff}
use helios_bsc.Consensus.Snapshot.State.{
  retain, remove, insert, bytes_leb, insert_by_key, sort_by_key, contains,
}
use helios_bsc.Consensus.Snapshot.Rules.{
  n_seal, delay, inturn_validator, expected_difficulty, seen_enough, sign_recently,
  recents_window_walked, backoff_context, advance_epoch_length,
}
use helios_bsc.Consensus.Snapshot.Attest.{
  finalized_number, adopt_attestation, prune_recents_to_finalized, attestation_set, find_number,
  ancestor_hash, check_source, check_resolved, check_against, check_decoded, check_attestation,
}
use helios_bsc.Consensus.Snapshot.Apply.{
  expire_recent, epoch_pending, is_epoch, announce_epoch, adopt_if, zip_validators, activate,
  activate_due, push_ancestor, prune_if_maxwell, record_sealer, advance_tip, commit, decode_link,
  check_link, check_content, set_last_milli, apply_content, apply_verified,
}
use helios_bsc.Consensus.Snapshot.State.{recently_signed}
use helios_bsc.Consensus.Snapshot.Finality.{Advances, apply_verified-Advances}
use helios_bsc.Consensus.Snapshot.Switch.{Kept, Switched, apply_verified-Switched}
use helios_bsc.Consensus.Snapshot.Progress.{Extends, apply_verified-Extends}
use helios_bsc.Consensus.Snapshot.Refusal.{Unharmed, apply_verified-Unharmed}
use helios_bsc.Consensus.Snapshot.Shape.{WellFormed}
use helios_bsc.Consensus.Snapshot.Invariant.{apply_verified-WellFormed}

accepted : (apply_verified sample_external snapshot_11 header_12 address_a).0 ≡ ok tt
unfolding bytes_eq strip_0x to_digit digits_from from_str_radix decode_raw_u64 decode_u64 decode_hex
    decode_hex_fixed to_be_bytes position_nonzero len_be encode_string encode_bytes encode_uint
    concat list_header encode_list params_at miner_history_check_len attestation_target_window
    ancestor_generation_depth fermi_family slice records_from addresses_from parse_pre_luban_epoch
    parse_epoch parse_mid parse_extra source_below_target vote_hash min_votes_for_finality take
    len_loop long_len short_str long_payload decode_tagged decode_item decode_list decode_items
    finish decode_top str_of list_of uint_loop uint_of fixed_str four decode_vote_data decode_fields
    decode_vote_attestation count_ones trailing_zeros set_bits voted_indices keys_at
    verify_attestation_signature milli_timestamp backoff_floor verify_out_of_turn_backoff retain
    remove insert bytes_leb insert_by_key sort_by_key contains n_seal delay inturn_validator
    expected_difficulty seen_enough sign_recently recents_window_walked backoff_context
    advance_epoch_length finalized_number adopt_attestation prune_recents_to_finalized
    attestation_set find_number ancestor_hash check_source check_resolved check_against
    check_decoded check_attestation expire_recent epoch_pending is_epoch announce_epoch adopt_if
    zip_validators activate activate_due push_ancestor prune_if_maxwell record_sealer advance_tip
    commit decode_link check_link check_content set_last_milli apply_content apply_verified
accepted = refl

accepted_due : (apply_verified sample_external snapshot_due header_12 address_a).0 ≡ ok tt
unfolding bytes_eq strip_0x to_digit digits_from from_str_radix decode_raw_u64 decode_u64 decode_hex
    decode_hex_fixed to_be_bytes position_nonzero len_be encode_string encode_bytes encode_uint
    concat list_header encode_list params_at miner_history_check_len attestation_target_window
    ancestor_generation_depth fermi_family slice records_from addresses_from parse_pre_luban_epoch
    parse_epoch parse_mid parse_extra source_below_target vote_hash min_votes_for_finality take
    len_loop long_len short_str long_payload decode_tagged decode_item decode_list decode_items
    finish decode_top str_of list_of uint_loop uint_of fixed_str four decode_vote_data decode_fields
    decode_vote_attestation count_ones trailing_zeros set_bits voted_indices keys_at
    verify_attestation_signature milli_timestamp backoff_floor verify_out_of_turn_backoff retain
    remove insert bytes_leb insert_by_key sort_by_key contains n_seal delay inturn_validator
    expected_difficulty seen_enough sign_recently recents_window_walked backoff_context
    advance_epoch_length finalized_number adopt_attestation prune_recents_to_finalized
    attestation_set find_number ancestor_hash check_source check_resolved check_against
    check_decoded check_attestation expire_recent epoch_pending is_epoch announce_epoch adopt_if
    zip_validators activate activate_due push_ancestor prune_if_maxwell record_sealer advance_tip
    commit decode_link check_link check_content set_last_milli apply_content apply_verified
accepted_due = refl

-- The attestation in the header is adopted.
justified_11 :
    (apply_verified sample_external snapshot_11 header_12 address_a).1.attestation ≡ some vote_11
unfolding bytes_eq strip_0x to_digit digits_from from_str_radix decode_raw_u64 decode_u64 decode_hex
    decode_hex_fixed to_be_bytes position_nonzero len_be encode_string encode_bytes encode_uint
    concat list_header encode_list params_at miner_history_check_len attestation_target_window
    ancestor_generation_depth fermi_family slice records_from addresses_from parse_pre_luban_epoch
    parse_epoch parse_mid parse_extra source_below_target vote_hash min_votes_for_finality take
    len_loop long_len short_str long_payload decode_tagged decode_item decode_list decode_items
    finish decode_top str_of list_of uint_loop uint_of fixed_str four decode_vote_data decode_fields
    decode_vote_attestation count_ones trailing_zeros set_bits voted_indices keys_at
    verify_attestation_signature milli_timestamp backoff_floor verify_out_of_turn_backoff retain
    remove insert bytes_leb insert_by_key sort_by_key contains n_seal delay inturn_validator
    expected_difficulty seen_enough sign_recently recents_window_walked backoff_context
    advance_epoch_length finalized_number adopt_attestation prune_recents_to_finalized
    attestation_set find_number ancestor_hash check_source check_resolved check_against
    check_decoded check_attestation expire_recent epoch_pending is_epoch announce_epoch adopt_if
    zip_validators activate activate_due push_ancestor prune_if_maxwell record_sealer advance_tip
    commit decode_link check_link check_content set_last_milli apply_content apply_verified
justified_11 = refl

refused :
    (apply_verified sample_external snapshot_signed header_12 address_a).0
    ≡ err (recently_signed address_a)
unfolding bytes_eq strip_0x to_digit digits_from from_str_radix decode_raw_u64 decode_u64 decode_hex
    decode_hex_fixed to_be_bytes position_nonzero len_be encode_string encode_bytes encode_uint
    concat list_header encode_list params_at miner_history_check_len attestation_target_window
    ancestor_generation_depth fermi_family slice records_from addresses_from parse_pre_luban_epoch
    parse_epoch parse_mid parse_extra source_below_target vote_hash min_votes_for_finality take
    len_loop long_len short_str long_payload decode_tagged decode_item decode_list decode_items
    finish decode_top str_of list_of uint_loop uint_of fixed_str four decode_vote_data decode_fields
    decode_vote_attestation count_ones trailing_zeros set_bits voted_indices keys_at
    verify_attestation_signature milli_timestamp backoff_floor verify_out_of_turn_backoff retain
    remove insert bytes_leb insert_by_key sort_by_key contains n_seal delay inturn_validator
    expected_difficulty seen_enough sign_recently recents_window_walked backoff_context
    advance_epoch_length finalized_number adopt_attestation prune_recents_to_finalized
    attestation_set find_number ancestor_hash check_source check_resolved check_against
    check_decoded check_attestation expire_recent epoch_pending is_epoch announce_epoch adopt_if
    zip_validators activate activate_due push_ancestor prune_if_maxwell record_sealer advance_tip
    commit decode_link check_link check_content set_last_milli apply_content apply_verified
refused = refl

timed : milli_timestamp sample_external header_12 ≡ ok 1760000001000
unfolding bytes_eq strip_0x to_digit digits_from from_str_radix decode_raw_u64 decode_u64 decode_hex
    decode_hex_fixed to_be_bytes position_nonzero len_be encode_string encode_bytes encode_uint
    concat list_header encode_list params_at miner_history_check_len attestation_target_window
    ancestor_generation_depth fermi_family slice records_from addresses_from parse_pre_luban_epoch
    parse_epoch parse_mid parse_extra source_below_target vote_hash min_votes_for_finality take
    len_loop long_len short_str long_payload decode_tagged decode_item decode_list decode_items
    finish decode_top str_of list_of uint_loop uint_of fixed_str four decode_vote_data decode_fields
    decode_vote_attestation count_ones trailing_zeros set_bits voted_indices keys_at
    verify_attestation_signature milli_timestamp backoff_floor verify_out_of_turn_backoff retain
    remove insert bytes_leb insert_by_key sort_by_key contains n_seal delay inturn_validator
    expected_difficulty seen_enough sign_recently recents_window_walked backoff_context
    advance_epoch_length finalized_number adopt_attestation prune_recents_to_finalized
    attestation_set find_number ancestor_hash check_source check_resolved check_against
    check_decoded check_attestation expire_recent epoch_pending is_epoch announce_epoch adopt_if
    zip_validators activate activate_due push_ancestor prune_if_maxwell record_sealer advance_tip
    commit decode_link check_link check_content set_last_milli apply_content apply_verified
timed = refl

snapshot_11-WellFormed : WellFormed snapshot_11
snapshot_11-WellFormed = record {
  epoch_positive = omega arith;
  changed = omega arith;
  aligned = inr refl;
  few = omega arith;
  consecutive = (refl, (refl, (refl, tt)));
  older = (9, hash_9) ∷ (10, hash_10) ∷ [];
  tip = refl;
}

apply_verified-Advances_example :
    Advances snapshot_11.attestation
      (apply_verified sample_external snapshot_11 header_12 address_a).1.attestation
apply_verified-Advances_example =
    apply_verified-Advances sample_external snapshot_11 header_12 address_a (omega arith)

apply_verified-Extends_example :
    Extends sample_external snapshot_11 header_12 address_a
      (apply_verified sample_external snapshot_11 header_12 address_a).1
apply_verified-Extends_example =
    apply_verified-Extends sample_external snapshot_11 header_12 address_a (omega arith) accepted

apply_verified-Unharmed_example :
    Unharmed snapshot_signed (apply_verified sample_external snapshot_signed header_12 address_a).1
apply_verified-Unharmed_example =
    apply_verified-Unharmed sample_external snapshot_signed header_12 address_a 1760000001000
      (recently_signed address_a) (omega arith) timed refused

apply_verified-WellFormed_example :
    WellFormed (apply_verified sample_external snapshot_11 header_12 address_a).1
apply_verified-WellFormed_example =
    apply_verified-WellFormed sample_external snapshot_11 header_12 address_a (omega arith)
      snapshot_11-WellFormed

apply_verified-Switched_example :
    Kept snapshot_due (apply_verified sample_external snapshot_due header_12 address_a).1
    ⊎ Switched snapshot_due (apply_verified sample_external snapshot_due header_12 address_a).1
apply_verified-Switched_example =
    apply_verified-Switched sample_external snapshot_due header_12 address_a accepted_due
