-- ===== src/Tests/Rules.antt =====
-- The rules of the consensus on sample values: quorums, forks, times.
use helios_bsc.Prelude.{err, ◌≢◌, some, ok, ◌≡◌, ◌↔◌, [], ◌≤◌, ◌<◌, ◌+◌, ◌*◌, refl, arith}
use helios_bsc.Types.Hex.{
  strip_0x, to_digit, digits_from, from_str_radix, decode_raw_u64, decode_u64, decode_hex,
  decode_hex_fixed,
}
use helios_bsc.Types.Quorum.{min_distinct_sealers, min_distinct_sealers-least}
use helios_bsc.Config.{params_at, miner_history_check_len}
use helios_bsc.Config.Schedule.{latest, legacy, schedule, params_at-latest}
use helios_bsc.Config.Delay.{miner_history_check_len-exact}
use helios_bsc.Consensus.Vote.{
  index_out_of_bounds, rlp, out_of_fuel, min_votes_for_finality, vote_hash,
}
use helios_bsc.Consensus.Vote.Ends.{decode_top-Ends}
use helios_bsc.Consensus.Vote.Bounds.{verify_attestation_signature-InBounds}
use helios_bsc.Rlp.Encode.{
  to_be_bytes, position_nonzero, len_be, encode_string, encode_bytes, encode_uint, concat,
  list_header, encode_list,
}
use helios_bsc.Consensus.Vote.Reader.{
  take, len_loop, long_len, short_str, long_payload, decode_tagged, decode_item, finish, decode_top,
  str_of, list_of, uint_loop, uint_of, fixed_str, four, decode_vote_data, decode_fields,
  decode_vote_attestation,
}
use helios_bsc.Consensus.Vote.Verify.{
  voted_validators, count_ones, trailing_zeros, set_bits, voted_indices, keys_at,
  verify_attestation_signature,
}
use helios_bsc.Consensus.Vote.Quorum.{common_ones, verify_attestation_signature-overlap}
use helios_bsc.Consensus.Snapshot.State.{attestation_target}
use helios_bsc.Consensus.Snapshot.Attest.{attestation_set, check_attestation}
use helios_bsc.Consensus.Snapshot.Reach.{IsInReach, check_attestation-IsInReach}
use helios_bsc.Consensus.Seal.Timing.{milli_timestamp, verify_cascading_vs_parent}
use helios_bsc.Consensus.Vote.Endorsed.{Endorsed, verify_attestation_signature-Endorsed}
use helios_bsc.Consensus.Seal.Bounds.{Cascades, verify_cascading_vs_parent-Cascades}
use helios_bsc.Tests.Samples.{
  raw_attestation_11, sample_external, sample_set, attestation_11, attestation_of_two, header_12,
  snapshot_11,
}

verified : verify_attestation_signature sample_external attestation_11 sample_set ≡ ok tt
unfolding min_votes_for_finality vote_hash count_ones trailing_zeros set_bits voted_indices keys_at
    verify_attestation_signature
verified = refl

verified_two : verify_attestation_signature sample_external attestation_of_two sample_set ≡ ok tt
unfolding min_votes_for_finality vote_hash count_ones trailing_zeros set_bits voted_indices keys_at
    verify_attestation_signature
verified_two = refl

verify_attestation_signature-Endorsed_example :
    Endorsed sample_external attestation_of_two sample_set
verify_attestation_signature-Endorsed_example =
    verify_attestation_signature-Endorsed sample_external attestation_of_two sample_set
      (omega arith) (omega arith) verified_two

verify_attestation_signature-overlap_example : 3 ≤ 3 * common_ones 3 7 6
verify_attestation_signature-overlap_example =
    verify_attestation_signature-overlap sample_external attestation_11 attestation_of_two
      sample_set (omega arith) verified verified_two

cascading : verify_cascading_vs_parent sample_external 1760000000000 100000000 header_12 ≡ ok tt
unfolding strip_0x to_digit digits_from from_str_radix decode_raw_u64 decode_u64 decode_hex
    decode_hex_fixed params_at milli_timestamp verify_cascading_vs_parent
cascading = refl

verify_cascading_vs_parent-Cascades_example :
    (verify_cascading_vs_parent sample_external 1760000000000 100000000 header_12 ≡ ok tt)
    ↔ Cascades sample_external 1760000000000 100000000 header_12
verify_cascading_vs_parent-Cascades_example =
    verify_cascading_vs_parent-Cascades sample_external 1760000000000 100000000 header_12
      (omega arith)

min_distinct_sealers-least_example :
    (2 * 21 < 3 * min_distinct_sealers 21)
    × (3 * min_distinct_sealers 21 ≤ 2 * 21 + 3)
    × (min_distinct_sealers 21 ≤ 21)
min_distinct_sealers-least_example = min_distinct_sealers-least 21 (omega arith) (omega arith)

params_at-latest_example :
    params_at 60000000 1760000000 ≡ latest 60000000 1760000000 legacy schedule
params_at-latest_example = params_at-latest 60000000 1760000000

latest_test : (latest 60000000 1760000000 legacy schedule).epoch_length ≡ 1000
unfolding latest
latest_test = refl

miner_history_check_len-exact_example : miner_history_check_len 21 8 + 1 ≡ 88
miner_history_check_len-exact_example =
    miner_history_check_len-exact 21 8 (omega arith) (omega arith) (omega arith) (omega arith)

verify_attestation_signature-InBounds_example :
    (verify_attestation_signature sample_external attestation_11 sample_set
      ≢ err index_out_of_bounds)
    × (voted_validators attestation_11 sample_set ≢ err index_out_of_bounds)
verify_attestation_signature-InBounds_example =
    verify_attestation_signature-InBounds sample_external attestation_11 sample_set

decode_top-Ends_example : decode_top raw_attestation_11 ≢ err (rlp out_of_fuel)
decode_top-Ends_example = decode_top-Ends raw_attestation_11

-- The reader gives the attestation back from its bytes.
raw_attestation_11-decoded : decode_vote_attestation raw_attestation_11 ≡ ok (some attestation_11)
unfolding to_be_bytes position_nonzero len_be encode_string encode_bytes encode_uint concat
    list_header encode_list take len_loop long_len short_str long_payload decode_tagged decode_item
    finish decode_top str_of list_of uint_loop uint_of fixed_str four decode_vote_data decode_fields
    decode_vote_attestation
raw_attestation_11-decoded = refl

snapshot_11-known : attestation_set snapshot_11 11 ≢ []
unfolding attestation_set
snapshot_11-known = λ e. cc

check_attestation-IsInReach_example :
    (check_attestation sample_external snapshot_11 raw_attestation_11 14 1770000000
      ≡ err (attestation_target 13 11))
    ↔ ¬ IsInReach 14 1770000000 11
check_attestation-IsInReach_example =
    check_attestation-IsInReach sample_external snapshot_11 raw_attestation_11 14 1770000000
      attestation_11 (omega arith) raw_attestation_11-decoded (omega arith) snapshot_11-known
