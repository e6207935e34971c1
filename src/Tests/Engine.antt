-- ===== src/Tests/Engine.antt =====
-- The engine over the chain of one validator.
use mathlib.Core.Path.{subst}
use helios_bsc.Prelude.{
  ℕ, ◌≡◌, ◌≤◌, ◌<◌, ◌+◌, refl, ok, err, Result, some, List, [], ◌∷◌, ◌++◌, ap, arith, bytes_eq,
  length,
}
use helios_bsc.Tests.Samples.{sample_external}
use helios_bsc.Tests.Chain.{
  sealed_header, sample_now, sample_address, chain_checkpoint, chain_engine, chain_head,
  chain_block, later_engine,
}
use helios_bsc.Types.Header.{RpcBlockHeader}
use helios_bsc.Types.Quorum.{SafeHead}
use helios_bsc.Consensus.Snapshot.State.{number_mismatch}
use helios_bsc.Consensus.Snapshot.Rules.{n_seal}
use helios_bsc.Consensus.Seal.Sealed.{Sealed, verify_seal_coinbase-Sealed}
use helios_bsc.Consensus.Finality.{VerifiedBlock}
use helios_bsc.Consensus.Finality.Safe.{Confirmed, distinct_miners}
use helios_bsc.Consensus.Engine.{ConsensusError, snapshot}
use helios_bsc.Consensus.Engine.State.{LightEngine}
use helios_bsc.Consensus.Engine.InStep.{InStep, engine_apply_header-InStep}
use helios_bsc.Consensus.Engine.Start.{Anchored, from_checkpoint_and_header-Anchored}
use helios_bsc.Consensus.Engine.Target.{
  Untouched, engine_apply_header-Untouched, proof_target-Confirmed, proof_target-found,
}
use helios_bsc.Consensus.Engine.Replay.{
  Replay, BlocksOf, apply_headers-Replay, apply_headers-newest_safe,
}
use helios_bsc.Consensus.Engine.Runs.{here, step, Reached, Steps-Reached}
use helios_bsc.Types.Hex.{
  strip_0x, to_digit, digits_from, from_str_radix, decode_raw_u64, decode_u64, decode_hex,
  decode_hex_fixed, format_hex, format_address, address_from_pubkey_uncompressed,
}
use helios_bsc.Types.Checkpoint.{seen_before, all_new, check_keys, check_hash, validate_basic}
use helios_bsc.Types.Quorum.{min_distinct_sealers}
use helios_bsc.Config.{
  fermi_family, ancestor_generation_depth, attestation_target_window, params_at,
  mainnet_min_distinct_sealers, miner_history_check_len,
}
use helios_bsc.Config.Extra.{slice, parse_pre_luban_epoch, parse_epoch, parse_mid, parse_extra}
use helios_bsc.Consensus.Seal.Timing.{
  assert_difficulty_range, milli_timestamp, verify_cascading_vs_parent, backoff_floor,
  verify_out_of_turn_backoff,
}
use helios_bsc.Consensus.Seal.Hash.{
  encode_opt_uint, encode_opt_hash, seal_requests, seal_extension, seal_items, seal_hash,
  optional_items, header_items, header_hash, verify_header_hash,
}
use helios_bsc.Consensus.Seal.Fields.{
  verify_timestamp_not_future, base_fee_at, verify_base_fee, distinct_from, epoch_layout,
  verify_extra_layout, verify_mix, zero_root, verify_beacon_root, verify_withdrawals,
  verify_unsealed_fields, ecrecover, recover_signer, verify_seal_coinbase,
}
use helios_bsc.Consensus.Vote.Reader.{decode_vote_attestation}
use helios_bsc.Consensus.Snapshot.State.{
  retain, remove, insert, bytes_leb, insert_by_key, sort_by_key, contains,
}
use helios_bsc.Consensus.Snapshot.Rules.{
  n_seal, delay, inturn_validator, expected_difficulty, seen_enough, sign_recently,
  recents_window_walked, backoff_context, advance_epoch_length,
}
use helios_bsc.Consensus.Snapshot.Attest.{
  justified, finalized, finalized_number, adopt_attestation, prune_recents_to_finalized,
  attestation_set, find_number, ancestor_hash, check_source, check_resolved, check_against,
  check_decoded, check_attestation,
}
use helios_bsc.Consensus.Snapshot.Apply.{
  expire_recent, epoch_pending, is_epoch, announce_epoch, adopt_if, zip_validators, activate,
  activate_due, push_ancestor, prune_if_maxwell, record_sealer, advance_tip, commit, decode_link,
  check_link, check_content, set_last_milli, apply_content, apply_verified,
}
use helios_bsc.Consensus.Snapshot.Bootstrap.{
  decode_addresses, decode_pairs, bootstrap_vote_set, from_checkpoint,
}
use helios_bsc.Consensus.Snapshot.Header.{
  fast_finality_available, vote_keys_hex, sealing_set_hex, apply_header,
}
use helios_bsc.Consensus.Finality.{
  any_eq, see, head_at, walk_back, newest_safe, proof_lag, within_proof_window,
}
use helios_bsc.Consensus.Engine.Checkpoints.{
  trim_start, to_ascii_lowercase, hex_eq, carry_vote_keys, validators_from_activated_epoch,
  sealing_set_from_activated_epoch, vote_keys_from_activated_epoch, checkpoint_at_snapshot,
  header_matches_checkpoint,
}
use helios_bsc.Consensus.Engine.State.{
  trim, engine_at, count_miners, distinct_tail, tip_number, proof_target, epoch_delay_mainnet,
  push_block, verified_block, engine_from_checkpoint, from_checkpoint_and_header,
  last_verified_checkpoint, check_tip, engine_apply_header, apply_headers,
}

abbrev two_headers : List (ℕ × RpcBlockHeader)
two_headers = (sample_now, sealed_header 1) ∷ (sample_now, sealed_header 2) ∷ []

-- A seal, a start, a run of two headers, a header whose parent is missing, and a head for proofs.
runs :
    (verify_seal_coinbase sample_external sample_now (sealed_header 1) ≡ ok sample_address)
    × (from_checkpoint_and_header sample_external sample_now chain_checkpoint (sealed_header 0)
        ≡ ok chain_engine)
    × (apply_headers sample_external chain_engine two_headers ≡ (ok tt, later_engine))
    × ((engine_apply_header sample_external sample_now chain_engine (sealed_header 2)).0
        ≡ err (snapshot (number_mismatch 50_000_124 50_000_125)))
    × (proof_target later_engine ≡ ok chain_head)
unfolding bytes_eq strip_0x to_digit digits_from from_str_radix decode_raw_u64 decode_u64 decode_hex
    decode_hex_fixed format_hex format_address address_from_pubkey_uncompressed seen_before all_new
    check_keys check_hash validate_basic min_distinct_sealers fermi_family ancestor_generation_depth
    attestation_target_window params_at mainnet_min_distinct_sealers miner_history_check_len slice
    parse_pre_luban_epoch parse_epoch parse_mid parse_extra assert_difficulty_range milli_timestamp
    verify_cascading_vs_parent backoff_floor verify_out_of_turn_backoff encode_opt_uint
    encode_opt_hash seal_requests seal_extension seal_items seal_hash optional_items header_items
    header_hash verify_header_hash verify_timestamp_not_future base_fee_at verify_base_fee
    distinct_from epoch_layout verify_extra_layout verify_mix zero_root verify_beacon_root
    verify_withdrawals verify_unsealed_fields ecrecover recover_signer verify_seal_coinbase
    decode_vote_attestation retain remove insert bytes_leb insert_by_key sort_by_key contains n_seal
    delay inturn_validator expected_difficulty seen_enough sign_recently recents_window_walked
    backoff_context advance_epoch_length justified finalized finalized_number adopt_attestation
    prune_recents_to_finalized attestation_set find_number ancestor_hash check_source check_resolved
    check_against check_decoded check_attestation expire_recent epoch_pending is_epoch
    announce_epoch adopt_if zip_validators activate activate_due push_ancestor prune_if_maxwell
    record_sealer advance_tip commit decode_link check_link check_content set_last_milli
    apply_content apply_verified decode_addresses decode_pairs bootstrap_vote_set from_checkpoint
    fast_finality_available vote_keys_hex sealing_set_hex apply_header any_eq see head_at walk_back
    newest_safe proof_lag within_proof_window trim_start to_ascii_lowercase hex_eq carry_vote_keys
    validators_from_activated_epoch sealing_set_from_activated_epoch vote_keys_from_activated_epoch
    checkpoint_at_snapshot header_matches_checkpoint trim engine_at count_miners distinct_tail
    tip_number proof_target epoch_delay_mainnet push_block verified_block engine_from_checkpoint
    from_checkpoint_and_header last_verified_checkpoint check_tip engine_apply_header apply_headers
runs = (refl, refl, refl, refl, refl)

sealed : verify_seal_coinbase sample_external sample_now (sealed_header 1) ≡ ok sample_address
sealed = runs.0

built :
    from_checkpoint_and_header sample_external sample_now chain_checkpoint (sealed_header 0)
    ≡ ok chain_engine
built = runs.1

applied : apply_headers sample_external chain_engine two_headers ≡ (ok tt, later_engine)
applied = runs.2

done : (apply_headers sample_external chain_engine two_headers).0 ≡ ok tt
done = ap (λ (r : Result ConsensusError (Unit {0}) × LightEngine). r.0) applied

arrived : (apply_headers sample_external chain_engine two_headers).1 ≡ later_engine
arrived = ap (λ (r : Result ConsensusError (Unit {0}) × LightEngine). r.1) applied

refused :
    (engine_apply_header sample_external sample_now chain_engine (sealed_header 2)).0
    ≡ err (snapshot (number_mismatch 50_000_124 50_000_125))
refused = runs.3

held : (apply_headers sample_external chain_engine two_headers).1.safe ≡ some chain_head
held = ap (λ (e : LightEngine). e.safe) arrived

found : proof_target later_engine ≡ ok chain_head
found = runs.4

-- The newest block, by the one validator, stands on the block in front of it.
quorum :
    min_distinct_sealers (n_seal later_engine.snapshot)
    ≤ length (distinct_miners (chain_block 2 ∷ []))
unfolding min_distinct_sealers n_seal distinct_miners see any_eq
quorum = omega arith

one_validator : 0 < n_seal later_engine.snapshot
unfolding n_seal
one_validator = omega arith

verify_seal_coinbase-Sealed_example :
    Sealed sample_external sample_now (sealed_header 1) sample_address
verify_seal_coinbase-Sealed_example =
    verify_seal_coinbase-Sealed sample_external sample_now (sealed_header 1) sample_address sealed

from_checkpoint_and_header-Anchored_example :
    Anchored sample_external sample_now chain_checkpoint (sealed_header 0) chain_engine
from_checkpoint_and_header-Anchored_example =
    from_checkpoint_and_header-Anchored sample_external sample_now chain_checkpoint
      (sealed_header 0) chain_engine built

start-InStep : InStep sample_external chain_engine
start-InStep = from_checkpoint_and_header-Anchored_example.in_step

engine_apply_header-InStep_example :
    InStep sample_external
      (engine_apply_header sample_external sample_now chain_engine (sealed_header 1)).1
engine_apply_header-InStep_example =
    engine_apply_header-InStep sample_external sample_now chain_engine (sealed_header 1)
      (omega arith) start-InStep

engine_apply_header-Untouched_example :
    Untouched chain_engine
      (engine_apply_header sample_external sample_now chain_engine (sealed_header 2)).1
engine_apply_header-Untouched_example =
    engine_apply_header-Untouched sample_external sample_now chain_engine (sealed_header 2)
      (snapshot (number_mismatch 50_000_124 50_000_125)) (omega arith) refused

apply_headers-Replay_example :
    Replay sample_external chain_engine two_headers
      (apply_headers sample_external chain_engine two_headers).1
apply_headers-Replay_example =
    apply_headers-Replay sample_external chain_engine two_headers (omega arith) start-InStep done

later-InStep : InStep sample_external later_engine
later-InStep = subst (InStep sample_external) arrived apply_headers-Replay_example.in_step

apply_headers-newest_safe_example :
    (blocks : List VerifiedBlock) × BlocksOf sample_external two_headers blocks
    × (newest_safe
          (chain_engine.chain ++ blocks)
          (n_seal (apply_headers sample_external chain_engine two_headers).1.snapshot)
        ≡ some chain_head)
apply_headers-newest_safe_example =
    apply_headers-newest_safe sample_external chain_engine two_headers chain_head (omega arith)
      start-InStep done held

proof_target-Confirmed_example :
    Confirmed later_engine.chain (n_seal later_engine.snapshot) chain_head
    × (chain_head.number < tip_number later_engine)
    × (tip_number later_engine ≤ chain_head.number + later_engine.proof_lookback)
proof_target-Confirmed_example =
    proof_target-Confirmed sample_external later_engine chain_head later-InStep one_validator found

proof_target-found_example :
    (head : SafeHead) × (later_engine.safe ≡ some head)
    × (tip_number later_engine ≤ head.number + later_engine.proof_lookback
        → proof_target later_engine ≡ ok head)
proof_target-found_example =
    proof_target-found sample_external later_engine (chain_block 0 ∷ []) (chain_block 1)
      (chain_block 2 ∷ []) later-InStep one_validator refl quorum

-- One header is refused, then one is accepted.
Steps-Reached_example :
    Reached sample_external 2 chain_engine
      (engine_apply_header sample_external sample_now
        (engine_apply_header sample_external sample_now chain_engine (sealed_header 2)).1
        (sealed_header 1)).1
Steps-Reached_example =
    Steps-Reached sample_external 2 chain_engine _
      (step sample_now (sealed_header 2) (step sample_now (sealed_header 1) here)) (omega arith)
      start-InStep tt
