-- ===== src/Consensus/Seal/Fields.antt =====
-- The checks of seal.rs that need one header only: `verify_unsealed_fields`, and
-- `verify_seal_coinbase`, which recovers the sealer. The clock is the argument `now`.
use helios_bsc.Prelude.{
  ℕ, ◌-◌, ◌/◌, ◌%◌, Bool, false, not, Option, none, some, List, [], ◌∷◌, Bytes, length, take, drop,
  replicate, get_or, leb, ltb, ◌==◌, bytes_eq, ◌||◌, ◌&&◌, if◌then◌else◌, Result, ok, err, ◌>>=◌,
  ◌>>◌, ensure, map_err, ok_or,
}
use helios_bsc.Prelude.Words.{saturating_add}
use helios_bsc.Config.{params_at, lorentz_time, bohr_time, london_block, max_turn_length}
use helios_bsc.Config.Extra.{SealingValidator, ParsedExtra, parse_extra, extra_seal, is_bohr}
use helios_bsc.Types.External.{External}
use helios_bsc.Types.Header.{RpcBlockHeader}
use helios_bsc.Types.Hex.{TypesError, decode_u64, address_from_pubkey_uncompressed}
use helios_bsc.Types.Checkpoint.{bsc_mainnet_chain_id, seen_before}
use helios_bsc.Consensus.Seal.{
  SealError, types, extra_too_short, bad_recovery_id, recover, coinbase_mismatch, invalid_uncles,
  invalid_gas_used, invalid_base_fee, missing_base_fee, unexpected_base_fee, invalid_gas_limit,
  invalid_mix_digest, invalid_parent_beacon_root, extra_too_long, invalid_withdrawals_root,
  future_block, invalid_nonce, extra, missing_epoch_extra, invalid_turn_length, duplicate_validator,
}
use helios_bsc.Consensus.Seal.Hash.{fixed_of, hex_of, seal_hash, verify_header_hash}
use helios_bsc.Consensus.Seal.Timing.{u64_of, milli_timestamp, assert_difficulty_range}

abbrev pub empty_uncle_hash : Bytes
empty_uncle_hash =
    0x1d ∷ 0xcc ∷ 0x4d ∷ 0xe8 ∷ 0xde ∷ 0xc7 ∷ 0x5d ∷ 0x7a ∷ 0xab ∷ 0x85 ∷ 0xb5 ∷ 0x67 ∷ 0xb6 ∷ 0xcc
    ∷ 0xd4 ∷ 0x1a ∷ 0xd3 ∷ 0x12 ∷ 0x45 ∷ 0x1b ∷ 0x94 ∷ 0x8a ∷ 0x74 ∷ 0x13 ∷ 0xf0 ∷ 0xa1 ∷ 0x42
    ∷ 0xfd ∷ 0x40 ∷ 0xd4 ∷ 0x93 ∷ 0x47 ∷ []

abbrev pub empty_withdrawals_hash : Bytes
empty_withdrawals_hash =
    0x56 ∷ 0xe8 ∷ 0x1f ∷ 0x17 ∷ 0x1b ∷ 0xcc ∷ 0x55 ∷ 0xa6 ∷ 0xff ∷ 0x83 ∷ 0x45 ∷ 0xe6 ∷ 0x92 ∷ 0xc0
    ∷ 0xf8 ∷ 0x6e ∷ 0x5b ∷ 0x48 ∷ 0xe0 ∷ 0x1b ∷ 0x99 ∷ 0x6c ∷ 0xad ∷ 0xc0 ∷ 0x01 ∷ 0x62 ∷ 0x2f
    ∷ 0xb5 ∷ 0xe3 ∷ 0x63 ∷ 0xb4 ∷ 0x21 ∷ []

abbrev pub gas_limit_max : ℕ
gas_limit_max = 0x7fff_ffff_ffff_ffff

abbrev pub extra_max : ℕ
extra_max = 102_400

abbrev pub max_future_skew_secs : ℕ
max_future_skew_secs = 15

unfoldable pub verify_timestamp_not_future : RpcBlockHeader → ℕ → Result SealError (Unit {0})
verify_timestamp_not_future header now_unix = do
  time ← u64_of header.timestamp
  ensure (leb time (saturating_add now_unix max_future_skew_secs)) (future_block time now_unix)

-- The match on a base fee that is there: only the number 0 will do.
abbrev pub base_fee_zero : Result TypesError ℕ → Result SealError (Unit {0})
base_fee_zero (ok fee) = ensure (fee == 0) invalid_base_fee
base_fee_zero (err e) = err invalid_base_fee

unfoldable pub base_fee_at : ℕ → Option Bytes → Result SealError (Unit {0})
base_fee_at number none = ensure (ltb number london_block) (missing_base_fee number)
base_fee_at number (some raw) = do
  ensure (leb london_block number) (unexpected_base_fee number)
  base_fee_zero (decode_u64 raw)

unfoldable pub verify_base_fee : RpcBlockHeader → Result SealError (Unit {0})
verify_base_fee header = do
  number ← u64_of header.number
  base_fee_at number header.base_fee_per_gas

-- The loop over the addresses, with the ones that it has seen.
unfoldable pub distinct_from : List Bytes → List SealingValidator → Result SealError (Unit {0})
distinct_from seen [] = ok tt
distinct_from seen (v ∷ vs) = do
  ensure (not (seen_before seen v.address)) duplicate_validator
  distinct_from (v.address ∷ seen) vs

abbrev pub valid_turn : Option ℕ → Bool
valid_turn none = false
valid_turn (some t) = ltb 0 t && leb t max_turn_length

-- What an epoch block must have.
unfoldable pub epoch_layout : Bool → ParsedExtra → Result SealError (Unit {0})
epoch_layout bohr_layout parsed = do
  ensure (not (length parsed.validators == 0)) missing_epoch_extra
  distinct_from [] parsed.validators
  ensure (not bohr_layout || valid_turn parsed.turn_length) invalid_turn_length

module _ (x : External) where
  unfoldable pub verify_extra_layout : RpcBlockHeader → Result SealError (Unit {0})
  verify_extra_layout header = do
    raw ← hex_of x header.extra_data
    number ← u64_of header.number
    time ← u64_of header.timestamp
    let p = params_at number time
    let is_epoch = number % p.epoch_length == 0
    parsed ← map_err extra (parse_extra raw p.extra_data_version is_epoch)
    if is_epoch then epoch_layout (is_bohr p.extra_data_version) parsed else ok tt

  -- The rule on the mix digest, which carries the milliseconds from Lorentz on.
  unfoldable pub verify_mix : RpcBlockHeader → Result SealError (Unit {0})
  verify_mix header = do
    time ← u64_of header.timestamp
    mix ← fixed_of x 32 header.mix_hash
    if ltb time lorentz_time
        then ensure (bytes_eq mix (replicate 32 0)) invalid_mix_digest
        else do milli ← milli_timestamp x header; ensure (milli / 1000 == time) invalid_mix_digest

  unfoldable pub zero_root : Option Bytes → Result SealError (Unit {0})
  zero_root none = err invalid_parent_beacon_root
  zero_root (some root) = do
    got ← fixed_of x 32 root
    ensure (bytes_eq got (replicate 32 0)) invalid_parent_beacon_root

  unfoldable pub verify_beacon_root : RpcBlockHeader → Result SealError (Unit {0})
  verify_beacon_root header = do
    time ← u64_of header.timestamp
    if leb bohr_time time then zero_root header.parent_beacon_block_root else ok tt

  unfoldable pub verify_withdrawals : Option Bytes → Result SealError (Unit {0})
  verify_withdrawals none = ok tt
  verify_withdrawals (some w) = do
    got ← fixed_of x 32 w
    ensure (bytes_eq got empty_withdrawals_hash) invalid_withdrawals_root

  unfoldable pub verify_unsealed_fields : ℕ → RpcBlockHeader → Result SealError (Unit {0})
  verify_unsealed_fields now header = do
    raw ← hex_of x header.extra_data
    ensure (leb (length raw) extra_max) extra_too_long
    uncles ← fixed_of x 32 header.sha3_uncles
    ensure (bytes_eq uncles empty_uncle_hash) invalid_uncles
    gas_limit ← u64_of header.gas_limit
    ensure (leb gas_limit gas_limit_max) (invalid_gas_limit gas_limit)
    gas_used ← u64_of header.gas_used
    ensure (leb gas_used gas_limit) (invalid_gas_used gas_used gas_limit)
    verify_base_fee header
    verify_mix header
    verify_beacon_root header
    verify_withdrawals header.withdrawals_root
    nonce ← fixed_of x 8 header.nonce
    ensure (bytes_eq nonce (replicate 8 0)) invalid_nonce
    verify_timestamp_not_future header now
    verify_extra_layout header

  unfoldable pub ecrecover : Bytes → Bytes → Result SealError Bytes
  ecrecover digest seal = do
    ensure (length seal == extra_seal) extra_too_short
    let last = get_or seal 64 0
    let v = if leb 27 last then last - 27 else last
    ensure (x.recovery_id v) (bad_recovery_id last)
    pk ← ok_or (x.recover_ecdsa digest (take 64 seal) v) recover
    map_err types (address_from_pubkey_uncompressed x pk)

  unfoldable pub recover_signer : RpcBlockHeader → ℕ → Result SealError Bytes
  recover_signer header chain_id = do
    raw ← hex_of x header.extra_data
    ensure (leb extra_seal (length raw)) extra_too_short
    let seal = drop (length raw - extra_seal) raw
    digest ← seal_hash x header chain_id
    ecrecover digest seal

  unfoldable pub verify_seal_coinbase : ℕ → RpcBlockHeader → Result SealError Bytes
  verify_seal_coinbase now header = do
    verify_unsealed_fields now header
    difficulty ← u64_of header.difficulty
    assert_difficulty_range difficulty
    recovered ← recover_signer header bsc_mainnet_chain_id
    miner ← fixed_of x 20 header.miner
    ensure (bytes_eq recovered miner) coinbase_mismatch
    _ ← verify_header_hash x header
    ok recovered
