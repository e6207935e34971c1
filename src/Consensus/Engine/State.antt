-- ===== src/Consensus/Engine/State.antt =====
-- `LightEngine` of lib.rs: its state, how it starts, how it applies a header and which block it
-- offers for proofs. A method that changes the engine gives its result and the engine behind it.
use mathlib.Core.List.{reverse}
use helios_bsc.Prelude.{
  ℕ, ◌-◌, ◌%◌, ◌^◌, Option, none, some, List, [], ◌∷◌, ◌++◌, Bytes, length, drop, replicate, leb,
  Result, ok, err, ◌>>=◌, ◌>>◌, ensure, map_err, ok_or,
}
use helios_bsc.Config.{
  provider_proof_lookback, mainnet_min_distinct_sealers, miner_history_check_len,
}
use helios_bsc.Types.External.{External}
use helios_bsc.Types.Header.{RpcBlockHeader}
use helios_bsc.Types.Hex.{TypesError, decode_u64, decode_hex_fixed}
use helios_bsc.Types.Checkpoint.{Checkpoint, validate_basic}
use helios_bsc.Types.Quorum.{SafeHead}
use helios_bsc.Consensus.Seal.Timing.{milli_timestamp, verify_cascading_vs_parent}
use helios_bsc.Consensus.Seal.Fields.{verify_seal_coinbase}
use helios_bsc.Consensus.Snapshot.State.{Snapshot, SnapshotError}
use helios_bsc.Consensus.Snapshot.Rules.{n_seal}
use helios_bsc.Consensus.Snapshot.Apply.{apply_verified}
use helios_bsc.Consensus.Snapshot.Bootstrap.{from_checkpoint}
use helios_bsc.Consensus.Snapshot.Header.{apply_header}
use helios_bsc.Consensus.Finality.{VerifiedBlock, see, newest_safe, proof_lag}
use helios_bsc.Consensus.Engine.{
  ConsensusError, invalid_checkpoint, seal, snapshot, types, not_safe, proof_window_exceeded,
}
use helios_bsc.Consensus.Engine.Checkpoints.{header_matches_checkpoint, checkpoint_at_snapshot}

pub record LightEngine : Type 0 where
  pub checkpoint : Checkpoint
  pub snapshot : Snapshot
  pub chain : List VerifiedBlock
  pub safe : Option SafeHead
  pub proof_lookback : ℕ

abbrev pub keep : ℕ
keep = 512

-- `drain(0..len - KEEP)` of a chain that is longer than `KEEP`.
unfoldable pub trim : List VerifiedBlock → List VerifiedBlock
trim chain = drop (length chain - keep) chain

-- `chain.last()`
abbrev pub last {ℓ} : {A : Type ℓ} → List A → Option A
last [] = none
last (a ∷ []) = some a
last (a ∷ b ∷ rest) = last (b ∷ rest)

abbrev pub invalid : {A : Type 0} → Result TypesError A → Result ConsensusError A
invalid (ok a) = ok a
invalid (err e) = err invalid_checkpoint

unfoldable pub engine_at : Checkpoint → Snapshot → VerifiedBlock → LightEngine
engine_at checkpoint s genesis = record {
  checkpoint = checkpoint;
  snapshot = s;
  chain = genesis ∷ [];
  safe = none;
  proof_lookback = provider_proof_lookback;
}

-- The number of distinct miners of the whole chain, in a `u32`; the newest block comes first.
unfoldable pub count_miners : List Bytes → List VerifiedBlock → ℕ
count_miners seen [] = length seen % 2 ^ 32
count_miners seen (b ∷ bs) = count_miners (see seen b.miner) bs

unfoldable pub distinct_tail : List VerifiedBlock → ℕ
distinct_tail chain = count_miners [] (reverse chain)

unfoldable pub tip_number : LightEngine → ℕ
tip_number e = e.snapshot.number

unfoldable pub proof_target : LightEngine → Result ConsensusError SafeHead
proof_target e = do
  safe ← ok_or e.safe (not_safe mainnet_min_distinct_sealers (distinct_tail e.chain))
  let lag = proof_lag (tip_number e) safe.number
  ensure (leb lag e.proof_lookback) (proof_window_exceeded lag e.proof_lookback)
  ok safe

unfoldable pub epoch_delay_mainnet : ℕ
epoch_delay_mainnet = miner_history_check_len 21 8

-- The block at the end of the chain, and the safe head of the chain that results.
unfoldable pub push_block : LightEngine → List VerifiedBlock → LightEngine
push_block e chain = record e { chain = chain; safe = newest_safe chain (n_seal e.snapshot) }

abbrev pub push_untrimmed :
    LightEngine
    → Result ConsensusError VerifiedBlock
    → Result ConsensusError (Unit {0}) × LightEngine
push_untrimmed e (err refusal) = (err refusal, e)
push_untrimmed e (ok block) = (ok tt, push_block e (e.chain ++ block ∷ []))

-- "helios-bsc last-verified"
abbrev pub last_verified_label : Bytes
last_verified_label =
    b'h' ∷ b'e' ∷ b'l' ∷ b'i' ∷ b'o' ∷ b's' ∷ b'-' ∷ b'b' ∷ b's' ∷ b'c' ∷ b' ' ∷ b'l' ∷ b'a' ∷ b's'
    ∷ b't' ∷ b'-' ∷ b'v' ∷ b'e' ∷ b'r' ∷ b'i' ∷ b'f' ∷ b'i' ∷ b'e' ∷ b'd' ∷ []

module _ (x : External) where
  unfoldable pub verified_block : ℕ → RpcBlockHeader → Bytes → Result ConsensusError VerifiedBlock
  verified_block number header signer = do
    hash ← map_err types (decode_hex_fixed x 32 header.hash)
    state_root ← map_err types (decode_hex_fixed x 32 header.state_root)
    milli ← map_err seal (milli_timestamp x header)
    gas_limit ← map_err types (decode_u64 header.gas_limit)
    ok (record {
      number = number;
      hash = hash;
      state_root = state_root;
      miner = signer;
      milli_timestamp = milli;
      gas_limit = gas_limit;
      header = some header;
    })

  unfoldable pub engine_from_checkpoint : Checkpoint → Result ConsensusError LightEngine
  engine_from_checkpoint checkpoint = do
    invalid (validate_basic x checkpoint)
    s ← map_err snapshot (from_checkpoint x checkpoint)
    hash ← map_err types (decode_hex_fixed x 32 checkpoint.hash)
    state_root ← map_err types (decode_hex_fixed x 32 checkpoint.state_root)
    ok (
        engine_at checkpoint s (record {
          number = checkpoint.number;
          hash = hash;
          state_root = state_root;
          miner = replicate 20 0;
          milli_timestamp = 0;
          gas_limit = 0;
          header = none;
        }))

  unfoldable pub from_checkpoint_and_header :
      ℕ → Checkpoint → RpcBlockHeader → Result ConsensusError LightEngine
  from_checkpoint_and_header now checkpoint header = do
    invalid (validate_basic x checkpoint)
    header_matches_checkpoint x checkpoint header
    miner ← map_err seal (verify_seal_coinbase x now header)
    s ← map_err snapshot (from_checkpoint x checkpoint)
    hash ← map_err types (decode_hex_fixed x 32 checkpoint.hash)
    state_root ← map_err types (decode_hex_fixed x 32 checkpoint.state_root)
    milli ← map_err seal (milli_timestamp x header)
    gas_limit ← map_err types (decode_u64 header.gas_limit)
    ok (
        engine_at checkpoint s (record {
          number = checkpoint.number;
          hash = hash;
          state_root = state_root;
          miner = miner;
          milli_timestamp = milli;
          gas_limit = gas_limit;
          header = some header;
        }))

  unfoldable pub last_verified_checkpoint :
      LightEngine → RpcBlockHeader → Result ConsensusError Checkpoint
  last_verified_checkpoint e header =
      checkpoint_at_snapshot x header e.snapshot e.checkpoint.fork_id (some last_verified_label)

  abbrev pub check_cascading :
      Option VerifiedBlock → RpcBlockHeader → Result ConsensusError (Unit {0})
  check_cascading none header = ok tt
  check_cascading (some prev) header =
      map_err seal (verify_cascading_vs_parent x prev.milli_timestamp prev.gas_limit header)

  -- The checks in front of the snapshot's step.
  unfoldable pub check_tip : LightEngine → RpcBlockHeader → Result ConsensusError ℕ
  check_tip e header = do
    number ← map_err types (decode_u64 header.number)
    check_cascading (last e.chain) header
    ok number

  -- The push of a block that the snapshot has accepted. `e` has the new snapshot.
  abbrev pub extend_chain :
      LightEngine
      → Result ConsensusError VerifiedBlock
      → Result ConsensusError (Unit {0}) × LightEngine
  extend_chain e (err refusal) = (err refusal, e)
  extend_chain e (ok block) = (ok tt, push_block e (trim (e.chain ++ block ∷ [])))

  abbrev pub after_snapshot :
      LightEngine
      → ℕ
      → RpcBlockHeader
      → Result SnapshotError Bytes × Snapshot
      → Result ConsensusError (Unit {0}) × LightEngine
  after_snapshot e number header (err refusal, s) =
      (err (snapshot refusal), record e { snapshot = s })
  after_snapshot e number header (ok signer, s) =
      extend_chain (record e { snapshot = s }) (verified_block number header signer)

  unfoldable pub engine_apply_header :
      ℕ → LightEngine → RpcBlockHeader → Result ConsensusError (Unit {0}) × LightEngine
  engine_apply_header now e header = elim (check_tip e header) [
    | err refusal ↦ (err refusal, e)
    | ok number ↦ after_snapshot e number header (apply_header x now e.snapshot header)
  ]

  -- `?` behind a call that changes the engine.
  abbrev pub and_then :
      Result ConsensusError (Unit {0}) × LightEngine
      → (LightEngine → Result ConsensusError (Unit {0}) × LightEngine)
      → Result ConsensusError (Unit {0}) × LightEngine
  and_then (ok u, e) next = next e
  and_then (err refusal, e) next = (err refusal, e)

  -- Each header comes with the time of the clock when it is applied.
  unfoldable pub apply_headers :
      LightEngine → List (ℕ × RpcBlockHeader) → Result ConsensusError (Unit {0}) × LightEngine
  apply_headers e [] = (ok tt, e)
  apply_headers e ((now, header) ∷ rest) =
      and_then (engine_apply_header now e header) (λ e'. apply_headers e' rest)

  -- The push of `apply_verified`, which decodes the number too and does not trim.
  abbrev pub after_verified :
      LightEngine
      → RpcBlockHeader
      → Bytes
      → Result SnapshotError (Unit {0}) × Snapshot
      → Result ConsensusError (Unit {0}) × LightEngine
  after_verified e header signer (err refusal, s) =
      (err (snapshot refusal), record e { snapshot = s })
  after_verified e header signer (ok u, s) =
      push_untrimmed (record e { snapshot = s })
        (do number ← map_err types (decode_u64 header.number); verified_block number header signer)

  unfoldable pub engine_apply_verified :
      LightEngine → RpcBlockHeader → Bytes → Result ConsensusError (Unit {0}) × LightEngine
  engine_apply_verified e header signer =
      after_verified e header signer (apply_verified x e.snapshot header signer)
