-- ===== src/Tests/Chain.antt =====
-- A short chain that one validator seals, for the engine.
use helios_bsc.Prelude.{ℕ, ◌+◌, ◌*◌, true, some, none, [], ◌∷◌, Bytes, replicate}
use helios_bsc.Tests.Samples.{hex_text}
use helios_bsc.Types.Header.{RpcBlockHeader}
use helios_bsc.Types.Checkpoint.{Checkpoint}
use helios_bsc.Types.Quorum.{SafeHead}
use helios_bsc.Consensus.Finality.{VerifiedBlock}
use helios_bsc.Consensus.Snapshot.State.{Snapshot}
use helios_bsc.Consensus.Engine.State.{LightEngine}
use helios_bsc.Consensus.Seal.Fields.{empty_uncle_hash, empty_withdrawals_hash}

-- What `sample_external` hashes to, and the address that it recovers.
abbrev pub sample_hash : Bytes
sample_hash = replicate 32 7

abbrev pub sample_address : Bytes
sample_address = replicate 20 7

-- Block 50000123 + `n`, in the Fermi fork, one second behind the block in front of it.
abbrev pub sealed_header : ℕ → RpcBlockHeader
sealed_header n = record {
  hash = hex_text sample_hash;
  parent_hash = hex_text sample_hash;
  sha3_uncles = hex_text empty_uncle_hash;
  miner = hex_text sample_address;
  state_root = hex_text (replicate 32 8);
  transactions_root = hex_text (replicate 32 8);
  receipts_root = hex_text (replicate 32 8);
  logs_bloom = hex_text (replicate 256 0);
  difficulty = b'0' ∷ b'x' ∷ b'2' ∷ [];
  number = hex_text (0x02 ∷ 0xfa ∷ 0xf0 ∷ (0xfb + n) ∷ []);
  gas_limit = hex_text (0x05 ∷ 0xf5 ∷ 0xe1 ∷ 0x00 ∷ []);
  gas_used = b'0' ∷ b'x' ∷ b'0' ∷ [];
  timestamp = hex_text (0x69 ∷ 0x80 ∷ 0x0e ∷ (0x80 + n) ∷ []);
  extra_data = hex_text (replicate 97 0);
  mix_hash = hex_text (replicate 32 0);
  nonce = hex_text (replicate 8 0);
  base_fee_per_gas = some (b'0' ∷ b'x' ∷ b'0' ∷ []);
  withdrawals_root = some (hex_text empty_withdrawals_hash);
  blob_gas_used = some (b'0' ∷ b'x' ∷ b'0' ∷ []);
  excess_blob_gas = some (b'0' ∷ b'x' ∷ b'0' ∷ []);
  parent_beacon_block_root = some (hex_text (replicate 32 0));
  requests_hash = none;
}

-- The clock, behind the timestamps of the chain.
abbrev pub sample_now : ℕ
sample_now = 1_770_000_100

abbrev pub chain_checkpoint : Checkpoint
chain_checkpoint = record {
  chain_id = 56;
  number = 50_000_123;
  hash = hex_text sample_hash;
  parent_hash = hex_text sample_hash;
  state_root = hex_text (replicate 32 8);
  timestamp = 1_770_000_000;
  fork_id = [];
  sealing_set = hex_text sample_address ∷ [];
  vote_keys = none;
  attestation = none;
}

abbrev pub chain_snapshot : Snapshot
chain_snapshot = record {
  number = 50_000_123;
  hash = sample_hash;
  epoch_length = 1000;
  turn_length = 8;
  validators = sample_address ∷ [];
  pending = none;
  enforce_inturn = true;
  recents = [];
  vote_set = [];
  prev_vote_set = [];
  set_changed_at = 0;
  attestation = none;
  last_milli = none;
  walk_start = 50_000_124;
  ancestors = (50_000_123, sample_hash) ∷ [];
}

abbrev pub chain_block : ℕ → VerifiedBlock
chain_block n = record {
  number = 50_000_123 + n;
  hash = sample_hash;
  state_root = replicate 32 8;
  miner = sample_address;
  milli_timestamp = 1_770_000_000_000 + 1000 * n;
  gas_limit = 100_000_000;
  header = some (sealed_header n);
}

abbrev pub chain_engine : LightEngine
chain_engine = record {
  checkpoint = chain_checkpoint;
  snapshot = chain_snapshot;
  chain = chain_block 0 ∷ [];
  safe = none;
  proof_lookback = 112;
}

-- The parent of the newest block, which the one validator has built on.
abbrev pub chain_head : SafeHead
chain_head = record {
  number = 50_000_124;
  hash = sample_hash;
  state_root = replicate 32 8;
  distinct_sealers = 1;
  required_sealers = 1;
}

-- Two blocks later.
abbrev pub later_engine : LightEngine
later_engine = record chain_engine {
  snapshot = record chain_snapshot {
    number = 50_000_125;
    hash = sample_hash;
    recents = (50_000_125, sample_address) ∷ (50_000_124, sample_address) ∷ [];
    last_milli = some 1_770_000_002_000;
    ancestors =
        (50_000_123, sample_hash) ∷ (50_000_124, sample_hash) ∷ (50_000_125, sample_hash) ∷ [];
  };
  chain = chain_block 0 ∷ chain_block 1 ∷ chain_block 2 ∷ [];
  safe = some chain_head;
}
