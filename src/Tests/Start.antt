-- ===== src/Tests/Start.antt =====
-- The start of the walk from a sample checkpoint, and the safe head of a sample chain.
use helios_bsc.Prelude.{
  ℕ, true, ok, ◌≡◌, refl, some, none, [], ◌∷◌, List, arith, bytes_eq, Bytes, replicate,
}
use helios_bsc.Tests.Samples.{
  sample_external, hex_text, address_a, address_b, address_c, hash_9, hash_10, hash_11,
}
use helios_bsc.Types.Hex.{strip_0x, to_digit, decode_hex, decode_hex_fixed}
use helios_bsc.Types.Quorum.{SafeHead, min_distinct_sealers}
use helios_bsc.Types.Checkpoint.{
  Checkpoint, seen_before, all_new, check_keys, check_hash, validate_basic,
}
use helios_bsc.Config.{params_at, fermi_family}
use helios_bsc.Consensus.Finality.{VerifiedBlock, any_eq, see, head_at, walk_back, newest_safe}
use helios_bsc.Consensus.Finality.Safe.{Confirmed, newest_safe-Confirmed}
use helios_bsc.Consensus.Snapshot.State.{Snapshot, bytes_leb, insert_by_key, sort_by_key}
use helios_bsc.Consensus.Snapshot.Bootstrap.{
  decode_addresses, decode_pairs, bootstrap_vote_set, from_checkpoint,
}
use helios_bsc.Consensus.Snapshot.Paired.{Bootstrapped, from_checkpoint-Bootstrapped}
use helios_bsc.Consensus.Snapshot.Accepts.{validate_basic-from_checkpoint}

-- The operator lists the sealers out of order.
abbrev sample_checkpoint : Checkpoint
sample_checkpoint = record {
  chain_id = 56;
  number = 9;
  hash = hex_text hash_9;
  parent_hash = hex_text hash_10;
  state_root = hex_text hash_11;
  timestamp = 1760000000;
  fork_id = [];
  sealing_set = hex_text address_b ∷ hex_text address_a ∷ [];
  vote_keys = some (hex_text (replicate 48 2) ∷ hex_text (replicate 48 1) ∷ []);
  attestation = none;
}

abbrev started : Snapshot
started = record {
  number = 9;
  hash = hash_9;
  epoch_length = 1000;
  turn_length = 8;
  validators = address_a ∷ address_b ∷ [];
  pending = none;
  enforce_inturn = true;
  recents = [];
  vote_set =
      record { address = address_a; vote_key = replicate 48 1 }
      ∷ record { address = address_b; vote_key = replicate 48 2 }
      ∷ [];
  prev_vote_set = [];
  set_changed_at = 0;
  attestation = none;
  last_milli = none;
  walk_start = 10;
  ancestors = (9, hash_9) ∷ [];
}

sample_checkpoint-validate_basic : validate_basic sample_external sample_checkpoint ≡ ok tt
unfolding strip_0x to_digit decode_hex decode_hex_fixed seen_before all_new check_keys check_hash
    validate_basic bytes_eq
sample_checkpoint-validate_basic = refl

sample_checkpoint-from_checkpoint : from_checkpoint sample_external sample_checkpoint ≡ ok started
unfolding strip_0x to_digit decode_hex decode_hex_fixed params_at fermi_family bytes_leb
    insert_by_key sort_by_key decode_addresses decode_pairs bootstrap_vote_set from_checkpoint
sample_checkpoint-from_checkpoint = refl

validate_basic-from_checkpoint_example :
    (s : Snapshot) × (from_checkpoint sample_external sample_checkpoint ≡ ok s)
validate_basic-from_checkpoint_example =
    validate_basic-from_checkpoint sample_external sample_checkpoint
      sample_checkpoint-validate_basic

from_checkpoint-Bootstrapped_example : Bootstrapped sample_external sample_checkpoint started
from_checkpoint-Bootstrapped_example =
    from_checkpoint-Bootstrapped sample_external sample_checkpoint started
      sample_checkpoint-from_checkpoint

abbrev block_by : ℕ → Bytes → VerifiedBlock
block_by n miner = record {
  number = n;
  hash = replicate 32 n;
  state_root = replicate 32 n;
  miner = miner;
  milli_timestamp = 0;
  gas_limit = 0;
  header = none;
}

abbrev sample_chain : List VerifiedBlock
sample_chain =
    block_by 6 address_a
    ∷ block_by 7 address_a
    ∷ block_by 8 address_a
    ∷ block_by 9 address_b
    ∷ block_by 10 address_b
    ∷ block_by 11 address_c
    ∷ []

abbrev sample_head : SafeHead
sample_head = record {
  number = 7;
  hash = replicate 32 7;
  state_root = replicate 32 7;
  distinct_sealers = 3;
  required_sealers = 3;
}

sample_chain-newest_safe : newest_safe sample_chain 3 ≡ some sample_head
unfolding min_distinct_sealers any_eq see head_at walk_back newest_safe bytes_eq
sample_chain-newest_safe = refl

newest_safe-Confirmed_example : Confirmed sample_chain 3 sample_head
newest_safe-Confirmed_example =
    newest_safe-Confirmed sample_chain 3 sample_head (omega arith) sample_chain-newest_safe
