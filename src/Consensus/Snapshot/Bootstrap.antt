-- ===== src/Consensus/Snapshot/Bootstrap.antt =====
-- The start of the walk in snapshot.rs: `from_checkpoint`, `epoch_seed_at` and `seed_turn_length`.
use helios_bsc.Prelude.{
  ℕ, ◌-◌, ◌%◌, ◌^◌, true, not, Option, none, some, List, [], ◌∷◌, Bytes, length, leb, ltb, ◌==◌,
  ◌&&◌, if◌then◌else◌, Result, ok, ◌>>=◌, ◌>>◌, ensure, map_err,
}
use helios_bsc.Prelude.Words.{saturating_add}
use helios_bsc.Config.{params_at, miner_history_check_len}
use helios_bsc.Config.Extra.{SealingValidator, parse_extra}
use helios_bsc.Types.External.{External}
use helios_bsc.Types.Checkpoint.{Checkpoint}
use helios_bsc.Types.Header.{RpcBlockHeader}
use helios_bsc.Types.Hex.{decode_u64, decode_hex, decode_hex_fixed}
use helios_bsc.Consensus.Snapshot.State.{
  Snapshot, SnapshotError, sort_by_key, types, extra, not_epoch_boundary, missing_epoch_extra,
  epoch_headers_not_adjacent, seed_epoch_mismatch,
}
use helios_bsc.Consensus.Snapshot.Apply.{turn_or}

pub data EpochSeed : Type 0 where
  active : ℕ → ℕ → EpochSeed
  pending_activation : ℕ → ℕ → EpochSeed

module _ (x : External) where
  unfoldable pub decode_addresses : List Bytes → Result SnapshotError (List Bytes)
  decode_addresses [] = ok []
  decode_addresses (a ∷ as') = do
    addr ← map_err types (decode_hex_fixed x 20 a)
    others ← decode_addresses as'
    ok (addr ∷ others)

  -- The loop over `validators.iter().zip(keys)`.
  unfoldable pub decode_pairs :
      List Bytes → List Bytes → Result SnapshotError (List SealingValidator)
  decode_pairs [] keys = ok []
  decode_pairs (a ∷ as') [] = ok []
  decode_pairs (a ∷ as') (k ∷ ks) = do
    vote_key ← map_err types (decode_hex_fixed x 48 k)
    others ← decode_pairs as' ks
    ok (record { address = a; vote_key = vote_key } ∷ others)

  unfoldable pub bootstrap_vote_set :
      List Bytes → Option (List Bytes) → Result SnapshotError (List SealingValidator)
  bootstrap_vote_set validators none = ok []
  bootstrap_vote_set validators (some keys) =
      let sorted = do
        pairs ← decode_pairs validators keys
        ok (sort_by_key (λ (v : SealingValidator). v.address) pairs)
      in if length keys == length validators then sorted else ok []

  unfoldable pub from_checkpoint : Checkpoint → Result SnapshotError Snapshot
  from_checkpoint cp = do
    validators ← decode_addresses cp.sealing_set
    vote_set ← bootstrap_vote_set validators cp.vote_keys
    let fork = params_at cp.number cp.timestamp
    hash ← map_err types (decode_hex_fixed x 32 cp.hash)
    ok (record {
      number = cp.number;
      hash = hash;
      epoch_length = fork.epoch_length;
      turn_length = fork.turn_length;
      validators = sort_by_key (λ (a : Bytes). a) validators;
      pending = none;
      enforce_inturn = true;
      recents = [];
      vote_set = vote_set;
      prev_vote_set = [];
      set_changed_at = 0;
      attestation = none;
      last_milli = none;
      walk_start = saturating_add cp.number 1;
      ancestors = (cp.number, hash) ∷ [];
    })

  unfoldable pub epoch_records : RpcBlockHeader → Result SnapshotError (List SealingValidator × ℕ)
  epoch_records header = do
    number ← map_err types (decode_u64 header.number)
    timestamp ← map_err types (decode_u64 header.timestamp)
    let fork = params_at number timestamp
    ensure (not (fork.epoch_length == 0) && number % fork.epoch_length == 0)
        (not_epoch_boundary number fork.epoch_length)
    raw ← map_err types (decode_hex x header.extra_data)
    parsed ← map_err extra (parse_extra raw fork.extra_data_version true)
    ensure (not (length parsed.validators == 0)) (missing_epoch_extra number)
    ok (
      sort_by_key (λ (v : SealingValidator). v.address) parsed.validators,
      turn_or fork.turn_length parsed.turn_length,
    )

  -- `len() as u32`
  unfoldable pub epoch_seed_at :
      ℕ → ℕ → RpcBlockHeader → RpcBlockHeader → Result SnapshotError EpochSeed
  epoch_seed_at checkpoint_number epoch_length epoch_header prev_epoch_header = do
    epoch_block ← map_err types (decode_u64 epoch_header.number)
    prev_block ← map_err types (decode_u64 prev_epoch_header.number)
    ensure
        (not (epoch_length == 0)
          && leb prev_block epoch_block
          && epoch_block - prev_block == epoch_length)
        (epoch_headers_not_adjacent epoch_block prev_block epoch_length)
    ensure (leb epoch_block checkpoint_number && ltb (checkpoint_number - epoch_block) epoch_length)
        (seed_epoch_mismatch checkpoint_number epoch_block)
    (vals, turn_length) ← epoch_records epoch_header
    (prev_vals, prev_turn) ← epoch_records prev_epoch_header
    let activate_at =
        saturating_add epoch_block (miner_history_check_len (length prev_vals % 2 ^ 32) prev_turn)
    if leb activate_at checkpoint_number
        then ok (active epoch_block turn_length)
        else ok (pending_activation epoch_block activate_at)
