-- ===== src/Consensus/Engine/Checkpoints.antt =====
-- The checkpoints of lib.rs: the validators of an epoch that is active, a checkpoint at the tip of a
-- snapshot, and the match of a header with a checkpoint.
use helios_bsc.Prelude.{
  ℕ, ◌+◌, ◌%◌, ◌^◌, Bool, true, not, Option, none, some, List, [], ◌∷◌, map, Bytes, length, leb,
  ◌==◌, ◌&&◌, bytes_eq, if◌then◌else◌, Result, ok, ◌>>=◌, ◌>>◌, ensure, map_err,
}
use helios_bsc.Prelude.Words.{saturating_add}
use helios_bsc.Config.{params_at, bohr, miner_history_check_len}
use helios_bsc.Config.Extra.{SealingValidator, parse_extra}
use helios_bsc.Types.External.{External}
use helios_bsc.Types.Header.{RpcBlockHeader}
use helios_bsc.Types.Hex.{decode_u64, decode_hex, decode_hex_fixed, format_hex, format_address}
use helios_bsc.Types.Checkpoint.{Checkpoint, from_rpc_header, with_vote_keys}
use helios_bsc.Consensus.Seal.Hash.{header_hash}
use helios_bsc.Consensus.Snapshot.State.{Snapshot}
use helios_bsc.Consensus.Snapshot.Apply.{turn_or}
use helios_bsc.Consensus.Snapshot.Header.{sealing_set_hex, vote_keys_hex}
use helios_bsc.Consensus.Engine.{
  ConsensusError, checkpoint_mismatch, field_number, field_hash, field_parent_hash,
  field_state_root, seal, types, extra, not_epoch, empty_epoch_validators, epoch_set_not_activated,
}

-- `trim_start_matches("0x")` and `trim_start_matches("0X")`: every copy in front, `b` being the
-- second letter.
unfoldable pub trim_start : ℕ → Bytes → Bytes
trim_start b [] = []
trim_start b (c ∷ []) = c ∷ []
trim_start b (c ∷ d ∷ cs) =
    let rest = trim_start b cs in if c == b'0' && d == b then rest else c ∷ d ∷ cs

-- `to_ascii_lowercase`
unfoldable pub to_ascii_lowercase : ℕ → ℕ
to_ascii_lowercase c = if leb b'A' c && leb c b'Z' then c + 32 else c

unfoldable pub hex_eq : Bytes → Bytes → Bool
hex_eq a b =
    bytes_eq (map to_ascii_lowercase (trim_start b'X' (trim_start b'x' a)))
      (map to_ascii_lowercase (trim_start b'X' (trim_start b'x' b)))

unfoldable pub carry_vote_keys : Option (List Bytes) → Checkpoint → Checkpoint
carry_vote_keys none cp = cp
carry_vote_keys (some keys) cp = with_vote_keys cp keys

module _ (x : External) where
  unfoldable pub validators_from_activated_epoch :
      RpcBlockHeader → ℕ → Result ConsensusError (List SealingValidator)
  validators_from_activated_epoch epoch_header checkpoint_number = do
    number ← map_err types (decode_u64 epoch_header.number)
    timestamp ← map_err types (decode_u64 epoch_header.timestamp)
    let fork = params_at number timestamp
    ensure (number % fork.epoch_length == 0) (not_epoch number fork.epoch_length)
    raw ← map_err types (decode_hex x epoch_header.extra_data)
    parsed ← map_err extra (parse_extra raw bohr true)
    ensure (not (length parsed.validators == 0)) (empty_epoch_validators number)
    let n = length parsed.validators % 2 ^ 32
    let turn = turn_or fork.turn_length parsed.turn_length
    let activate_at = saturating_add number (miner_history_check_len n turn)
    ensure (leb activate_at checkpoint_number)
        (epoch_set_not_activated number activate_at checkpoint_number)
    ok parsed.validators

  abbrev address_text : SealingValidator → Bytes
  address_text v = format_address x v.address

  abbrev key_text : SealingValidator → Bytes
  key_text v = format_hex x v.vote_key

  unfoldable pub sealing_set_from_activated_epoch :
      RpcBlockHeader → ℕ → Result ConsensusError (List Bytes)
  sealing_set_from_activated_epoch epoch_header checkpoint_number = do
    validators ← validators_from_activated_epoch epoch_header checkpoint_number
    ok (map address_text validators)

  unfoldable pub vote_keys_from_activated_epoch :
      RpcBlockHeader → ℕ → Result ConsensusError (List Bytes)
  vote_keys_from_activated_epoch epoch_header checkpoint_number = do
    validators ← validators_from_activated_epoch epoch_header checkpoint_number
    ok (map key_text validators)

  unfoldable pub checkpoint_at_snapshot :
      RpcBlockHeader → Snapshot → Bytes → Option Bytes → Result ConsensusError Checkpoint
  checkpoint_at_snapshot header s fork_id attestation = do
    number ← map_err types (decode_u64 header.number)
    ensure (number == s.number) (checkpoint_mismatch field_number)
    got ← map_err seal (header_hash x header)
    ensure (bytes_eq got s.hash) (checkpoint_mismatch field_hash)
    let renamed = record header { hash = format_hex x got }
    cp ← map_err types (from_rpc_header renamed (sealing_set_hex x s) fork_id attestation)
    ok (carry_vote_keys (vote_keys_hex x s) cp)

  unfoldable pub header_matches_checkpoint :
      Checkpoint → RpcBlockHeader → Result ConsensusError (Unit {0})
  header_matches_checkpoint checkpoint header = do
    number ← map_err types (decode_u64 header.number)
    ensure (number == checkpoint.number) (checkpoint_mismatch field_number)
    computed ← map_err seal (header_hash x header)
    want ← map_err types (decode_hex_fixed x 32 checkpoint.hash)
    ensure (bytes_eq computed want) (checkpoint_mismatch field_hash)
    ensure (hex_eq header.parent_hash checkpoint.parent_hash)
        (checkpoint_mismatch field_parent_hash)
    ensure (hex_eq header.state_root checkpoint.state_root) (checkpoint_mismatch field_state_root)
