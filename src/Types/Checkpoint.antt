-- ===== src/Types/Checkpoint.antt =====
-- The trusted checkpoint of crates/helios-bsc-types/src/lib.rs.
use helios_bsc.Prelude.{
  ℕ, Bool, false, not, Option, none, some, List, [], ◌∷◌, Bytes, length, bytes_eq, ◌==◌, ◌||◌,
  Result, ok, err, ◌>>=◌, ◌>>◌, ensure,
}
use helios_bsc.Types.External.{External}
use helios_bsc.Types.Header.{RpcBlockHeader}
use helios_bsc.Types.Hex.{
  TypesError, CheckpointField, hash, parent_hash, state_root, unsupported_chain_id,
  empty_sealing_set, bad_sealing_address, duplicate_sealing_address, bad_checkpoint_hash,
  vote_key_count_mismatch, bad_vote_key, duplicate_vote_key, decode_u64, decode_hex_fixed,
}

abbrev pub bsc_mainnet_chain_id : ℕ
bsc_mainnet_chain_id = 56

pub record Checkpoint : Type 0 where
  pub chain_id : ℕ
  pub number : ℕ
  pub hash : Bytes
  pub parent_hash : Bytes
  pub state_root : Bytes
  pub timestamp : ℕ
  pub fork_id : Bytes
  pub sealing_set : List Bytes
  pub vote_keys : Option (List Bytes)
  pub attestation : Option Bytes

-- `map_err(|_| e)`
abbrev pub or_else : {A : Type 0} → Result TypesError A → TypesError → Result TypesError A
or_else (ok a) e = ok a
or_else (err d) e = err e

-- `!seen.insert(v)` on a `HashSet`.
unfoldable pub seen_before : List Bytes → Bytes → Bool
seen_before [] v = false
seen_before (a ∷ as') v = bytes_eq a v || seen_before as' v

module _ (x : External) where
  -- The loops over the addresses and the keys: each text decodes to `width` bytes, and to new ones.
  unfoldable pub all_new :
      ℕ → TypesError → TypesError → List Bytes → List Bytes → Result TypesError (Unit {0})
  all_new width bad twice seen [] = ok tt
  all_new width bad twice seen (text ∷ texts) = do
    v ← or_else (decode_hex_fixed x width text) bad
    ensure (not (seen_before seen v)) twice
    all_new width bad twice (v ∷ seen) texts

  unfoldable pub check_keys : List Bytes → Option (List Bytes) → Result TypesError (Unit {0})
  check_keys sealing_set none = ok tt
  check_keys sealing_set (some keys) = do
    ensure (length keys == length sealing_set)
        (vote_key_count_mismatch (length keys) (length sealing_set))
    all_new 48 bad_vote_key duplicate_vote_key [] keys

  unfoldable pub check_hash : CheckpointField → Bytes → Result TypesError (Unit {0})
  check_hash field v = do _ ← or_else (decode_hex_fixed x 32 v) (bad_checkpoint_hash field); ok tt

  unfoldable pub validate_basic : Checkpoint → Result TypesError (Unit {0})
  validate_basic cp = do
    ensure (cp.chain_id == bsc_mainnet_chain_id) (unsupported_chain_id cp.chain_id)
    ensure (not (length cp.sealing_set == 0)) empty_sealing_set
    all_new 20 bad_sealing_address duplicate_sealing_address [] cp.sealing_set
    check_hash hash cp.hash
    check_hash parent_hash cp.parent_hash
    check_hash state_root cp.state_root
    check_keys cp.sealing_set cp.vote_keys

unfoldable pub with_vote_keys : Checkpoint → List Bytes → Checkpoint
with_vote_keys cp vote_keys = record cp { vote_keys = some vote_keys }

unfoldable pub from_rpc_header :
    RpcBlockHeader → List Bytes → Bytes → Option Bytes → Result TypesError Checkpoint
from_rpc_header header sealing_set fork_id attestation = do
  number ← decode_u64 header.number
  timestamp ← decode_u64 header.timestamp
  ok (record {
    chain_id = bsc_mainnet_chain_id;
    number = number;
    hash = header.hash;
    parent_hash = header.parent_hash;
    state_root = header.state_root;
    timestamp = timestamp;
    fork_id = fork_id;
    sealing_set = sealing_set;
    vote_keys = none;
    attestation = attestation;
  })
