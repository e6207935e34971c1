-- ===== src/Tests/Samples.antt =====
-- Sample values: instances of the external functions, a snapshot, headers, an attestation.
use helios_bsc.Prelude.{
  ℕ, ◌+◌, ◌*◌, ◌/◌, ◌%◌, true, Option, none, some, List, [], ◌∷◌, ◌++◌, Bytes, replicate, leb, ltb,
  if◌then◌else◌,
}
use helios_bsc.Rlp.Encode.{encode_bytes, encode_list, encode_uint}
use helios_bsc.Types.External.{External}
use helios_bsc.Types.Header.{RpcBlockHeader}
use helios_bsc.Types.Hex.{to_digit}
use helios_bsc.Config.Extra.{SealingValidator}
use helios_bsc.Consensus.Vote.{VoteData, VoteAttestation}
use helios_bsc.Consensus.Snapshot.State.{Snapshot}

-- Two digits make a byte.
abbrev pub pairs : Option ℕ → Option ℕ → Option Bytes → Option Bytes
pairs (some hi) (some lo) (some rest) = some ((hi * 16 + lo) ∷ rest)
pairs none lo rest = none
pairs (some hi) none rest = none
pairs (some hi) (some lo) none = none

abbrev pub unhex : Bytes → Option Bytes
unhex [] = some []
unhex (a ∷ []) = none
unhex (a ∷ b ∷ s) = pairs (to_digit a) (to_digit b) (unhex s)

abbrev pub hex_digit : ℕ → ℕ
hex_digit d = if ltb d 10 then d + b'0' else d + 87

abbrev pub hex_digits : Bytes → Bytes
hex_digits [] = []
hex_digits (b ∷ bs) = hex_digit (b / 16) ∷ hex_digit (b % 16) ∷ hex_digits bs

abbrev pub hex_text : Bytes → Bytes
hex_text bs = b'0' ∷ b'x' ∷ hex_digits bs

-- Every key and every signature is good here, and a hash is 32 times one byte.
abbrev pub sample_external : External
sample_external = record {
  hex_decode = unhex;
  hex_encode = hex_digits;
  keccak256 = λ b. replicate 32 7;
  recovery_id = λ v. leb v 3;
  recover_ecdsa = λ digest sig id. some (0x04 ∷ replicate 64 1);
  PublicKey = ℕ;
  Signature = ℕ;
  key_validate = λ b. some 1;
  aggregate = λ keys. some 2;
  sig_validate = λ b. some 3;
  verify = λ sig message key. true;
}

abbrev pub address_a : Bytes
address_a = replicate 20 0xaa

abbrev pub address_b : Bytes
address_b = replicate 20 0xbb

abbrev pub address_c : Bytes
address_c = replicate 20 0xcc

abbrev pub sample_set : List SealingValidator
sample_set =
    record { address = address_a; vote_key = replicate 48 1 }
    ∷ record { address = address_b; vote_key = replicate 48 2 }
    ∷ record { address = address_c; vote_key = replicate 48 3 }
    ∷ []

abbrev pub hash_9 : Bytes
hash_9 = replicate 32 9

abbrev pub hash_10 : Bytes
hash_10 = replicate 32 10

abbrev pub hash_11 : Bytes
hash_11 = replicate 32 11

abbrev pub hash_12 : Bytes
hash_12 = replicate 32 12

-- Block 11 justified on top of block 10, by the vote of all three.
abbrev pub vote_11 : VoteData
vote_11 = record {
  source_number = 10;
  source_hash = hash_10;
  target_number = 11;
  target_hash = hash_11;
}

abbrev pub attestation_11 : VoteAttestation
attestation_11 = record {
  vote_address_set = 7;
  agg_signature = replicate 96 9;
  vote = vote_11;
  extra = [];
}

-- Two of the three are enough.
abbrev pub attestation_of_two : VoteAttestation
attestation_of_two = record attestation_11 { vote_address_set = 6 }

-- The bytes of `attestation_11`.
abbrev pub raw_attestation_11 : Bytes
unfolding encode_list encode_bytes encode_uint
raw_attestation_11 = encode_list (
    encode_uint 7
    ∷ encode_bytes (replicate 96 9)
    ∷ encode_list
        (encode_uint 10 ∷ encode_bytes hash_10 ∷ encode_uint 11 ∷ encode_bytes hash_11 ∷ [])
    ∷ encode_bytes []
    ∷ [])

-- Behind block 11, with block 10 justified.
abbrev pub snapshot_11 : Snapshot
snapshot_11 = record {
  number = 11;
  hash = hash_11;
  epoch_length = 1000;
  turn_length = 1;
  validators = address_a ∷ address_b ∷ address_c ∷ [];
  pending = none;
  enforce_inturn = true;
  recents = (10, address_b) ∷ (9, address_c) ∷ [];
  vote_set = sample_set;
  prev_vote_set = [];
  set_changed_at = 0;
  attestation = some (record {
    source_number = 9;
    source_hash = hash_9;
    target_number = 10;
    target_hash = hash_10;
  });
  last_milli = some 1760000000000;
  walk_start = 9;
  ancestors = (9, hash_9) ∷ (10, hash_10) ∷ (11, hash_11) ∷ [];
}

-- The first validator has sealed block 11.
abbrev pub snapshot_signed : Snapshot
snapshot_signed = record snapshot_11 { recents = (11, address_a) ∷ (10, address_b) ∷ [] }

-- A set of two takes over at block 12.
abbrev pub snapshot_due : Snapshot
snapshot_due = record snapshot_11 {
  pending = some (record {
    epoch_block = 0;
    activate_at = 12;
    validators = address_b ∷ address_c ∷ [];
    vote_keys = replicate 48 2 ∷ replicate 48 3 ∷ [];
    turn_length = 4;
  });
}

abbrev pub sample_extra : Bytes
sample_extra = replicate 32 0 ++ (raw_attestation_11 ++ replicate 65 5)

-- Block 12, sealed in turn by the first validator, with the attestation of block 11.
abbrev pub header_12 : RpcBlockHeader
header_12 = record {
  hash = hex_text hash_12;
  parent_hash = hex_text hash_11;
  sha3_uncles = [];
  miner = hex_text address_a;
  state_root = [];
  transactions_root = [];
  receipts_root = [];
  logs_bloom = [];
  difficulty = b'0' ∷ b'x' ∷ b'2' ∷ [];
  number = b'0' ∷ b'x' ∷ b'c' ∷ [];
  gas_limit = hex_text (0x05 ∷ 0xf5 ∷ 0xe1 ∷ 0x00 ∷ []);
  gas_used = [];
  timestamp = hex_text (0x68 ∷ 0xe7 ∷ 0x78 ∷ 0x01 ∷ []);
  extra_data = hex_text sample_extra;
  mix_hash = hex_text (replicate 32 0);
  nonce = [];
  base_fee_per_gas = none;
  withdrawals_root = none;
  blob_gas_used = none;
  excess_blob_gas = none;
  parent_beacon_block_root = none;
  requests_hash = none;
}
