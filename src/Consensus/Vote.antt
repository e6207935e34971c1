-- ===== src/Consensus/Vote.antt =====
-- crates/helios-bsc-consensus/src/vote.rs: the data of a vote attestation and its errors.
pub mod Reader
pub mod Verify
pub mod Bits
pub mod Quorum
pub mod Endorsed
pub mod Ends
pub mod Bounds
use helios_bsc.Prelude.{
  ℕ, ◌+◌, ◌*◌, ◌/◌, ◌%◌, ◌^◌, Bool, Option, List, [], ◌∷◌, Bytes, length, leb, ltb, ◌==◌,
  if◌then◌else◌, Result, ok, err, ◌>>=◌, ◌>>◌, ensure,
}
use helios_bsc.Prelude.Words.{saturating_mul}
use helios_bsc.Rlp.Encode.{encode_bytes, encode_list, encode_uint128}
use helios_bsc.Types.External.{External}

abbrev pub bls_signature_len : ℕ
bls_signature_len = 96

abbrev pub max_attestation_extra_len : ℕ
max_attestation_extra_len = 256

-- The messages that `VoteError::Rlp` carries. `out_of_fuel` has no counterpart in the program.
pub data Reason : Type 0 where
  attestation_not_four_items signature_width data_not_four_items : Reason
  source_hash_width target_hash_width : Reason
  trailing_bytes end_of_input wrapped_byte nested_deeper leading_zero_length : Reason
  length_overflow long_form payload_overruns expected_string expected_list : Reason
  integer_too_long integer_leading_zero out_of_fuel : Reason

-- `index_out_of_bounds` stands for the panic of a slice index.
pub data VoteError : Type 0 where
  rlp : Reason → VoteError
  extra_too_long : ℕ → VoteError
  source_not_below_target : ℕ → ℕ → VoteError
  vote_number_larger_than_validators : ℕ → ℕ → VoteError
  bit_out_of_range : ℕ → ℕ → VoteError
  no_votes : VoteError
  not_enough_votes : ℕ → ℕ → VoteError
  invalid_vote_key : ℕ → VoteError
  invalid_signature aggregate_failed signature_verify_failed : VoteError
  index_out_of_bounds : VoteError

pub record VoteData : Type 0 where
  pub source_number : ℕ
  pub source_hash : Bytes
  pub target_number : ℕ
  pub target_hash : Bytes

unfoldable pub source_below_target : VoteData → Result VoteError (Unit {0})
source_below_target d =
    ensure (ltb d.source_number d.target_number)
      (source_not_below_target d.source_number d.target_number)

-- `VoteData.Hash()`, the signed message.
unfoldable pub vote_hash : External → VoteData → Bytes
vote_hash x d = x.keccak256 (
    encode_list (
      encode_uint128 d.source_number
      ∷ encode_bytes d.source_hash
      ∷ encode_uint128 d.target_number
      ∷ encode_bytes d.target_hash
      ∷ []))

pub record VoteAttestation : Type 0 where
  pub vote_address_set : ℕ
  pub agg_signature : Bytes
  pub vote : VoteData
  pub extra : Bytes

-- `n.saturating_mul(2).div_ceil(3)`
unfoldable pub min_votes_for_finality : ℕ → ℕ
min_votes_for_finality n = (saturating_mul n 2 + 2) / 3
