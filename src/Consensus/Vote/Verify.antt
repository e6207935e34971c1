-- ===== src/Consensus/Vote/Verify.antt =====
-- The bit set of voters and the signature half of `verifyVoteAttestation`, in vote.rs.
use helios_bsc.Prelude.{
  ℕ, zero, suc, ◌+◌, ◌/◌, ◌%◌, ◌^◌, min, Bool, true, false, List, [], ◌∷◌, Bytes, length, get_elem?,
  leb, ◌==◌, not, if◌then◌else◌, Result, ok, ◌>>=◌, ◌>>◌, ensure, ok_or,
}
use helios_bsc.Config.Extra.{SealingValidator}
use helios_bsc.Types.External.{External}
use helios_bsc.Consensus.Vote.{
  VoteError, VoteAttestation, vote_hash, min_votes_for_finality, max_attestation_extra_len,
  extra_too_long, vote_number_larger_than_validators, bit_out_of_range, no_votes, not_enough_votes,
  invalid_vote_key, invalid_signature, aggregate_failed, signature_verify_failed,
  index_out_of_bounds,
}

-- `u64::count_ones` and `u64::trailing_zeros` over the `k` lowest bits.
unfoldable pub count_ones : ℕ → ℕ → ℕ
count_ones zero set = 0
count_ones (suc k) set = set % 2 + count_ones k (set / 2)

unfoldable pub trailing_zeros : ℕ → ℕ → ℕ
trailing_zeros zero set = 0
trailing_zeros (suc k) set = if set % 2 == 1 then 0 else suc (trailing_zeros k (set / 2))

-- `(from..from + k).filter(|&i| (set >> i) & 1 == 1)`, where `set` is shifted by `from` already.
unfoldable pub set_bits : ℕ → ℕ → ℕ → List ℕ
set_bits zero from set = []
set_bits (suc k) from set =
    let rest = set_bits k (from + 1) (set / 2) in if set % 2 == 1 then from ∷ rest else rest

unfoldable pub voted_indices : ℕ → ℕ → Result VoteError (List ℕ)
voted_indices set n = do
  let voted = count_ones 64 set
  ensure (leb voted n) (vote_number_larger_than_validators voted n)
  let high = if leb 64 n then 0 else set / 2 ^ n
  ensure (high == 0) (bit_out_of_range (n + trailing_zeros 64 high) n)
  ok (set_bits (min n 64) 0 set)

-- `validators[i]`
abbrev pub validator_at : List SealingValidator → ℕ → Result VoteError SealingValidator
validator_at validators i = ok_or (get_elem? validators i) index_out_of_bounds

unfoldable pub addresses_at : List SealingValidator → List ℕ → Result VoteError (List Bytes)
addresses_at validators [] = ok []
addresses_at validators (i ∷ is) = do
  v ← validator_at validators i
  others ← addresses_at validators is
  ok (v.address ∷ others)

unfoldable pub voted_validators :
    VoteAttestation → List SealingValidator → Result VoteError (List Bytes)
voted_validators att validators = do
  indices ← voted_indices att.vote_address_set (length validators)
  addresses_at validators indices

abbrev pub is_empty {ℓ} : {A : Type ℓ} → List A → Bool
is_empty [] = true
is_empty (x ∷ xs) = false

module _ (x : External) where
  open x use {PublicKey, key_validate, aggregate, sig_validate, verify}

  -- The loop that validates the key of each voter.
  unfoldable pub keys_at : List SealingValidator → List ℕ → Result VoteError (List PublicKey)
  keys_at validators [] = ok []
  keys_at validators (i ∷ is) = do
    v ← validator_at validators i
    key ← ok_or (key_validate v.vote_key) (invalid_vote_key i)
    others ← keys_at validators is
    ok (key ∷ others)

  unfoldable pub verify_attestation_signature :
      VoteAttestation → List SealingValidator → Result VoteError (Unit {0})
  verify_attestation_signature att validators = do
    ensure (leb (length att.extra) max_attestation_extra_len) (extra_too_long (length att.extra))
    indices ← voted_indices att.vote_address_set (length validators)
    ensure (not (is_empty indices)) no_votes
    keys ← keys_at validators indices
    let need = min_votes_for_finality (length validators)
    ensure (leb need (length keys)) (not_enough_votes (length keys) need)
    pk ← ok_or (aggregate keys) aggregate_failed
    sig ← ok_or (sig_validate att.agg_signature) invalid_signature
    ensure (verify sig (vote_hash x att.vote) pk) signature_verify_failed
