-- ===== src/Consensus/Vote/Bounds.antt =====
-- No index of vote.rs leaves the list of validators.
use helios_bsc.Prelude.{
  ℕ, zero, suc, ◌+◌, ◌/◌, ◌^◌, ◌<◌, ◌≡◌, ◌≢◌, refl, sym, min, Option, none, some, List, [], ◌∷◌,
  length, get_elem?, leb, ◌==◌, not, true, false, Bool, if◌then◌else◌, Result, ok, err, ensure,
  ok_or, ◌>>◌, >>=-ne-err, arith,
}
use mathlib.Core.Path.{subst}
use helios_bsc.Config.Extra.{SealingValidator}
use helios_bsc.Types.External.{External}
use helios_bsc.Consensus.Vote.{
  VoteError, VoteAttestation, min_votes_for_finality, max_attestation_extra_len,
  index_out_of_bounds, invalid_vote_key, aggregate_failed, invalid_signature,
}
use helios_bsc.Consensus.Vote.Verify.{
  count_ones, set_bits, voted_indices, validator_at, addresses_at, voted_validators, keys_at,
  is_empty, verify_attestation_signature,
}
use helios_bsc.Consensus.Vote.Quorum.{Ascending, set_bits-Ascending, voted_indices-ok}

abbrev InBounds : {A : Type 0} → Result VoteError A → Type 0
InBounds result = result ≢ err index_out_of_bounds

ensure-InBounds :
    {A : Type 0} (c : Bool) (e : VoteError) (m : Result VoteError A)
    → e ≢ index_out_of_bounds
    → InBounds m
    → InBounds (ensure c e >> m)
ensure-InBounds true e m other h = h
ensure-InBounds false e m other h = λ q. other (cc q)

ok_or-InBounds :
    {A : Type 0} (o : Option A) (e : VoteError) → e ≢ index_out_of_bounds → InBounds (ok_or o e)
ok_or-InBounds none e other = λ q. other (cc q)
ok_or-InBounds (some a) e other = λ q. cc

get_elem?-lt :
    {A : Type 0} (i : ℕ) (xs : List A) → i < length xs → (a : A) × (get_elem? xs i ≡ some a)
get_elem?-lt i [] h = absurd (omega arith)
get_elem?-lt zero (x ∷ xs) h = (x, refl)
get_elem?-lt (suc i) (x ∷ xs) h = get_elem?-lt i xs (omega arith)

module _ (validators : List SealingValidator) where
  validator_at-InBounds : (i : ℕ) → i < length validators → InBounds (validator_at validators i)
  validator_at-InBounds i h =
      let (v, e) = get_elem?-lt i validators h in
      subst (λ o. InBounds (ok_or o index_out_of_bounds)) (sym e) (λ q. cc)

  addresses_at-InBounds :
      (lo : ℕ) (is : List ℕ)
      → Ascending lo (length validators) is
      → InBounds (addresses_at validators is)
  unfolding addresses_at
  addresses_at-InBounds lo [] h = λ q. cc
  addresses_at-InBounds lo (i ∷ is) (_, high, h) =
      >>=-ne-err (validator_at validators i) _ index_out_of_bounds (validator_at-InBounds i high)
        λ v e.
          >>=-ne-err (addresses_at validators is) _ index_out_of_bounds
            (addresses_at-InBounds (i + 1) is h) λ others e' q. cc

  keys_at-InBounds :
      (x : External) (lo : ℕ) (is : List ℕ)
      → Ascending lo (length validators) is
      → InBounds (keys_at x validators is)
  unfolding keys_at
  keys_at-InBounds x lo [] h = λ q. cc
  keys_at-InBounds x lo (i ∷ is) (_, high, h) =
      >>=-ne-err (validator_at validators i) _ index_out_of_bounds (validator_at-InBounds i high)
        λ v e.
          >>=-ne-err (ok_or (x.key_validate v.vote_key) (invalid_vote_key i)) _ index_out_of_bounds
            (ok_or-InBounds (x.key_validate v.vote_key) _ (λ q. cc))
            λ key e'.
              >>=-ne-err (keys_at x validators is) _ index_out_of_bounds
                (keys_at-InBounds x (i + 1) is h) λ others e'' q. cc

voted_indices-InBounds : (set n : ℕ) → InBounds (voted_indices set n)
unfolding voted_indices
voted_indices-InBounds set n =
    ensure-InBounds (leb (count_ones 64 set) n) _ _ (λ q. cc)
      (ensure-InBounds ((if leb 64 n then 0 else set / 2 ^ n) == 0) _
        (ok (set_bits (min n 64) 0 set)) (λ q. cc) (λ q. cc))

voted_indices-Ascending : (set n : ℕ) (is : List ℕ) → voted_indices set n ≡ ok is → Ascending 0 n is
voted_indices-Ascending set n is e =
    subst (Ascending 0 n) (voted_indices-ok set n is e)
      (set_bits-Ascending (min n 64) 0 set n (ground arith))

-- For every attestation and every list of validators, neither verify_attestation_signature nor
-- voted_validators reaches an index out of the list, where the program would panic.
pub verify_attestation_signature-InBounds :
    (x : External) (att : VoteAttestation) (validators : List SealingValidator)
    → (verify_attestation_signature x att validators ≢ err index_out_of_bounds)
      × (voted_validators att validators ≢ err index_out_of_bounds)
unfolding verify_attestation_signature voted_validators
verify_attestation_signature-InBounds x att validators =
    let n = length validators in
    let set = att.vote_address_set in
    (
      ensure-InBounds (leb (length att.extra) max_attestation_extra_len) _ _ (λ q. cc)
          (>>=-ne-err (voted_indices set n) _ index_out_of_bounds (voted_indices-InBounds set n)
            λ is e.
              ensure-InBounds (not (is_empty is)) _ _ (λ q. cc)
                (>>=-ne-err (keys_at x validators is) _ index_out_of_bounds
                  (keys_at-InBounds validators x 0 is (voted_indices-Ascending set n is e))
                  λ keys e'.
                    ensure-InBounds (leb (min_votes_for_finality n) (length keys)) _ _ (λ q. cc)
                      (>>=-ne-err (ok_or (x.aggregate keys) aggregate_failed) _ index_out_of_bounds
                        (ok_or-InBounds (x.aggregate keys) _ (λ q. cc))
                        λ pk e''.
                          >>=-ne-err (ok_or (x.sig_validate att.agg_signature) invalid_signature) _
                            index_out_of_bounds
                            (ok_or-InBounds (x.sig_validate att.agg_signature) _ (λ q. cc))
                            λ sig f. ground arith))),
      >>=-ne-err (voted_indices set n) _ index_out_of_bounds (voted_indices-InBounds set n)
          λ is e. addresses_at-InBounds validators 0 is (voted_indices-Ascending set n is e),
    )
