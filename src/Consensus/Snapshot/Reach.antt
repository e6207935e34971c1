-- ===== src/Consensus/Snapshot/Reach.antt =====
-- How far below a header the target of its attestation may lie, for check_attestation of snapshot.rs.
use helios_bsc.Prelude.{
  ℕ, ◌+◌, ◌-◌, ◌≤◌, ◌<◌, ◌≡◌, ◌≢◌, ◌↔◌, ◌⊎◌, refl, Bool, true, false, Option, none, some, List, [],
  ◌∷◌, Bytes, leb, ◌&&◌, Result, ok, err, ◌>>◌, ensure, map_err, >>=-ne-err, map_err-ne, ensure-ne,
  bytes_eq, ◌==◌, ltb, arith,
}
use helios_bsc.Config.{
  london_block, fermi_time, ancestor_generation_depth, attestation_target_window,
}
use helios_bsc.Config.Extra.{SealingValidator}
use helios_bsc.Types.External.{External}
use helios_bsc.Consensus.Vote.{VoteData, VoteAttestation, source_below_target}
use helios_bsc.Consensus.Vote.Reader.{decode_vote_attestation}
use helios_bsc.Consensus.Vote.Verify.{verify_attestation_signature}
use helios_bsc.Consensus.Snapshot.State.{Snapshot, vote, attestation_target}
use helios_bsc.Consensus.Snapshot.Attest.{
  attestation_set, ancestor_hash, check_source, check_resolved, check_against, check_decoded,
  check_attestation,
}

-- The block is the parent of the header, or from the Fermi fork on its parent or grandparent.
abbrev pub IsInReach : ℕ → ℕ → ℕ → Type 0
IsInReach number timestamp k =
    (k + 1 ≡ number)
    ⊎ ((london_block ≤ number) × (fermi_time ≤ timestamp) × (k < number) × (number ≤ k + 3))

attestation_target_window-IsInReach :
    (number timestamp k : ℕ)
    → 0 < number
    → ((leb (attestation_target_window number timestamp).0 k
          && leb k (attestation_target_window number timestamp).1)
        ≡ true)
      ↔ IsInReach number timestamp k
unfolding attestation_target_window ancestor_generation_depth
attestation_target_window-IsInReach number timestamp k pos = (λ h. ground arith, λ h. ground arith)

check_source-ne :
    (held : Option VoteData) (att : VoteData) (parent k : ℕ)
    → check_source held att ≢ err (attestation_target parent k)
unfolding check_source
check_source-ne none att parent k = λ e. cc
check_source-ne (some cur) att parent k =
    >>=-ne-err (ensure (att.source_number == cur.target_number) _) _ (attestation_target parent k)
      (ensure-ne _ _ (attestation_target parent k) (λ q. cc))
      λ u e. ensure-ne _ _ (attestation_target parent k) (λ q. cc)

-- A guard refuses with its error just where its test does not hold, if no later step gives that error.
guard_refuses :
    {E : Type 0} {A : Type 0} {P : Type 0} (c : Bool) (e : E) (later : Result E A)
    → (c ≡ true) ↔ P
    → later ≢ err e
    → ((ensure c e >> later) ≡ err e) ↔ ¬ P
guard_refuses true e later holds apart =
    (λ h p. apart h, λ not_held. absurd (not_held (holds.0 refl)))
guard_refuses false e later holds apart = (λ h p. let never = holds.1 p in cc, λ not_held. refl)

module _ (x : External) (s : Snapshot) (att : VoteAttestation) where
  check_resolved-ne :
      (set : List SealingValidator) (at : Option Bytes) (parent k : ℕ)
      → check_resolved x s att set at ≢ err (attestation_target parent k)
  unfolding check_resolved
  check_resolved-ne set none parent k = λ e. cc
  check_resolved-ne set (some h) parent k =
      let other = attestation_target parent k in
      >>=-ne-err (ensure (bytes_eq h att.vote.target_hash) _) _ other
        (ensure-ne _ _ other (λ q. cc))
        λ u e.
          >>=-ne-err (check_source s.attestation att.vote) _ other
            (check_source-ne s.attestation att.vote parent k)
            λ u' e'.
              >>=-ne-err (map_err vote (verify_attestation_signature x att set)) _ other
                (map_err-ne vote (verify_attestation_signature x att set) other (λ d q. cc))
                λ u″ e″ q. cc

  check_against-IsInReach :
      (number timestamp : ℕ) (set : List SealingValidator)
      → 0 < number
      → set ≢ []
      → (check_against x s att number timestamp set
          ≡ err (attestation_target (number - 1) att.vote.target_number))
        ↔ ¬ IsInReach number timestamp att.vote.target_number
  unfolding check_against attestation_target_window
  check_against-IsInReach number timestamp [] pos known = absurd (known refl)
  check_against-IsInReach number timestamp (v ∷ vs) pos known =
      guard_refuses _ (attestation_target (number - 1) att.vote.target_number)
        (check_resolved x s att (v ∷ vs) (ancestor_hash s att.vote.target_number))
        (attestation_target_window-IsInReach number timestamp att.vote.target_number pos)
        (check_resolved-ne (v ∷ vs) (ancestor_hash s att.vote.target_number) (number - 1)
          att.vote.target_number)

-- Where the header's number is positive, its attestation decodes with its source below its target,
-- and the vote set for the target is not empty: check_attestation refuses the target's number with
-- attestation_target, unless the target is the header's parent, or the header's number and
-- timestamp reach London and Fermi and the target is one to three blocks below the header; in these
-- cases it never gives that error.
pub check_attestation-IsInReach :
    (x : External) (s : Snapshot) (raw : Bytes) (number timestamp : ℕ) (att : VoteAttestation)
    → 0 < number
    → decode_vote_attestation raw ≡ ok (some att)
    → att.vote.source_number < att.vote.target_number
    → attestation_set s att.vote.target_number ≢ []
    → (check_attestation x s raw number timestamp
        ≡ err (attestation_target (number - 1) att.vote.target_number))
      ↔ ¬ IsInReach number timestamp att.vote.target_number
unfolding check_attestation check_decoded source_below_target
check_attestation-IsInReach x s raw number timestamp att pos read below known =
    let lt : ltb att.vote.source_number att.vote.target_number ≡ true = ground arith in
    rw (read, lt)
      (check_against-IsInReach x s att number timestamp (attestation_set s att.vote.target_number)
        pos known)
