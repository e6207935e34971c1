-- ===== src/Consensus/Snapshot/Attest.antt =====
-- Attestations in snapshot.rs: what they are checked against, and how they move the justified and
-- the finalized block.
use mathlib.Core.Option
use mathlib.Core.List.{reverse}
use helios_bsc.Prelude.{
  ℕ, ◌-◌, not, Option, none, some, List, [], ◌∷◌, Bytes, leb, ltb, ◌==◌, bytes_eq, ◌&&◌,
  if◌then◌else◌, Result, ok, ◌>>=◌, ◌>>◌, ensure, map_err,
}
use helios_bsc.Prelude.Words.{saturating_add}
use helios_bsc.Config.{attestation_target_window}
use helios_bsc.Config.Extra.{SealingValidator}
use helios_bsc.Types.External.{External}
use helios_bsc.Consensus.Vote.{VoteData, VoteAttestation, source_below_target}
use helios_bsc.Consensus.Vote.Reader.{decode_vote_attestation}
use helios_bsc.Consensus.Vote.Verify.{verify_attestation_signature}
use helios_bsc.Consensus.Snapshot.State.{
  Snapshot, SnapshotError, vote, attestation_target, attestation_target_hash, attestation_source,
  attestation_source_hash, retain,
}

unfoldable pub justified : Snapshot → Option (ℕ × Bytes)
justified s = Option.map (λ (a : VoteData). (a.target_number, a.target_hash)) s.attestation

unfoldable pub finalized : Snapshot → Option (ℕ × Bytes)
finalized s = Option.map (λ (a : VoteData). (a.source_number, a.source_hash)) s.attestation

abbrev pub source_or_zero : Option VoteData → ℕ
source_or_zero none = 0
source_or_zero (some a) = a.source_number

unfoldable pub finalized_number : Snapshot → ℕ
finalized_number s = source_or_zero s.attestation

-- The new attestation beside the one that is held.
abbrev pub adopted : Option VoteData → VoteData → VoteData
adopted none new = new
adopted (some cur) new =
    if not (saturating_add new.source_number 1 == new.target_number)
    then record cur { target_number = new.target_number; target_hash = new.target_hash }
    else new

unfoldable pub adopt_attestation : Snapshot → VoteData → Snapshot
adopt_attestation s new = record s { attestation = some (adopted s.attestation new) }

unfoldable pub prune_recents_to_finalized : Snapshot → Snapshot
unfolding finalized_number
prune_recents_to_finalized s = record s {
  recents = retain (λ block. ltb (finalized_number s) block) s.recents;
}

unfoldable pub attestation_set : Snapshot → ℕ → List SealingValidator
attestation_set s target_number =
    if ltb (target_number - 1) s.set_changed_at then s.prev_vote_set else s.vote_set

unfoldable pub find_number : ℕ → List (ℕ × Bytes) → Option Bytes
find_number number [] = none
find_number number ((n, h) ∷ rest) = if n == number then some h else find_number number rest

-- The newest entry is found first.
unfoldable pub ancestor_hash : Snapshot → ℕ → Option Bytes
unfolding find_number
ancestor_hash s number = find_number number (reverse s.ancestors)

-- The source must be the block that is justified already, if one is.
unfoldable pub check_source : Option VoteData → VoteData → Result SnapshotError (Unit {0})
check_source none att = ok tt
check_source (some held) att = do
  ensure (att.source_number == held.target_number)
      (attestation_source held.target_number att.source_number)
  ensure (bytes_eq att.source_hash held.target_hash) attestation_source_hash

module _ (x : External) where
  -- Behind the resolution of the target's hash.
  unfoldable pub check_resolved :
      Snapshot
      → VoteAttestation
      → List SealingValidator
      → Option Bytes
      → Result SnapshotError (Option VoteData)
  check_resolved s att set none = ok none
  check_resolved s att set (some h) = do
    ensure (bytes_eq h att.vote.target_hash) attestation_target_hash
    check_source s.attestation att.vote
    map_err vote (verify_attestation_signature x att set)
    ok (some att.vote)

  -- Behind the test that the vote keys are known.
  unfoldable pub check_against :
      Snapshot
      → VoteAttestation
      → ℕ
      → ℕ
      → List SealingValidator
      → Result SnapshotError (Option VoteData)
  check_against s att number timestamp [] = ok none
  check_against s att number timestamp (v ∷ vs) = do
    let window = attestation_target_window number timestamp
    ensure (leb window.0 att.vote.target_number && leb att.vote.target_number window.1)
        (attestation_target window.1 att.vote.target_number)
    check_resolved s att (v ∷ vs) (ancestor_hash s att.vote.target_number)

  unfoldable pub check_decoded :
      Snapshot → ℕ → ℕ → Option VoteAttestation → Result SnapshotError (Option VoteData)
  check_decoded s number timestamp none = ok none
  check_decoded s number timestamp (some att) = do
    map_err vote (source_below_target att.vote)
    check_against s att number timestamp (attestation_set s att.vote.target_number)

  unfoldable pub check_attestation :
      Snapshot → Bytes → ℕ → ℕ → Result SnapshotError (Option VoteData)
  check_attestation s raw number timestamp = do
    att ← map_err vote (decode_vote_attestation raw)
    check_decoded s number timestamp att
