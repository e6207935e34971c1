-- ===== src/Consensus/Vote/Endorsed.antt =====
-- What stands behind an attestation that vote.rs accepts.
use helios_bsc.Prelude.{ℕ, ◌*◌, ◌^◌, ◌≤◌, ◌<◌, ◌≡◌, ◌↔◌, sym, true, some, List, length, ok}
use helios_bsc.Prelude.Words.{IsU64}
use helios_bsc.Config.Extra.{SealingValidator}
use helios_bsc.Types.External.{External}
use helios_bsc.Consensus.Vote.{VoteAttestation, vote_hash}
use helios_bsc.Consensus.Vote.Verify.{verify_attestation_signature}
use helios_bsc.Consensus.Vote.Quorum.{Ascending, KeysAt, verify_attestation_signature-Quorate}
use helios_bsc.Consensus.Vote.Bits.{HasBit, Listed, voted_indices-HasBit}

-- `indices` are distinct validators, at least two thirds of them, every set bit of the attestation is
-- one of them, and the signature holds for the aggregate of exactly their validated keys.
pub record Endorsed (x : External) (att : VoteAttestation) (validators : List SealingValidator)
    : Type 0 where
  pub indices : List ℕ
  pub voters : (i : ℕ) → Listed i indices ↔ HasBit att.vote_address_set i
  pub distinct : Ascending 0 (length validators) indices
  pub quorum : 2 * length validators ≤ 3 * length indices
  pub keys : List x.PublicKey
  pub keyed : KeysAt x validators indices keys
  pub aggregated : x.PublicKey
  pub is_aggregate : x.aggregate keys ≡ some aggregated
  pub signature : x.Signature
  pub parsed : x.sig_validate att.agg_signature ≡ some signature
  pub signed : x.verify signature (vote_hash x att.vote) aggregated ≡ true

-- For fewer than 2 ^ 63 validators and a bit set that is a u64: when the signature check of an
-- attestation succeeds, there are strictly ascending indices below the number of validators; an
-- index is one of them exactly when its bit of the attestation's whole bit set is set; they are at
-- least two thirds of the validators; the vote key of each validator at these indices validates;
-- and the parsed signature verifies on the hash of the vote under the aggregate of exactly these
-- keys.
pub verify_attestation_signature-Endorsed :
    (x : External) (att : VoteAttestation) (validators : List SealingValidator)
    → length validators < 2 ^ 63
    → IsU64 att.vote_address_set
    → verify_attestation_signature x att validators ≡ ok tt
    → Endorsed x att validators
verify_attestation_signature-Endorsed x att validators fits word e =
    let q = verify_attestation_signature-Quorate x att validators fits e in
    record {
      indices = q.indices;
      voters =
          voted_indices-HasBit att.vote_address_set (length validators) q.indices word q.voted
            (sym q.voters);
      distinct = q.distinct;
      quorum = q.quorum;
      keys = q.keys;
      keyed = q.keyed;
      aggregated = q.aggregated;
      is_aggregate = q.is_aggregate;
      signature = q.signature;
      parsed = q.parsed;
      signed = q.signed;
    }
