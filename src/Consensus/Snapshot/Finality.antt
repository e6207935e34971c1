-- ===== src/Consensus/Snapshot/Finality.antt =====
-- How attestations move the justified and the finalized block of snapshot.rs.
use helios_bsc.Prelude.{
  ℕ, ◌+◌, ◌≤◌, ◌<◌, ◌≡◌, refl, sym, ap, ◌∙◌, ◌⊎◌, inl, inr, Bytes, Result, ok, arith, Option, none,
  some, Bool-cases, ◌==◌,
}
use mathlib.Core.Path.{subst}
use helios_bsc.Prelude.Words.{IsU64, saturating_add}
use helios_bsc.Types.Hex.{decode_u64-IsU64}
use helios_bsc.Consensus.Snapshot.Linked.{check_link-Linked}
use helios_bsc.Consensus.Snapshot.Apply.{check_link}
use helios_bsc.Consensus.Snapshot.Attest.{source_or_zero}
use helios_bsc.Config.Extra.{ParsedExtra}
use helios_bsc.Types.External.{External}
use helios_bsc.Types.Header.{RpcBlockHeader}
use helios_bsc.Consensus.Vote.{VoteData}
use helios_bsc.Consensus.Snapshot.State.{Snapshot, SnapshotError}
use helios_bsc.Consensus.Snapshot.Rules.{advance_epoch_length}
use helios_bsc.Consensus.Snapshot.Attest.{adopted, adopt_attestation, prune_recents_to_finalized}
use helios_bsc.Consensus.Snapshot.Apply.{
  Link, Checked, check_content, expire_recent, commit, apply_verified, announce_epoch, adopt_if,
  record_sealer, prune_if_maxwell, activate_due, activate, advance_tip,
}
use helios_bsc.Consensus.Snapshot.Outcome.{
  Outcome, apply_verified-Outcome, refused_link, refused_content, bad_timestamp, applied,
}
use helios_bsc.Consensus.Snapshot.Follows.{Follows, check_content-Follows}

-- The attestation that is held once `new` is adopted, if there is one.
abbrev pub after : Option VoteData → Option VoteData → Option VoteData
after none held = held
after (some new) held = some (adopted held new)

module _ (s : Snapshot) (number : ℕ) where
  activate_due-attestation : (activate_due s number).attestation ≡ s.attestation
  unfolding activate_due activate
  activate_due-attestation = ground arith

  prune_if_maxwell-attestation : (prune_if_maxwell number s).attestation ≡ s.attestation
  unfolding prune_if_maxwell prune_recents_to_finalized
  prune_if_maxwell-attestation = ground arith

  announce_epoch-attestation :
      (parsed : ParsedExtra) → (announce_epoch s number parsed).attestation ≡ s.attestation
  unfolding announce_epoch
  announce_epoch-attestation parsed = ground arith

  expire-attestation : (expire_recent s number).attestation ≡ s.attestation
  unfolding expire_recent
  expire-attestation = ground arith

adopt_if-attestation :
    (new : Option VoteData) (s : Snapshot) → (adopt_if new s).attestation ≡ after new s.attestation
unfolding adopt_if adopt_attestation
adopt_if-attestation none s = refl
adopt_if-attestation (some new) s = refl

commit-attestation :
    (s : Snapshot) (link : Link) (signer : Bytes) (c : Checked)
    → (commit s link signer c).attestation ≡ after c.adopted s.attestation
unfolding commit advance_tip advance_epoch_length record_sealer
commit-attestation s link signer c =
    activate_due-attestation _ link.number
    ∙ prune_if_maxwell-attestation _ link.time
    ∙ adopt_if-attestation c.adopted (announce_epoch s link.number c.parsed)
    ∙ ap (after c.adopted) (announce_epoch-attestation s link.number c.parsed)

abbrev pub IsOrdered : Option VoteData → Type 0
IsOrdered none = Unit
IsOrdered (some a) = a.source_number < a.target_number

abbrev pub target_or_zero : Option VoteData → ℕ
target_or_zero none = 0
target_or_zero (some a) = a.target_number

-- The finalized block stays, or it moves to the block that was justified, which has the new justified
-- block as its child.
abbrev pub FinalizesParent : Option VoteData → Option VoteData → Type 0
FinalizesParent none new = Unit
FinalizesParent (some cur) none = ⊥
FinalizesParent (some cur) (some new) =
    ((new.source_number ≡ cur.source_number) × (new.source_hash ≡ cur.source_hash))
    ⊎ ((new.source_number ≡ cur.target_number)
        × (new.source_hash ≡ cur.target_hash)
        × (new.target_number ≡ new.source_number + 1))

-- One step of finality, from what is held to what is held behind it.
pub record Advances (held later : Option VoteData) : Type 0 where
  pub ordered : IsOrdered later
  pub finalized_grows : source_or_zero held ≤ source_or_zero later
  pub justified_grows : target_or_zero held ≤ target_or_zero later
  pub by_parent : FinalizesParent held later

Advances-refl : (held : Option VoteData) → IsOrdered held → Advances held held
Advances-refl none h = record {
  ordered = tt;
  finalized_grows = omega arith;
  justified_grows = omega arith;
  by_parent = tt;
}
Advances-refl (some a) h = record {
  ordered = h;
  finalized_grows = omega arith;
  justified_grows = omega arith;
  by_parent = inl (refl, refl);
}

Advances-after :
    (held : Option VoteData) (n : ℕ) (new : Option VoteData)
    → IsOrdered held
    → IsU64 n
    → ((d : VoteData) → new ≡ some d → Follows held n d)
    → Advances held (after new held)
Advances-after held n none h fits f = Advances-refl held h
Advances-after none n (some new) h fits f =
    let k = f new refl in
    record {
      ordered = k.below;
      finalized_grows = omega arith;
      justified_grows = omega arith;
      by_parent = tt;
    }
Advances-after (some cur) n (some new) h fits f =
    let k = f new refl in
    let below = k.below in
    let walked = k.walked in
    let source = k.source in
    record {
      ordered = ground arith;
      finalized_grows = ground arith;
      justified_grows = ground arith;
      by_parent = elim (Bool-cases (saturating_add new.source_number 1 == new.target_number)) [
        | inl child ↦ rw child (inr (source.0, source.1, ground arith))
        | inr apart ↦ rw apart (inl (refl, refl))
      ];
    }

-- Where the held attestation, if there is one, has its source below its target, a call of
-- apply_verified with any header and any result leaves a state where this still holds, where
-- neither the finalized (source) number nor the justified (target) number has gone down, and where
-- an attestation that was held is still held and the finalized block is either the same block as
-- before or the block that was justified before, the new justified block then being numbered one
-- above it.
pub apply_verified-Advances :
    (x : External) (s : Snapshot) (header : RpcBlockHeader) (signer : Bytes)
    → IsOrdered s.attestation
    → Advances s.attestation (apply_verified x s header signer).1.attestation
apply_verified-Advances x s header signer h = go (apply_verified-Outcome x s header signer)
  where
    committed :
        (link : Link) (c : Checked)
        → check_link x s header signer ≡ ok link
        → check_content x (expire_recent s link.number) header signer link ≡ ok c
        → Advances s.attestation (commit (expire_recent s link.number) link signer c).attestation
    committed link c linked checked =
        let held = expire-attestation s link.number in
        let number = (check_link-Linked x s header signer link linked).decoded.number in
        subst (Advances s.attestation)
          (ap (after c.adopted) (sym held)
            ∙ sym (commit-attestation (expire_recent s link.number) link signer c))
          (Advances-after s.attestation link.number c.adopted h
            (decode_u64-IsU64 header.number link.number number)
            (λ d e.
              subst (λ o. Follows o link.number d) held
                (check_content-Follows x _ header signer link c checked e)))

    go :
        {r : Result SnapshotError (Unit {0})} {s' : Snapshot}
        → Outcome x s header signer r s'
        → Advances s.attestation s'.attestation
    go (refused_link e) = Advances-refl s.attestation h
    go (refused_content link e e') =
        rw (expire-attestation s link.number) (Advances-refl s.attestation h)
    go (bad_timestamp link c linked checked e) = committed link c linked checked
    go (applied link c m linked checked e) = committed link c linked checked
