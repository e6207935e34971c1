-- ===== src/Consensus/Snapshot/Follows.antt =====
-- What an attestation satisfies that `check_attestation` of snapshot.rs hands on.
use helios_bsc.Prelude.{
  ℕ, ◌-◌, ◌≤◌, ◌<◌, ◌≡◌, ap, ◌∙◌, Bytes, ok, arith, Option, none, some, bytes_eq, bytes_eq→eq,
  ok-injective, ensure-ok, map_err-eq-ok, ltb→lt, ensure-eq-ok, >>=-eq-ok, map_err, ==_iff, ◌==◌,
  ◌&&◌, List, [], ◌∷◌,
}
use mathlib.Core.Path.{subst}
use helios_bsc.Prelude.{length, not}
use helios_bsc.Config.{bohr}
use helios_bsc.Config.Extra.{parse_extra}
use helios_bsc.Types.Hex.{decode_hex}
use helios_bsc.Consensus.Seal.Timing.{verify_out_of_turn_backoff}
use helios_bsc.Consensus.Snapshot.State.{seal, extra, types}
use helios_bsc.Consensus.Snapshot.Rules.{sign_recently, backoff_context}
use helios_bsc.Consensus.Snapshot.Apply.{is_epoch}
use helios_bsc.Consensus.Vote.Reader.{decode_vote_attestation}
use helios_bsc.Consensus.Vote.Verify.{verify_attestation_signature}
use helios_bsc.Config.{attestation_target_window}
use helios_bsc.Config.Extra.{SealingValidator}
use helios_bsc.Types.External.{External}
use helios_bsc.Types.Header.{RpcBlockHeader}
use helios_bsc.Consensus.Vote.{VoteData, VoteAttestation, source_below_target}
use helios_bsc.Consensus.Snapshot.State.{Snapshot, vote}
use helios_bsc.Consensus.Snapshot.Attest.{
  check_source, check_resolved, check_against, check_decoded, check_attestation,
}
use helios_bsc.Consensus.Snapshot.Apply.{Link, Checked, check_content}

-- The source of a new attestation is the block that is justified already, if one is.
abbrev pub SourceIsJustified : Option VoteData → VoteData → Type 0
SourceIsJustified none new = Unit
SourceIsJustified (some cur) new =
    (new.source_number ≡ cur.target_number) × (new.source_hash ≡ cur.target_hash)

-- An attestation that may be adopted over `held` at the header `number`.
pub record Follows (held : Option VoteData) (number : ℕ) (new : VoteData) : Type 0 where
  pub below : new.source_number < new.target_number
  pub walked : new.target_number ≤ number - 1
  pub source : SourceIsJustified held new

check_source-ok :
    (held : Option VoteData) (new : VoteData) {u : Unit {0}}
    → check_source held new ≡ ok u
    → SourceIsJustified held new
unfolding check_source
check_source-ok none new e = tt
check_source-ok (some cur) new e =
    let (n, e') = ensure-eq-ok (new.source_number == cur.target_number) _ _ e in
    ((==_iff new.source_number cur.target_number).0 n, bytes_eq→eq _ _ (ensure-ok _ _ e'))

-- What an attestation that passed the checks satisfies.
module _ (x : External) (s : Snapshot) (number timestamp : ℕ) where
  check_resolved-ok :
      (att : VoteAttestation) (set : List SealingValidator) (h : Option Bytes) {new : VoteData}
      → check_resolved x s att set h ≡ ok (some new)
      → (att.vote ≡ new) × SourceIsJustified s.attestation att.vote
  unfolding check_resolved
  check_resolved-ok att set none e = cc
  check_resolved-ok att set (some h) e =
      let (_, e₁) = ensure-eq-ok (bytes_eq h att.vote.target_hash) _ _ e in
      let (_, e₂, e₃) = >>=-eq-ok (check_source s.attestation att.vote) _ e₁ in
      let (_, _, e₄) = >>=-eq-ok (map_err vote (verify_attestation_signature x att set)) _ e₃ in
      (cc e₄, check_source-ok s.attestation att.vote e₂)

  check_against-ok :
      (att : VoteAttestation) (set : List SealingValidator) {new : VoteData}
      → att.vote.source_number < att.vote.target_number
      → check_against x s att number timestamp set ≡ ok (some new)
      → Follows s.attestation number new
  unfolding check_against attestation_target_window
  check_against-ok att [] below e = cc
  check_against-ok att (v ∷ vs) below e =
      let (w, e₁) = ensure-eq-ok _ _ _ e in
      let (same, source) = check_resolved-ok att (v ∷ vs) _ e₁ in
      subst (Follows s.attestation number) same
        (record { below = below; walked = ground arith; source = source })

  check_decoded-ok :
      (att : Option VoteAttestation) {new : VoteData}
      → check_decoded x s number timestamp att ≡ ok (some new)
      → Follows s.attestation number new
  unfolding check_decoded source_below_target
  check_decoded-ok none e = cc
  check_decoded-ok (some att) e =
      let (_, e₁, e₂) = >>=-eq-ok (map_err vote (source_below_target att.vote)) _ e in
      let below = ensure-ok _ _ (map_err-eq-ok vote (source_below_target att.vote) e₁) in
      check_against-ok att _ (ltb→lt _ _ below) e₂

  check_attestation-ok :
      (raw : Bytes) {new : VoteData}
      → check_attestation x s raw number timestamp ≡ ok (some new)
      → Follows s.attestation number new
  unfolding check_attestation
  check_attestation-ok raw e =
      let (att, _, e₂) = >>=-eq-ok (map_err vote (decode_vote_attestation raw)) _ e in
      check_decoded-ok att e₂

-- The attestation that the checks of a header hand on.
pub check_content-Follows :
    (x : External) (s : Snapshot) (header : RpcBlockHeader) (signer : Bytes) (link : Link)
    (c : Checked) {new : VoteData}
    → check_content x s header signer link ≡ ok c
    → c.adopted ≡ some new
    → Follows s.attestation link.number new
unfolding check_content
check_content-Follows x s header signer link c e some_new =
    let (_, e₁) = ensure-eq-ok (not (sign_recently s signer)) _ _ e in
    let (_, _, e₂) =
      >>=-eq-ok (map_err seal (verify_out_of_turn_backoff x (backoff_context s) header)) _ e₁ in
    let (raw, _, e₃) = >>=-eq-ok (map_err types (decode_hex x header.extra_data)) _ e₂ in
    let (parsed, _, e₄) =
      >>=-eq-ok (map_err extra (parse_extra raw bohr (is_epoch s link.number))) _ e₃ in
    let (new', e₅, e₆) =
      >>=-eq-ok (check_attestation x s parsed.attestation link.number link.time) _ e₄ in
    let (_, e₇) =
      ensure-eq-ok (not (is_epoch s link.number && length parsed.validators == 0)) _ _ e₆ in
    let same : new' ≡ c.adopted = ap (λ (d : Checked). d.adopted) (ok-injective e₇) in
    check_attestation-ok x s link.number link.time parsed.attestation (e₅ ∙ ap ok (same ∙ some_new))
