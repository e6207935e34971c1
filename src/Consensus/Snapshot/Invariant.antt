-- ===== src/Consensus/Snapshot/Invariant.antt =====
-- Every call of `apply_verified` of snapshot.rs preserves the well-formed states.
use helios_bsc.Prelude.{
  map, if_true, if_false, ==_iff, ℕ, ◌+◌, ◌≤◌, ◌<◌, ◌≡◌, ◌∙◌, refl, sym, ap, Bytes, Option, none,
  some, length, Result, arith, ok, ◌==◌, Bool-cases, ◌⊎◌, inl, inr,
}
use mathlib.Core.Path.{subst}
use helios_bsc.Prelude.Words.{u64_max}
use helios_bsc.Config.Extra.{ParsedExtra}
use helios_bsc.Consensus.Vote.{VoteData}
use helios_bsc.Types.External.{External}
use helios_bsc.Types.Header.{RpcBlockHeader}
use helios_bsc.Consensus.Snapshot.State.{Snapshot, SnapshotError, PendingEpoch}
use helios_bsc.Consensus.Snapshot.Rules.{advance_epoch_length}
use helios_bsc.Consensus.Snapshot.Attest.{adopt_attestation, prune_recents_to_finalized}
use helios_bsc.Consensus.Snapshot.Apply.{
  Link, Checked, apply_verified, check_link, expire_recent, commit, announce_epoch, adopt_if,
  record_sealer, prune_if_maxwell, activate_due, activate_if, activate, advance_tip,
}
use helios_bsc.Consensus.Snapshot.Linked.{check_link-Linked}
use helios_bsc.Consensus.Snapshot.Refusal.{wrapping_add-suc, expire_recent-fields}
use helios_bsc.Consensus.Snapshot.Outcome.{
  Outcome, apply_verified-Outcome, refused_link, refused_content, bad_timestamp, applied,
}
use helios_bsc.Consensus.Snapshot.Shape.{
  Consecutive, IsAligned, address_of, WellFormed, zip_validators-address_of, restate-WellFormed,
  push_ancestor-length, push_ancestor-tip, push_ancestor-Consecutive,
}

-- What most changes of the state leave alone.
abbrev Framed : Snapshot → Snapshot → Type 0
Framed s s' =
    (s'.ancestors ≡ s.ancestors)
    × (s'.epoch_length ≡ s.epoch_length)
    × (s'.set_changed_at ≡ s.set_changed_at)
    × (s'.validators ≡ s.validators)
    × (s'.vote_set ≡ s.vote_set)

Framed-trans : (s t u : Snapshot) → Framed s t → Framed t u → Framed s u
Framed-trans s t u (a, b, c, d, e) (a', b', c', d', e') = (a' ∙ a, b' ∙ b, c' ∙ c, d' ∙ d, e' ∙ e)

module _ (s : Snapshot) (n : ℕ) where
  announce_epoch-Framed : (parsed : ParsedExtra) → Framed s (announce_epoch s n parsed)
  unfolding announce_epoch
  announce_epoch-Framed parsed =
      (ground arith, ground arith, ground arith, ground arith, ground arith)

  prune_if_maxwell-Framed : Framed s (prune_if_maxwell n s)
  unfolding prune_if_maxwell prune_recents_to_finalized
  prune_if_maxwell-Framed = (ground arith, ground arith, ground arith, ground arith, ground arith)

  expire_recent-Framed : Framed s (expire_recent s n)
  unfolding expire_recent
  expire_recent-Framed = (ground arith, ground arith, ground arith, ground arith, ground arith)

  activate-IsAligned :
      (p : PendingEpoch) → IsAligned (activate s n p).vote_set (activate s n p).validators
  unfolding activate
  activate-IsAligned p = elim (Bool-cases (length p.vote_keys == length p.validators)) [
    | inl same ↦ inr (
        ap (map address_of) (if_true _ _ same)
        ∙ zip_validators-address_of p.validators p.vote_keys ((==_iff _ _).0 same))
    | inr apart ↦ inl (if_false _ _ apart)
  ]

  activate_if-rest :
      (pending : Option PendingEpoch)
      → let s' = activate_if s n pending in
        (s'.ancestors ≡ s.ancestors)
        × (s'.epoch_length ≡ s.epoch_length)
        × ((s'.set_changed_at ≡ s.set_changed_at) ⊎ (s'.set_changed_at ≡ n))
        × (IsAligned s.vote_set s.validators → IsAligned s'.vote_set s'.validators)
  unfolding activate
  activate_if-rest none = (refl, refl, inl refl, λ a. a)
  activate_if-rest (some p) = elim (Bool-cases (n == p.activate_at)) [
    | inl due ↦ rw due (refl, refl, inr refl, λ a. activate-IsAligned p)
    | inr early ↦ rw early (refl, refl, inl refl, λ a. a)
  ]

  expire_recent-number : (expire_recent s n).number ≡ s.number
  unfolding expire_recent
  expire_recent-number = ground arith

  expire_recent-WellFormed : WellFormed s → WellFormed (expire_recent s n)
  expire_recent-WellFormed w =
      rw (expire_recent-fields s n)
        (restate-WellFormed s (expire_recent s n).recents s.last_milli w)

adopt_if-Framed : (new : Option VoteData) (s : Snapshot) → Framed s (adopt_if new s)
unfolding adopt_if adopt_attestation
adopt_if-Framed none s = (refl, refl, refl, refl, refl)
adopt_if-Framed (some new) s = (refl, refl, refl, refl, refl)

advance_epoch_length-positive :
    (s : Snapshot) (number time : ℕ)
    → 0 < s.epoch_length
    → 0 < (advance_epoch_length s number time).epoch_length
unfolding advance_epoch_length
advance_epoch_length-positive s number time positive = ground arith

advance_tip-WellFormed :
    (s t : Snapshot) (number : ℕ) (hash : Bytes)
    → WellFormed s
    → number ≡ s.number + 1
    → t.ancestors ≡ s.ancestors
    → 0 < t.epoch_length
    → t.set_changed_at ≤ number
    → IsAligned t.vote_set t.validators
    → WellFormed (advance_tip t number hash)
unfolding advance_tip
advance_tip-WellFormed s t number hash w next same positive changed aligned =
    let chain =
      subst (λ n. Consecutive t.ancestors n) (sym next)
        (subst (λ a. Consecutive a (s.number + 1)) (sym same) w.consecutive) in
    let (older, tip) = push_ancestor-tip t.ancestors (number, hash) in
    record {
      epoch_positive = positive;
      changed = changed;
      aligned = aligned;
      few = push_ancestor-length t.ancestors (number, hash);
      consecutive = push_ancestor-Consecutive t.ancestors number hash chain;
      older = older;
      tip = tip;
    }

commit-WellFormed :
    (s : Snapshot) (link : Link) (signer : Bytes) (c : Checked)
    → WellFormed s
    → link.number ≡ s.number + 1
    → WellFormed (commit s link signer c)
unfolding commit record_sealer activate_due advance_epoch_length
commit-WellFormed s link signer c w next =
    let announced = announce_epoch s link.number c.parsed in
    let voted = adopt_if c.adopted announced in
    let recorded = record_sealer voted link.number signer in
    let pruned = prune_if_maxwell link.time recorded in
    let climbed = advance_epoch_length pruned link.number link.time in
    let (kept_ancestors, kept_length, kept_change, kept_validators, kept_set) : Framed s pruned =
      Framed-trans s voted pruned
        (Framed-trans s announced voted (announce_epoch-Framed s link.number c.parsed)
          (adopt_if-Framed c.adopted announced))
        (prune_if_maxwell-Framed recorded link.time) in
    let (same, length_same, moved, keeps) = activate_if-rest climbed link.number climbed.pending in
    let positive =
      advance_epoch_length-positive pruned link.number link.time
        (subst (λ l. 0 < l) (sym kept_length) w.epoch_positive) in
    advance_tip-WellFormed s (activate_due climbed link.number) link.number link.hash w next
      (same ∙ kept_ancestors) (subst (λ l. 0 < l) (sym length_same) positive)
      (elim moved [ inl kept ↦ omega arith | inr now ↦ omega arith ])
      (keeps (
        subst (λ v. IsAligned v climbed.validators) (sym kept_set)
          (subst (IsAligned s.vote_set) (sym kept_validators) w.aligned)))

-- Where the snapshot's number is below the greatest u64, apply_verified preserves, with any header
-- and any result, that the epoch length is positive, that the set did not change behind the tip,
-- that the vote set is empty or lists the validators in their order, and that ancestors has at most
-- K_ANCESTOR_GENERATION_DEPTH entries, with consecutive numbers, the last of them the number and
-- the hash of the tip.
pub apply_verified-WellFormed :
    (x : External) (s : Snapshot) (header : RpcBlockHeader) (signer : Bytes)
    → s.number < u64_max
    → WellFormed s
    → WellFormed (apply_verified x s header signer).1
apply_verified-WellFormed x s header signer fits w = go (apply_verified-Outcome x s header signer)
  where
    step :
        (link : Link) (c : Checked)
        → check_link x s header signer ≡ ok link
        → WellFormed (commit (expire_recent s link.number) link signer c)
    step link c linked =
        commit-WellFormed (expire_recent s link.number) link signer c
          (expire_recent-WellFormed s link.number w)
          ((check_link-Linked x s header signer link linked).next
            ∙ wrapping_add-suc fits
            ∙ ap (λ n. n + 1) (sym (expire_recent-number s link.number)))

    go :
        {r : Result SnapshotError (Unit {0})} {s' : Snapshot}
        → Outcome x s header signer r s'
        → WellFormed s'
    go (refused_link e) = w
    go (refused_content link linked e) = expire_recent-WellFormed s link.number w
    go (bad_timestamp link c linked checked failed) = step link c linked
    go (applied link c m linked checked timed) =
        let t = commit (expire_recent s link.number) link signer c in
        restate-WellFormed t t.recents (some m) (step link c linked)
