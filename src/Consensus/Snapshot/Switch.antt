-- ===== src/Consensus/Snapshot/Switch.antt =====
-- When the set of validators of snapshot.rs changes.
use helios_bsc.Prelude.{
  ℕ, ◌%◌, ◌≡◌, ◌≢◌, ◌∙◌, ◌⊎◌, inl, inr, refl, sym, ap, Bool-cases, Option, none, some, Bytes,
  Result, ok, ==_iff, ◌==◌, arith, false,
}
use mathlib.Core.Path.{subst}
use helios_bsc.Config.Extra.{ParsedExtra}
use helios_bsc.Types.External.{External}
use helios_bsc.Types.Header.{RpcBlockHeader}
use helios_bsc.Consensus.Vote.{VoteData}
use helios_bsc.Consensus.Snapshot.State.{Snapshot, SnapshotError, PendingEpoch, Recents}
use helios_bsc.Consensus.Snapshot.Rules.{advance_epoch_length}
use helios_bsc.Consensus.Snapshot.Attest.{adopt_attestation, prune_recents_to_finalized}
use helios_bsc.Consensus.Snapshot.Apply.{
  Link, Checked, apply_verified, expire_recent, commit, is_epoch, epoch_pending, announce_epoch,
  adopt_if, record_sealer, prune_if_maxwell, activate, activate_if, activate_due, advance_tip,
}
use helios_bsc.Consensus.Snapshot.Refusal.{expire_recent-fields}
use helios_bsc.Consensus.Snapshot.Outcome.{
  Outcome, apply_verified-Outcome, refused_link, refused_content, bad_timestamp, applied,
}

-- The set stays, and no switch that is due is left behind.
pub record Kept (s s' : Snapshot) : Type 0 where
  pub validators : s'.validators ≡ s.validators
  pub turn_length : s'.turn_length ≡ s.turn_length
  pub vote_set : s'.vote_set ≡ s.vote_set
  pub none_due : (p : PendingEpoch) → s'.pending ≡ some p → p.activate_at ≢ s'.number

-- The set of `p` is installed, at the height that `p` names; `p` was pending, or the block announces it.
pub record Switched (s s' : Snapshot) : Type 0 where
  pub from : PendingEpoch
  pub origin :
      (s.pending ≡ some from) ⊎ ((from.epoch_block ≡ s'.number) × (s'.number % s.epoch_length ≡ 0))
  pub due : from.activate_at ≡ s'.number
  pub validators : s'.validators ≡ from.validators
  pub turn_length : s'.turn_length ≡ from.turn_length
  pub previous : s'.prev_vote_set ≡ s.vote_set
  pub changed : s'.set_changed_at ≡ s'.number
  pub done : s'.pending ≡ none

-- What the changes in front of the switch leave alone.
abbrev Steady : Snapshot → Snapshot → Type 0
Steady s s' =
    (s'.validators ≡ s.validators)
    × (s'.turn_length ≡ s.turn_length)
    × (s'.vote_set ≡ s.vote_set)
    × (s'.pending ≡ s.pending)

prune_if_maxwell-Steady : (s : Snapshot) (time : ℕ) → Steady s (prune_if_maxwell time s)
unfolding prune_if_maxwell prune_recents_to_finalized
prune_if_maxwell-Steady s time = (ground arith, ground arith, ground arith, ground arith)

adopt_if-Steady : (new : Option VoteData) (s : Snapshot) → Steady s (adopt_if new s)
unfolding adopt_if adopt_attestation
adopt_if-Steady none s = (refl, refl, refl, refl)
adopt_if-Steady (some new) s = (refl, refl, refl, refl)

-- Where a pending set comes from, behind the announcement of a block.
abbrev Origin : Snapshot → ℕ → PendingEpoch → Type 0
Origin s n p = (s.pending ≡ some p) ⊎ ((p.epoch_block ≡ n) × (n % s.epoch_length ≡ 0))

announce_epoch-Origin :
    (s : Snapshot) (n : ℕ) (parsed : ParsedExtra)
    → let a = announce_epoch s n parsed in
      (a.validators ≡ s.validators)
      × (a.turn_length ≡ s.turn_length)
      × (a.vote_set ≡ s.vote_set)
      × ((p : PendingEpoch) → a.pending ≡ some p → Origin s n p)
unfolding announce_epoch is_epoch epoch_pending
announce_epoch-Origin s n parsed = elim (Bool-cases (n % s.epoch_length == 0)) [
  | inl boundary ↦ rw boundary (refl, refl, refl, λ p e. inr (cc, (==_iff _ _).0 boundary))
  | inr inside ↦ rw inside (refl, refl, refl, λ p e. inl e)
]

not_due :
    (p p' : PendingEpoch) (pending : Option PendingEpoch) (n : ℕ)
    → pending ≡ some p
    → pending ≡ some p'
    → (n == p.activate_at) ≡ false
    → p'.activate_at ≢ n
not_due p p' pending n e e' early =
    let same : p ≡ p' = cc in
    let there = ap (λ (r : PendingEpoch). r.activate_at) same in λ due. ground arith

module _ (s t : Snapshot) (n : ℕ) (hash : Bytes) (validators : t.validators ≡ s.validators)
    (turn : t.turn_length ≡ s.turn_length) (set : t.vote_set ≡ s.vote_set)
    (origin : (p : PendingEpoch) → t.pending ≡ some p → Origin s n p) where
  activate_if-Switched :
      (pending : Option PendingEpoch)
      → t.pending ≡ pending
      → let s' = advance_tip (activate_if t n pending) n hash in Kept s s' ⊎ Switched s s'
  unfolding advance_tip activate
  activate_if-Switched none e =
      inl (record {
        validators = validators;
        turn_length = turn;
        vote_set = set;
        none_due = λ p q. cc;
      })
  activate_if-Switched (some p) e = elim (Bool-cases (n == p.activate_at)) [
    | inl due ↦ rw due (
        inr (record {
          from = p;
          origin = origin p e;
          due = sym ((==_iff n p.activate_at).0 due);
          validators = refl;
          turn_length = refl;
          previous = set;
          changed = refl;
          done = refl;
        }))
    | inr early ↦ rw early (
        inl (record {
          validators = validators;
          turn_length = turn;
          vote_set = set;
          none_due = λ p' q. not_due p p' t.pending n e q early;
        }))
  ]

commit-Switched :
    (s : Snapshot) (link : Link) (signer : Bytes) (c : Checked)
    → Kept s (commit s link signer c) ⊎ Switched s (commit s link signer c)
unfolding commit record_sealer activate_due advance_epoch_length
commit-Switched s link signer c =
    let announced = announce_epoch s link.number c.parsed in
    let voted = adopt_if c.adopted announced in
    let recorded = record_sealer voted link.number signer in
    let pruned = prune_if_maxwell link.time recorded in
    let climbed = advance_epoch_length pruned link.number link.time in
    let (v, t, w, o) = announce_epoch-Origin s link.number c.parsed in
    let (v', t', w', o') = adopt_if-Steady c.adopted announced in
    let (v'', t'', w'', o'') = prune_if_maxwell-Steady recorded link.time in
    activate_if-Switched s climbed link.number link.hash (v'' ∙ v' ∙ v) (t'' ∙ t' ∙ t)
      (w'' ∙ w' ∙ w) (λ p e. o p (sym (o'' ∙ o') ∙ e)) climbed.pending refl

-- The slot that is freed and the clock matter to none of this.
restate :
    (s : Snapshot) (recents : Recents) (t : Snapshot) (m : Option ℕ)
    → Kept (record s { recents = recents }) t ⊎ Switched (record s { recents = recents }) t
    → Kept s (record t { last_milli = m }) ⊎ Switched s (record t { last_milli = m })
restate s recents t m (inl k) = inl (record {
  validators = k.validators;
  turn_length = k.turn_length;
  vote_set = k.vote_set;
  none_due = k.none_due;
})
restate s recents t m (inr k) = inr (record {
  from = k.from;
  origin = k.origin;
  due = k.due;
  validators = k.validators;
  turn_length = k.turn_length;
  previous = k.previous;
  changed = k.changed;
  done = k.done;
})

-- When apply_verified accepts a header, either the validators, the turn length and the vote set
-- stay and no pending set has the new number as its activation height, or a pending set is
-- installed whose activation height is the new number: the validators and the turn length are its
-- own, the vote set of before is kept as the previous one, the change is dated with the new number
-- and nothing is pending; that set was pending before, or its epoch block is the new block, whose
-- number is a multiple of the epoch length.
pub apply_verified-Switched :
    (x : External) (s : Snapshot) (header : RpcBlockHeader) (signer : Bytes)
    → (apply_verified x s header signer).0 ≡ ok tt
    → Kept s (apply_verified x s header signer).1 ⊎ Switched s (apply_verified x s header signer).1
apply_verified-Switched x s header signer = go (apply_verified-Outcome x s header signer)
  where
    go :
        {r : Result SnapshotError (Unit {0})} {s' : Snapshot}
        → Outcome x s header signer r s'
        → r ≡ ok tt
        → Kept s s' ⊎ Switched s s'
    go (refused_link e) q = cc
    go (refused_content link linked e) q = cc
    go (bad_timestamp link c linked checked failed) q = cc
    go (applied link c m linked checked timed) q =
        let t = commit (expire_recent s link.number) link signer c in
        restate s (expire_recent s link.number).recents t (some m) (
          subst (λ u. Kept u t ⊎ Switched u t) (expire_recent-fields s link.number)
            (commit-Switched (expire_recent s link.number) link signer c))
