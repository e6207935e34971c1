-- ===== src/Consensus/Engine/Target.antt =====
-- What the engine of lib.rs offers for proofs: `proof_target`, and that a refused header does no harm.
use mathlib.Core.Path.{subst}
use mathlib.Core.Option.{some-injective}
use helios_bsc.Prelude.{
  ℕ, ◌+◌, ◌-◌, ◌≤◌, ◌<◌, ◌≡◌, refl, sym, ap, ◌∙◌, some, List, [], ◌∷◌, ◌++◌, length, leb, arith,
  Result, ok, err, ok_or, ensure-eq-ok, ok-injective, leb→le, >>=-eq-ok, ok_or-eq-ok, true,
}
use helios_bsc.Prelude.Words.{u64_max}
use helios_bsc.Types.External.{External}
use helios_bsc.Types.Header.{RpcBlockHeader}
use helios_bsc.Config.{mainnet_min_distinct_sealers}
use helios_bsc.Types.Quorum.{SafeHead, min_distinct_sealers}
use helios_bsc.Consensus.Snapshot.Rules.{n_seal}
use helios_bsc.Consensus.Snapshot.Refusal.{Unharmed}
use helios_bsc.Consensus.Finality.{VerifiedBlock, newest_safe, proof_lag}
use helios_bsc.Consensus.Finality.Safe.{Confirmed, newest_safe-Confirmed, distinct_miners}
use helios_bsc.Consensus.Finality.Live.{newest_safe-found}
use helios_bsc.Consensus.Engine.{ConsensusError, not_safe}
use helios_bsc.Consensus.Engine.State.{
  LightEngine, engine_apply_header, proof_target, tip_number, distinct_tail, last,
}
use helios_bsc.Consensus.Engine.Chain.{Chained, last-append}
use helios_bsc.Consensus.Engine.InStep.{InStep}
use helios_bsc.Consensus.Engine.Outcome.{
  EngineStep, refuses, accepts, engine_apply_header-EngineStep,
}

-- A state that a refused header may leave.
pub record Untouched (e e' : LightEngine) : Type 0 where
  pub rest : e' ≡ record e { snapshot = e'.snapshot }
  pub snapshot : Unharmed e.snapshot e'.snapshot

-- Where the snapshot's number is below the greatest u64: when the engine's apply_header returns an
-- error, the checkpoint, the chain, the safe head and the lookback are unchanged, and so is every
-- field of the snapshot but recents, which judges every signer as before.
pub engine_apply_header-Untouched :
    (x : External) (now : ℕ) (e : LightEngine) (header : RpcBlockHeader) (refusal : ConsensusError)
    → e.snapshot.number < u64_max
    → (engine_apply_header x now e header).0 ≡ err refusal
    → Untouched e (engine_apply_header x now e header).1
engine_apply_header-Untouched x now e header refusal fits =
    go (engine_apply_header-EngineStep x now e header fits)
  where
    go :
        {r : Result ConsensusError (Unit {0})} {e' : LightEngine}
        → EngineStep x now e header r e'
        → r ≡ err refusal
        → Untouched e e'
    go (refuses harmless) q = record { rest = refl; snapshot = harmless }
    go (accepts signer block sealed extends cascades made) q = cc

-- The numbers of a chain count up to its tip.
Chained-last :
    (x : External) (a : VerifiedBlock) (rest : List VerifiedBlock) (tip : VerifiedBlock)
    → Chained x (a ∷ rest)
    → last (a ∷ rest) ≡ some tip
    → tip.number ≡ a.number + length rest
Chained-last x a [] tip c e =
    ap (λ (b : VerifiedBlock). b.number) (sym (some-injective a tip e)) ∙ omega arith
Chained-last x a (b ∷ rest) tip (child, c) e =
    let further = Chained-last x b rest tip c e in let one = child.next in omega arith

Chained-last_append :
    (x : External) (older : List VerifiedBlock) (a : VerifiedBlock) (rest : List VerifiedBlock)
    (tip : VerifiedBlock)
    → Chained x (older ++ a ∷ rest)
    → last (older ++ a ∷ rest) ≡ some tip
    → tip.number ≡ a.number + length rest
Chained-last_append x [] a rest tip c e = Chained-last x a rest tip c e
Chained-last_append x (o ∷ []) a rest tip (child, c) e = Chained-last x a rest tip c e
Chained-last_append x (o ∷ p ∷ older) a rest tip (child, c) e =
    Chained-last_append x (p ∷ older) a rest tip c e

-- Where the engine is in step and has a validator: a head that proof_target returns is confirmed by
-- the engine's chain (at least min_distinct_sealers distinct miners have built on it, and not on
-- its child), stands below the tip, and at most proof_lookback below it.
pub proof_target-Confirmed :
    (x : External) (e : LightEngine) (head : SafeHead)
    → InStep x e
    → 0 < n_seal e.snapshot
    → proof_target e ≡ ok head
    → Confirmed e.chain (n_seal e.snapshot) head
      × (head.number < tip_number e)
      × (tip_number e ≤ head.number + e.proof_lookback)
unfolding proof_target tip_number proof_lag
proof_target-Confirmed x e head w positive found =
    let (safe, held, e₁) =
      >>=-eq-ok (ok_or e.safe (not_safe mainnet_min_distinct_sealers (distinct_tail e.chain))) _
        found in
    let (near, e₂) = ensure-eq-ok (leb (e.snapshot.number - safe.number) e.proof_lookback) _ _ e₁ in
    let same : safe ≡ head = ok-injective e₂ in
    let have : newest_safe e.chain (n_seal e.snapshot) ≡ some head =
      sym w.newest ∙ ok_or-eq-ok e.safe _ held ∙ ap some same in
    let c = newest_safe-Confirmed e.chain (n_seal e.snapshot) head positive have in
    let counted : w.tip.number ≡ c.safe.number + length (c.first ∷ c.rest) =
      Chained-last_append x c.older c.safe (c.first ∷ c.rest) w.tip
        (subst (Chained x) c.split w.chained)
        (ap last (sym c.split ∙ w.ends) ∙ last-append w.older w.tip) in
    let at_tip = w.number in
    let at_head = c.number in
    let same_number = ap (λ (h : SafeHead). h.number) same in
    let close = leb→le (e.snapshot.number - safe.number) e.proof_lookback near in
    (c, omega arith, omega arith)

-- Where the engine is in step and has a validator: if the blocks behind some block of its chain
-- have at least min_distinct_sealers distinct miners, the engine holds a safe head, and
-- proof_target returns it if it is at most proof_lookback below the tip.
pub proof_target-found :
    (x : External) (e : LightEngine) (older : List VerifiedBlock) (s : VerifiedBlock)
    (window : List VerifiedBlock)
    → InStep x e
    → 0 < n_seal e.snapshot
    → e.chain ≡ older ++ s ∷ window
    → min_distinct_sealers (n_seal e.snapshot) ≤ length (distinct_miners window)
    → (head : SafeHead) × (e.safe ≡ some head)
      × (tip_number e ≤ head.number + e.proof_lookback → proof_target e ≡ ok head)
unfolding proof_target tip_number proof_lag
proof_target-found x e older s window w positive split enough =
    let (head, found) = newest_safe-found older s window (n_seal e.snapshot) positive enough in
    let held : e.safe ≡ some head =
      w.newest ∙ ap (λ c. newest_safe c (n_seal e.snapshot)) split ∙ found in
    (
      head,
      held,
      λ close.
          let near : leb (e.snapshot.number - head.number) e.proof_lookback ≡ true = ground arith in
          rw (held, near) refl,
    )
