-- ===== src/Consensus/Engine/Runs.antt =====
-- Every run of the engine of lib.rs: headers that are accepted and headers that are refused, in any
-- order.
use helios_bsc.Prelude.{ℕ, suc, ◌+◌, ◌≤◌, ◌<◌, sym, ap, arith, Result}
use mathlib.Core.Path.{subst}
use helios_bsc.Prelude.Words.{u64_max}
use helios_bsc.Types.External.{External}
use helios_bsc.Types.Header.{RpcBlockHeader}
use helios_bsc.Consensus.Snapshot.State.{Snapshot}
use helios_bsc.Consensus.Snapshot.Attest.{source_or_zero}
use helios_bsc.Consensus.Snapshot.Finality.{IsOrdered, target_or_zero, apply_verified-Advances}
use helios_bsc.Consensus.Engine.{ConsensusError}
use helios_bsc.Consensus.Engine.State.{LightEngine, push_block, engine_apply_header}
use helios_bsc.Consensus.Engine.InStep.{InStep, engine_apply_header-InStep}
use helios_bsc.Consensus.Engine.Outcome.{
  EngineStep, refuses, accepts, engine_apply_header-EngineStep,
}

-- `Steps x n e e'`: n calls of `apply_header` lead from `e` to `e'`, whatever they return.
pub data Steps (x : External) : ℕ → LightEngine → LightEngine → Type 0 where
  here : {e : LightEngine} → Steps x 0 e e
  step :
      {n : ℕ} {e e' : LightEngine} (now : ℕ) (header : RpcBlockHeader)
      → Steps x n (engine_apply_header x now e header).1 e'
      → Steps x (suc n) e e'

-- Where `n` calls may lead.
pub record Reached (x : External) (n : ℕ) (e e' : LightEngine) : Type 0 where
  pub in_step : InStep x e'
  pub ordered : IsOrdered e'.snapshot.attestation
  pub climbs : e.snapshot.number ≤ e'.snapshot.number
  pub bounded : e'.snapshot.number ≤ e.snapshot.number + n
  pub finalized : source_or_zero e.snapshot.attestation ≤ source_or_zero e'.snapshot.attestation
  pub justified : target_or_zero e.snapshot.attestation ≤ target_or_zero e'.snapshot.attestation

engine_apply_header-Reached :
    (x : External) (now : ℕ) (e : LightEngine) (header : RpcBlockHeader)
    → e.snapshot.number < u64_max
    → InStep x e
    → IsOrdered e.snapshot.attestation
    → Reached x 1 e (engine_apply_header x now e header).1
unfolding push_block
engine_apply_header-Reached x now e header fits w ordered =
    go (engine_apply_header-EngineStep x now e header fits)
      (engine_apply_header-InStep x now e header fits w)
  where
    go :
        {r : Result ConsensusError (Unit {0})} {e' : LightEngine}
        → EngineStep x now e header r e'
        → InStep x e'
        → Reached x 1 e e'
    go (refuses harmless) w' =
        let same = harmless.only_recents in
        let number = ap (λ (s : Snapshot). s.number) same in
        let held = ap (λ (s : Snapshot). s.attestation) same in
        let finalized = ap source_or_zero held in
        let justified = ap target_or_zero held in
        record {
          in_step = w';
          ordered = subst IsOrdered (sym held) ordered;
          climbs = omega arith;
          bounded = omega arith;
          finalized = omega arith;
          justified = omega arith;
        }
    go (accepts signer block sealed extends cascades made) w' =
        let advances = apply_verified-Advances x e.snapshot header signer ordered in
        let next = extends.next in
        record {
          in_step = w';
          ordered = advances.ordered;
          climbs = omega arith;
          bounded = omega arith;
          finalized = advances.finalized_grows;
          justified = advances.justified_grows;
        }

-- For any n calls of the engine's apply_header, accepted or refused, from an engine that is in
-- step, whose number plus n is a u64 and whose attestation, if it holds one, has its source below
-- its target: the engine is in step afterwards, the attestation is still so ordered, the number has
-- not gone down and has grown by at most n, and neither the finalized nor the justified number has
-- gone down.
pub Steps-Reached :
    (x : External) (n : ℕ) (e e' : LightEngine)
    → Steps x n e e'
    → e.snapshot.number + n ≤ u64_max
    → InStep x e
    → IsOrdered e.snapshot.attestation
    → Reached x n e e'
Steps-Reached x n e e' here fits w ordered = record {
  in_step = w;
  ordered = ordered;
  climbs = omega arith;
  bounded = omega arith;
  finalized = omega arith;
  justified = omega arith;
}
Steps-Reached x n e e' (step now header later) fits w ordered =
    let one = engine_apply_header-Reached x now e header (omega arith) w ordered in
    let bound = one.bounded in
    let rest = Steps-Reached x _ _ e' later (omega arith) one.in_step one.ordered in
    let climbs₁ = one.climbs in
    let climbs₂ = rest.climbs in
    let bound₂ = rest.bounded in
    let finalized₁ = one.finalized in
    let finalized₂ = rest.finalized in
    let justified₁ = one.justified in
    let justified₂ = rest.justified in
    record {
      in_step = rest.in_step;
      ordered = rest.ordered;
      climbs = omega arith;
      bounded = omega arith;
      finalized = omega arith;
      justified = omega arith;
    }
