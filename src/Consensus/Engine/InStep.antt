-- ===== src/Consensus/Engine/InStep.antt =====
-- The invariant of the engine of lib.rs: the snapshot and the chain stay in step.
use mathlib.Core.Path.{subst}
use helios_bsc.Prelude.{
  ℕ, ◌+◌, ◌-◌, ◌≤◌, ◌<◌, ◌≡◌, refl, sym, ap, ◌∙◌, List, [], ◌∷◌, ◌++◌, Bytes, length, drop, Result,
  ok, ok-injective,
}
use helios_bsc.Prelude.Words.{u64_max}
use helios_bsc.Types.External.{External}
use helios_bsc.Types.Header.{RpcBlockHeader}
use helios_bsc.Consensus.Snapshot.State.{Snapshot}
use helios_bsc.Consensus.Snapshot.Rules.{n_seal}
use helios_bsc.Consensus.Snapshot.Shape.{WellFormed, restate-WellFormed}
use helios_bsc.Consensus.Snapshot.Invariant.{apply_verified-WellFormed}
use helios_bsc.Consensus.Snapshot.Refusal.{Unharmed}
use helios_bsc.Consensus.Snapshot.Progress.{Extends}
use helios_bsc.Consensus.Seal.Sealed.{Sealed}
use helios_bsc.Consensus.Finality.{VerifiedBlock, newest_safe}
use helios_bsc.Consensus.Engine.{ConsensusError}
use helios_bsc.Consensus.Engine.State.{
  LightEngine, keep, trim, push_block, verified_block, engine_apply_header,
}
use helios_bsc.Consensus.Engine.Chain.{
  Child, Chained, Chained-snoc, Chained-trim, trim-append, length-trim, verified_block-BlockOf,
}
use helios_bsc.Consensus.Engine.Outcome.{
  EngineStep, refuses, accepts, engine_apply_header-EngineStep,
}

-- The chain ends in the snapshot's tip, each block of it is sealed and names the one in front of it,
-- it is short, and the safe head is the newest that it confirms.
pub record InStep (x : External) (e : LightEngine) : Type 0 where
  pub snapshot : WellFormed e.snapshot
  pub older : List VerifiedBlock
  pub tip : VerifiedBlock
  pub ends : e.chain ≡ older ++ tip ∷ []
  pub number : tip.number ≡ e.snapshot.number
  pub hash : tip.hash ≡ e.snapshot.hash
  pub chained : Chained x e.chain
  pub short : length e.chain ≤ keep
  pub newest : e.safe ≡ newest_safe e.chain (n_seal e.snapshot)

module _ (x : External) (e : LightEngine) (w : InStep x e) where
  refuses-InStep : {s' : Snapshot} → Unharmed e.snapshot s' → InStep x (record e { snapshot = s' })
  unfolding n_seal
  refuses-InStep {s'} harmless =
      let same = harmless.only_recents in
      record {
        snapshot =
            subst WellFormed (sym same)
              (restate-WellFormed e.snapshot s'.recents e.snapshot.last_milli w.snapshot);
        older = w.older;
        tip = w.tip;
        ends = w.ends;
        number = w.number ∙ ap (λ (s : Snapshot). s.number) (sym same);
        hash = w.hash ∙ ap (λ (s : Snapshot). s.hash) (sym same);
        chained = w.chained;
        short = w.short;
        newest = w.newest ∙ ap (λ s. newest_safe e.chain (n_seal s)) (sym same);
      }

  accepts-InStep :
      (now : ℕ) (header : RpcBlockHeader) (signer : Bytes) (block : VerifiedBlock) (s' : Snapshot)
      → WellFormed s'
      → Sealed x now header signer
      → Extends x e.snapshot header signer s'
      → verified_block x s'.number header signer ≡ ok block
      → InStep x (push_block (record e { snapshot = s' }) (trim (e.chain ++ block ∷ [])))
  unfolding push_block
  accepts-InStep now header signer block s' well sealed extends made =
      let (of_header, at) =
        verified_block-BlockOf x now s'.number header signer block made extends.numbered sealed in
      let child : Child x w.tip block = record {
        header = header;
        made = of_header;
        next = at ∙ extends.next ∙ ap (λ n. n + 1) (sym w.number);
        parent = extends.linked ∙ ap ok (sym w.hash);
      } in
      record {
        snapshot = well;
        older = drop (length (e.chain ++ block ∷ []) - keep) e.chain;
        tip = block;
        ends = trim-append e.chain block;
        number = at;
        hash = ok-injective (sym of_header.claimed ∙ extends.hashed);
        chained = Chained-trim x (e.chain ++ block ∷ []) (
            subst (λ c. Chained x (c ++ block ∷ [])) (sym w.ends)
              (Chained-snoc x w.older w.tip block (subst (Chained x) w.ends w.chained) child));
        short = length-trim (e.chain ++ block ∷ []);
        newest = refl;
      }

-- Where the snapshot's number is below the greatest u64: the engine's apply_header, with any header
-- and any result, preserves that the snapshot is well formed, that the chain ends in a block with
-- the snapshot's number and hash, that each later block of the chain is numbered one above the
-- block in front of it, names its hash as its parent and was sealed by its miner, that the chain
-- has at most 512 blocks, and that the safe head is the one that newest_safe finds in it.
pub engine_apply_header-InStep :
    (x : External) (now : ℕ) (e : LightEngine) (header : RpcBlockHeader)
    → e.snapshot.number < u64_max
    → InStep x e
    → InStep x (engine_apply_header x now e header).1
engine_apply_header-InStep x now e header fits w =
    go (engine_apply_header-EngineStep x now e header fits)
  where
    go :
        {r : Result ConsensusError (Unit {0})} {e' : LightEngine}
        → EngineStep x now e header r e'
        → InStep x e'
    go (refuses harmless) = refuses-InStep x e w harmless
    go (accepts signer block sealed extends cascades made) =
        accepts-InStep x e w now header signer block _
          (apply_verified-WellFormed x e.snapshot header signer fits w.snapshot) sealed extends made
