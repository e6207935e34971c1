-- ===== src/Consensus/Engine/Replay.antt =====
-- `LightEngine::apply_headers` of lib.rs against the chain that is never trimmed.
use helios_bsc.Prelude.{
  ℕ, ◌+◌, ◌-◌, ◌≤◌, ◌<◌, ◌≡◌, refl, sym, ap, ◌∙◌, some, List, [], ◌∷◌, ◌++◌, append-nil,
  append_assoc, length, take, drop, take-append-drop, arith, Result, ok, inl, inr,
}
use helios_bsc.Prelude.Words.{u64_max}
use helios_bsc.Types.External.{External}
use helios_bsc.Types.Header.{RpcBlockHeader}
use helios_bsc.Types.Quorum.{SafeHead}
use helios_bsc.Consensus.Snapshot.Rules.{n_seal}
use helios_bsc.Consensus.Snapshot.Outcome.{Result-cases}
use helios_bsc.Consensus.Finality.{VerifiedBlock, newest_safe}
use helios_bsc.Consensus.Finality.Live.{newest_safe-append}
use helios_bsc.Consensus.Engine.{ConsensusError}
use helios_bsc.Consensus.Engine.State.{
  LightEngine, keep, trim, push_block, engine_apply_header, apply_headers, and_then,
}
use helios_bsc.Consensus.Engine.Chain.{BlockOf, trim-trim, trim-short, verified_block-BlockOf}
use helios_bsc.Consensus.Engine.InStep.{InStep, engine_apply_header-InStep}
use helios_bsc.Consensus.Engine.Outcome.{
  EngineStep, refuses, accepts, engine_apply_header-EngineStep,
}

-- One block for each header, in their order.
abbrev pub BlocksOf : External → List (ℕ × RpcBlockHeader) → List VerifiedBlock → Type 0
BlocksOf x [] [] = Unit
BlocksOf x [] (b ∷ blocks) = ⊥
BlocksOf x (h ∷ headers) [] = ⊥
BlocksOf x (h ∷ headers) (b ∷ blocks) = BlockOf x h.1 b × BlocksOf x headers blocks

-- The engine behind the headers, by the full list of the blocks.
pub record Replay (x : External) (e : LightEngine) (headers : List (ℕ × RpcBlockHeader))
    (e' : LightEngine) : Type 0 where
  pub blocks : List VerifiedBlock
  pub made : BlocksOf x headers blocks
  pub chain : e'.chain ≡ trim (e.chain ++ blocks)
  pub number : e'.snapshot.number ≡ e.snapshot.number + length headers
  pub in_step : InStep x e'

-- One header that is accepted.
abbrev Appended : External → LightEngine → RpcBlockHeader → LightEngine → Type 0
Appended x e header e' =
    (b : VerifiedBlock) × BlockOf x header b
    × (e'.chain ≡ trim (e.chain ++ b ∷ []))
    × (e'.snapshot.number ≡ e.snapshot.number + 1)

engine_apply_header-Appended :
    (x : External) (now : ℕ) (e : LightEngine) (header : RpcBlockHeader)
    → e.snapshot.number < u64_max
    → (engine_apply_header x now e header).0 ≡ ok tt
    → Appended x e header (engine_apply_header x now e header).1
unfolding push_block
engine_apply_header-Appended x now e header fits =
    go (engine_apply_header-EngineStep x now e header fits)
  where
    go :
        {r : Result ConsensusError (Unit {0})} {e' : LightEngine}
        → EngineStep x now e header r e'
        → r ≡ ok tt
        → Appended x e header e'
    go (refuses harmless) q = cc
    go (accepts signer block sealed extends cascades made) q = (
      block,
      (verified_block-BlockOf x now _ header signer block made extends.numbered sealed).0,
      refl,
      extends.next,
    )

-- The rest of a run behind an accepted header.
Replay-next :
    (x : External) (now : ℕ) (e e₁ e₂ : LightEngine) (header : RpcBlockHeader)
    (headers : List (ℕ × RpcBlockHeader))
    → Appended x e header e₁
    → Replay x e₁ headers e₂
    → Replay x e ((now, header) ∷ headers) e₂
Replay-next x now e e₁ e₂ header headers (b, of_header, chain, number) r =
    let further = r.number in
    record {
      blocks = b ∷ r.blocks;
      made = (of_header, r.made);
      chain =
          r.chain
          ∙ ap (λ c. trim (c ++ r.blocks)) chain
          ∙ trim-trim (e.chain ++ b ∷ []) r.blocks
          ∙ ap trim (append_assoc e.chain (b ∷ []) r.blocks);
      number = omega arith;
      in_step = r.in_step;
    }

-- Against the chain that is never trimmed: where the engine is in step (the invariant of
-- apply_header), its number plus the number of headers is a u64 and apply_headers succeeds, there
-- is a block for each header, in their order, that has its number, hash, state root and sealer; the
-- engine's chain is what one trim to 512 blocks leaves of the old chain followed by all these
-- blocks; its number has grown by the number of headers; and it is in step.
pub apply_headers-Replay :
    (x : External) (e : LightEngine) (headers : List (ℕ × RpcBlockHeader))
    → e.snapshot.number + length headers ≤ u64_max
    → InStep x e
    → (apply_headers x e headers).0 ≡ ok tt
    → Replay x e headers (apply_headers x e headers).1
unfolding apply_headers
apply_headers-Replay x e [] fits w done = record {
  blocks = [];
  made = tt;
  chain = sym (ap trim (append-nil e.chain) ∙ trim-short e.chain w.short);
  number = omega arith;
  in_step = w;
}
apply_headers-Replay x e ((now, header) ∷ headers) fits w done =
    let e₁ = (engine_apply_header x now e header).1 in
    elim (Result-cases (engine_apply_header x now e header).0) [
      | inr (refusal, refused) ↦ absurd (
          cc (
            sym (ap (λ r. (and_then x (r, e₁) (λ e'. apply_headers x e' headers)).0) refused)
            ∙ done))
      | inl (u, accepted) ↦
          let appended = engine_apply_header-Appended x now e header (omega arith) accepted in
          let at = appended.3 in
          let rest =
            apply_headers-Replay x e₁ headers (omega arith)
              (engine_apply_header-InStep x now e header (omega arith) w)
              (sym (ap (λ r. (and_then x (r, e₁) (λ e'. apply_headers x e' headers)).0) accepted)
                ∙ done) in
          rw accepted (Replay-next x now e e₁ _ header headers appended rest)
    ]

-- Where the engine is in step, its number plus the number of headers is a u64 and apply_headers
-- succeeds: a safe head that the engine holds afterwards, found in its 512 blocks, is the safe head
-- of the old chain followed by one block for each header, in their order.
pub apply_headers-newest_safe :
    (x : External) (e : LightEngine) (headers : List (ℕ × RpcBlockHeader)) (head : SafeHead)
    → e.snapshot.number + length headers ≤ u64_max
    → InStep x e
    → (apply_headers x e headers).0 ≡ ok tt
    → (apply_headers x e headers).1.safe ≡ some head
    → (blocks : List VerifiedBlock) × BlocksOf x headers blocks
      × (newest_safe (e.chain ++ blocks) (n_seal (apply_headers x e headers).1.snapshot)
          ≡ some head)
unfolding trim
apply_headers-newest_safe x e headers head fits w done held =
    let r = apply_headers-Replay x e headers fits w done in
    let full = e.chain ++ r.blocks in
    let k = length full - keep in
    let n = n_seal (apply_headers x e headers).1.snapshot in
    let found : newest_safe (drop k full) n ≡ some head =
      ap (λ c. newest_safe c n) (sym r.chain) ∙ sym r.in_step.newest ∙ held in
    (
      r.blocks,
      r.made,
      ap (λ c. newest_safe c n) (sym (take-append-drop k full))
          ∙ newest_safe-append (take k full) (drop k full) n head found,
    )
