-- ===== src/Consensus/Engine/Outcome.antt =====
-- The outcomes of `LightEngine::apply_header` of lib.rs, taken apart.
use helios_bsc.Prelude.{
  ℕ, ◌<◌, ◌≡◌, refl, sym, ap, ◌∙◌, some, [], ◌∷◌, ◌++◌, Bytes, Result, ok, err, inl, inr, >>=-eq-ok,
  map_err_step-eq-ok, ok-injective,
}
use helios_bsc.Prelude.Words.{u64_max}
use helios_bsc.Types.External.{External}
use helios_bsc.Types.Header.{RpcBlockHeader}
use helios_bsc.Types.Hex.{decode_u64}
use helios_bsc.Consensus.Seal.Fields.{verify_seal_coinbase}
use helios_bsc.Consensus.Seal.Sealed.{Sealed, verify_seal_coinbase-Sealed}
use helios_bsc.Consensus.Snapshot.State.{Snapshot, SnapshotError}
use helios_bsc.Consensus.Snapshot.Apply.{apply_verified}
use helios_bsc.Consensus.Snapshot.Header.{apply_header, with_signer}
use helios_bsc.Consensus.Snapshot.Outcome.{Result-cases}
use helios_bsc.Consensus.Snapshot.Refusal.{Unharmed, apply_verified-Unharmed}
use helios_bsc.Consensus.Snapshot.Progress.{Extends, apply_verified-Extends}
use helios_bsc.Consensus.Finality.{VerifiedBlock}
use helios_bsc.Consensus.Engine.{ConsensusError, types}
use helios_bsc.Consensus.Engine.State.{
  LightEngine, last, trim, push_block, verified_block, check_cascading, check_tip, after_snapshot,
  engine_apply_header,
}

-- What `Snapshot::apply_header` gives: a refusal that leaves all but `recents`, or one more block.
pub data SnapshotStep (x : External) (now : ℕ) (s : Snapshot) (header : RpcBlockHeader)
    : Result SnapshotError Bytes → Snapshot → Type 0 where
  stays :
      {e : SnapshotError} {s' : Snapshot} → Unharmed s s' → SnapshotStep x now s header (err e) s'
  moves :
      (signer : Bytes)
      → Sealed x now header signer
      → Extends x s header signer (apply_verified x s header signer).1
      → SnapshotStep x now s header (ok signer) (apply_verified x s header signer).1

module _ (x : External) (now : ℕ) (s : Snapshot) (header : RpcBlockHeader) where
  Sealed-SnapshotStep :
      (signer : Bytes)
      → s.number < u64_max
      → Sealed x now header signer
      → let r = with_signer signer (apply_verified x s header signer) in
        SnapshotStep x now s header r.0 r.1
  Sealed-SnapshotStep signer fits sealed =
      let (m, timed, _) = sealed.unsealed.milli in
      elim (Result-cases (apply_verified x s header signer).0) [
        | inl (u, accepted) ↦
            rw accepted
              (moves signer sealed (apply_verified-Extends x s header signer fits accepted))
        | inr (e, refused) ↦
            rw refused (stays (apply_verified-Unharmed x s header signer m e fits timed refused))
      ]

  pub apply_header-SnapshotStep :
      s.number < u64_max
      → SnapshotStep x now s header (apply_header x now s header).0 (apply_header x now s header).1
  unfolding apply_header
  apply_header-SnapshotStep fits = elim (Result-cases (verify_seal_coinbase x now header)) [
    | inr (e, refused) ↦
        rw (refused, apply_header) (stays (record { only_recents = refl; same_rule = λ a. refl }))
    | inl (signer, sealed) ↦
        rw (sealed, apply_header)
          (Sealed-SnapshotStep signer fits (verify_seal_coinbase-Sealed x now header signer sealed))
  ]

-- The outcomes of the engine's `apply_header`. In a refusal all but the snapshot's `recents` stays; an
-- accepted header puts one block at the end of the chain.
pub data EngineStep (x : External) (now : ℕ) (e : LightEngine) (header : RpcBlockHeader)
    : Result ConsensusError (Unit {0}) → LightEngine → Type 0 where
  refuses :
      {refusal : ConsensusError} {s' : Snapshot}
      → Unharmed e.snapshot s'
      → EngineStep x now e header (err refusal) (record e { snapshot = s' })
  accepts :
      (signer : Bytes) (block : VerifiedBlock)
      → Sealed x now header signer
      → Extends x e.snapshot header signer (apply_verified x e.snapshot header signer).1
      → check_cascading x (last e.chain) header ≡ ok tt
      → verified_block x (apply_verified x e.snapshot header signer).1.number header signer
        ≡ ok block
      → EngineStep x now e header (ok tt) (
          push_block
            (record e { snapshot = (apply_verified x e.snapshot header signer).1 })
            (trim (e.chain ++ block ∷ [])))

Unharmed-refl : (s : Snapshot) → Unharmed s s
Unharmed-refl s = record { only_recents = refl; same_rule = λ a. refl }

-- Behind the seal, nothing that a block is made of can fail to decode.
verified_block-ok :
    (x : External) (now : ℕ) (header : RpcBlockHeader) (signer : Bytes) (number : ℕ)
    → Sealed x now header signer
    → (block : VerifiedBlock) × (verified_block x number header signer ≡ ok block)
unfolding verified_block
verified_block-ok x now header signer number sealed =
    let (m, timed, _) = sealed.unsealed.milli in
    (
      record {
        number = number;
        hash = sealed.content;
        state_root = sealed.state_root;
        miner = signer;
        milli_timestamp = m;
        gas_limit = sealed.unsealed.gas_limit;
        header = some header;
      },
      rw (sealed.claimed, sealed.rooted, timed, sealed.unsealed.limit) refl,
    )

module _ (x : External) (now : ℕ) (e : LightEngine) (header : RpcBlockHeader) where
  after_snapshot-EngineStep :
      (number : ℕ) {r : Result SnapshotError Bytes} {s' : Snapshot}
      → decode_u64 header.number ≡ ok number
      → check_cascading x (last e.chain) header ≡ ok tt
      → SnapshotStep x now e.snapshot header r s'
      → EngineStep x now e header
          (after_snapshot x e number header (r, s')).0
          (after_snapshot x e number header (r, s')).1
  after_snapshot-EngineStep number numbered cascades (stays harmless) = refuses harmless
  after_snapshot-EngineStep number numbered cascades (moves signer sealed extends) =
      let (block, made) = verified_block-ok x now header signer number sealed in
      let same : number ≡ (apply_verified x e.snapshot header signer).1.number =
        ok-injective (sym numbered ∙ extends.numbered) in
      rw made (
        accepts signer block sealed extends cascades
          (ap (λ n. verified_block x n header signer) (sym same) ∙ made))

  check_tip-ok :
      (number : ℕ)
      → check_tip x e header ≡ ok number
      → (decode_u64 header.number ≡ ok number) × (check_cascading x (last e.chain) header ≡ ok tt)
  unfolding check_tip
  check_tip-ok number checked =
      let (n, numbered, c₁) = map_err_step-eq-ok types (decode_u64 header.number) _ checked in
      let (u, cascades, c₂) = >>=-eq-ok (check_cascading x (last e.chain) header) _ c₁ in
      (numbered ∙ ap ok (ok-injective c₂), cascades)

  pub engine_apply_header-EngineStep :
      e.snapshot.number < u64_max
      → EngineStep x now e header
          (engine_apply_header x now e header).0
          (engine_apply_header x now e header).1
  unfolding engine_apply_header
  engine_apply_header-EngineStep fits = elim (Result-cases (check_tip x e header)) [
    | inr (refusal, refused) ↦
        rw (refused, engine_apply_header) (refuses (Unharmed-refl e.snapshot))
    | inl (number, checked) ↦
        rw (checked, engine_apply_header)
          (let (numbered, cascades) = check_tip-ok number checked in
            after_snapshot-EngineStep number numbered cascades
              (apply_header-SnapshotStep x now e.snapshot header fits))
  ]
