-- ===== src/Consensus/Engine/Start.antt =====
-- How the engine of lib.rs starts: from a checkpoint alone, or from a checkpoint and its header.
use mathlib.Core.Path.{subst}
use helios_bsc.Prelude.{
  ℕ, ◌≡◌, refl, sym, ap, ◌∙◌, [], Bytes, ◌==◌, ==_iff, bytes_eq, bytes_eq→eq, arith, ok, >>=-eq-ok,
  ensure-eq-ok, map_err_step-eq-ok, ok-injective,
}
use helios_bsc.Types.External.{External}
use helios_bsc.Types.Header.{RpcBlockHeader}
use helios_bsc.Types.Hex.{decode_u64, decode_hex_fixed}
use helios_bsc.Types.Checkpoint.{Checkpoint, validate_basic}
use helios_bsc.Consensus.Seal.Hash.{header_hash}
use helios_bsc.Consensus.Seal.Timing.{milli_timestamp}
use helios_bsc.Consensus.Seal.Fields.{verify_seal_coinbase}
use helios_bsc.Consensus.Seal.Sealed.{Sealed, verify_seal_coinbase-Sealed}
use helios_bsc.Consensus.Snapshot.State.{Snapshot}
use helios_bsc.Consensus.Snapshot.Bootstrap.{from_checkpoint, decode_addresses, bootstrap_vote_set}
use helios_bsc.Consensus.Snapshot.Sorted.{from_checkpoint-WellFormed}
use helios_bsc.Consensus.Finality.{VerifiedBlock, newest_safe}
use helios_bsc.Consensus.Engine.{seal, snapshot, types}
use helios_bsc.Consensus.Engine.Checkpoints.{header_matches_checkpoint}
use helios_bsc.Consensus.Engine.State.{
  LightEngine, invalid, engine_at, engine_from_checkpoint, from_checkpoint_and_header,
}
use helios_bsc.Consensus.Engine.InStep.{InStep}

module _ (x : External) (cp : Checkpoint) (s : Snapshot)
    (started : from_checkpoint x cp ≡ ok s) where
  from_checkpoint-tip : (s.number ≡ cp.number) × (decode_hex_fixed x 32 cp.hash ≡ ok s.hash)
  unfolding from_checkpoint
  from_checkpoint-tip =
      let (validators, e₁, e₂) = >>=-eq-ok (decode_addresses x cp.sealing_set) _ started in
      let (vote_set, e₃, e₄) = >>=-eq-ok (bootstrap_vote_set x validators cp.vote_keys) _ e₂ in
      let (hash, hashed, e₆) = map_err_step-eq-ok _ (decode_hex_fixed x 32 cp.hash) _ e₄ in
      let it = ok-injective e₆ in
      (ap (λ (t : Snapshot). t.number) (sym it), hashed ∙ ap ok (ap (λ (t : Snapshot). t.hash) it))

  engine_at-InStep :
      (genesis : VerifiedBlock)
      → genesis.number ≡ cp.number
      → decode_hex_fixed x 32 cp.hash ≡ ok genesis.hash
      → InStep x (engine_at cp s genesis)
  unfolding engine_at newest_safe
  engine_at-InStep genesis numbered hashed =
      let (number, hash) = from_checkpoint-tip in
      record {
        snapshot = (from_checkpoint-WellFormed x cp s started).0;
        older = [];
        tip = genesis;
        ends = refl;
        number = numbered ∙ sym number;
        hash = ok-injective (sym hashed ∙ hash);
        chained = tt;
        short = omega arith;
        newest = refl;
      }

-- An engine that engine_from_checkpoint builds is in step.
pub engine_from_checkpoint-InStep :
    (x : External) (cp : Checkpoint) (e : LightEngine)
    → engine_from_checkpoint x cp ≡ ok e
    → InStep x e
unfolding engine_from_checkpoint
engine_from_checkpoint-InStep x cp e built =
    let (u, valid, e₁) = >>=-eq-ok (invalid (validate_basic x cp)) _ built in
    let (s, started, e₂) = map_err_step-eq-ok snapshot (from_checkpoint x cp) _ e₁ in
    let (hash, hashed, e₃) = map_err_step-eq-ok types (decode_hex_fixed x 32 cp.hash) _ e₂ in
    let (root, rooted, e₄) = map_err_step-eq-ok types (decode_hex_fixed x 32 cp.state_root) _ e₃ in
    subst (InStep x) (ok-injective e₄) (engine_at-InStep x cp s started _ refl hashed)

-- The start is anchored: the header that came with the checkpoint is sealed, its number is the
-- checkpoint's, and the hash of its content is the hash that the checkpoint names.
pub record Anchored (x : External) (now : ℕ) (cp : Checkpoint) (header : RpcBlockHeader)
    (e : LightEngine) : Type 0 where
  pub in_step : InStep x e
  pub kept : e.checkpoint ≡ cp
  pub miner : Bytes
  pub sealed : Sealed x now header miner
  pub number : decode_u64 header.number ≡ ok e.snapshot.number
  pub content : header_hash x header ≡ ok e.snapshot.hash
  pub trusted : decode_hex_fixed x 32 cp.hash ≡ ok e.snapshot.hash

header_matches_checkpoint-ok :
    (x : External) (cp : Checkpoint) (header : RpcBlockHeader)
    → header_matches_checkpoint x cp header ≡ ok tt
    → (decode_u64 header.number ≡ ok cp.number)
      × (hash : Bytes) × (header_hash x header ≡ ok hash)
      × (decode_hex_fixed x 32 cp.hash ≡ ok hash)
unfolding header_matches_checkpoint
header_matches_checkpoint-ok x cp header e =
    let (number, numbered, e₁) = map_err_step-eq-ok types (decode_u64 header.number) _ e in
    let (same_number, e₂) = ensure-eq-ok (number == cp.number) _ _ e₁ in
    let (computed, hashed, e₃) = map_err_step-eq-ok seal (header_hash x header) _ e₂ in
    let (want, wanted, e₄) = map_err_step-eq-ok types (decode_hex_fixed x 32 cp.hash) _ e₃ in
    let (same_hash, e₅) = ensure-eq-ok (bytes_eq computed want) _ _ e₄ in
    (
      numbered ∙ ap ok ((==_iff number cp.number).0 same_number),
      want,
      hashed ∙ ap ok (bytes_eq→eq computed want same_hash),
      wanted,
    )

-- An engine that from_checkpoint_and_header builds is in step and keeps the checkpoint; the header
-- is sealed, its number is the snapshot's, and header_hash of it is the snapshot's hash, which is
-- the hash that the checkpoint names.
pub from_checkpoint_and_header-Anchored :
    (x : External) (now : ℕ) (cp : Checkpoint) (header : RpcBlockHeader) (e : LightEngine)
    → from_checkpoint_and_header x now cp header ≡ ok e
    → Anchored x now cp header e
unfolding from_checkpoint_and_header engine_at
from_checkpoint_and_header-Anchored x now cp header e built =
    let (u, valid, e₁) = >>=-eq-ok (invalid (validate_basic x cp)) _ built in
    let (u', matched, e₂) = >>=-eq-ok (header_matches_checkpoint x cp header) _ e₁ in
    let (miner, sealed, e₃) = map_err_step-eq-ok seal (verify_seal_coinbase x now header) _ e₂ in
    let (s, started, e₄) = map_err_step-eq-ok snapshot (from_checkpoint x cp) _ e₃ in
    let (hash, hashed, e₅) = map_err_step-eq-ok types (decode_hex_fixed x 32 cp.hash) _ e₄ in
    let (root, rooted, e₆) = map_err_step-eq-ok types (decode_hex_fixed x 32 cp.state_root) _ e₅ in
    let (milli, timed, e₇) = map_err_step-eq-ok seal (milli_timestamp x header) _ e₆ in
    let (gas, limited, e₈) = map_err_step-eq-ok types (decode_u64 header.gas_limit) _ e₇ in
    let (number, content, computed, named) = header_matches_checkpoint-ok x cp header matched in
    let (at, tip) = from_checkpoint-tip x cp s started in
    subst (Anchored x now cp header) (ok-injective e₈) (record {
      in_step = engine_at-InStep x cp s started _ refl hashed;
      kept = refl;
      miner = miner;
      sealed = verify_seal_coinbase-Sealed x now header miner sealed;
      number = number ∙ ap ok (sym at);
      content = computed ∙ ap ok (ok-injective (sym named ∙ tip));
      trusted = tip;
    })
