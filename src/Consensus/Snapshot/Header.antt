-- ===== src/Consensus/Snapshot/Header.antt =====
-- The entry point of snapshot.rs, `apply_header`, and what the snapshot writes into a checkpoint.
use helios_bsc.Prelude.{
  ℕ, Bool, true, false, not, Option, none, some, List, [], ◌∷◌, map, Bytes, Result, ok, err,
  if◌then◌else◌,
}
use helios_bsc.Config.Extra.{SealingValidator}
use helios_bsc.Types.External.{External}
use helios_bsc.Types.Header.{RpcBlockHeader}
use helios_bsc.Types.Hex.{format_hex, format_address}
use helios_bsc.Consensus.Seal.Fields.{verify_seal_coinbase}
use helios_bsc.Consensus.Snapshot.State.{Snapshot, SnapshotError, seal}
use helios_bsc.Consensus.Snapshot.Apply.{apply_verified}

-- `is_empty`
abbrev pub is_empty {ℓ} : {A : Type ℓ} → List A → Bool
is_empty [] = true
is_empty (a ∷ as') = false

unfoldable pub fast_finality_available : Snapshot → Bool
fast_finality_available s = not (is_empty s.vote_set)

-- `Ok(signer)` behind the call of `apply_verified`.
abbrev pub with_signer :
    Bytes → Result SnapshotError (Unit {0}) × Snapshot → Result SnapshotError Bytes × Snapshot
with_signer signer (ok u, s) = (ok signer, s)
with_signer signer (err e, s) = (err e, s)

module _ (x : External) where
  abbrev key_text : SealingValidator → Bytes
  key_text v = format_hex x v.vote_key

  -- `None` where the keys are not known.
  unfoldable pub vote_keys_hex : Snapshot → Option (List Bytes)
  vote_keys_hex s = if is_empty s.vote_set then none else some (map key_text s.vote_set)

  unfoldable pub sealing_set_hex : Snapshot → List Bytes
  sealing_set_hex s = map (format_address x) s.validators

  unfoldable pub apply_header :
      ℕ → Snapshot → RpcBlockHeader → Result SnapshotError Bytes × Snapshot
  apply_header now s header = elim (verify_seal_coinbase x now header) [
    | err e ↦ (err (seal e), s)
    | ok signer ↦ with_signer signer (apply_verified x s header signer)
  ]
