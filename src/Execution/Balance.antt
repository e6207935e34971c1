-- ===== src/Execution/Balance.antt =====
-- `verify_balance_proof` of crates/helios-bsc-execution/src/lib.rs.
use helios_bsc.Prelude.{ℕ, ◌∷◌, Bytes, Result, ok, ◌>>=◌, map_err}
use helios_bsc.Types.External.{External}
use helios_bsc.Types.Trust.{TrustClass, verified}
use helios_bsc.Execution.Proof.{ProofError, EthAccountProof, encode_qty, verify_eth_get_proof}

-- The texts inside `NotImplemented` and `ProofFailed` are left out.
pub data ExecutionError : Type 0 where
  not_implemented : ExecutionError
  proof : ProofError → ExecutionError
  proof_failed upstream_proof_capability_missing : ExecutionError

pub record VerifiedBalance : Type 0 where
  pub address : Bytes
  pub balance_wei_hex : Bytes
  pub block_hash : Bytes
  pub block_number : ℕ
  pub trust : TrustClass

module _ (x : External) where
  unfoldable pub verify_balance_proof :
      Bytes → Bytes → EthAccountProof → Bytes → ℕ → Result ExecutionError VerifiedBalance
  verify_balance_proof state_root addr response hash number = do
    acc ← map_err proof (verify_eth_get_proof x state_root addr response)
    ok (record {
      address = b'0' ∷ b'x' ∷ x.hex_encode acc.address;
      balance_wei_hex = encode_qty x acc.balance_wei;
      block_hash = hash;
      block_number = number;
      trust = verified;
    })
