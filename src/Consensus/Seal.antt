-- ===== src/Consensus/Seal.antt =====
-- crates/helios-bsc-consensus/src/seal.rs: the errors, and the checks of a header that need no
-- snapshot.
pub mod Timing
pub mod Bounds
pub mod Hash
pub mod Fields
pub mod Layout
pub mod Sealed
pub mod Binding
use helios_bsc.Prelude.{
  ℕ, ◌+◌, ◌*◌, ◌%◌, Bool, true, false, Option, none, some, [], ◌∷◌, Bytes, get_or, leb, ltb, ◌==◌,
  ◌||◌, if◌then◌else◌, Result, ok, err, ◌>>=◌, ◌>>◌, ensure, map_err,
}
use helios_bsc.Config.Extra.{ExtraError}
use helios_bsc.Types.Hex.{TypesError}

-- The texts inside `Recover`, `CoinbaseMismatch` and `InvalidBaseFee` are left out.
pub data SealError : Type 0 where
  types : TypesError → SealError
  extra_too_short : SealError
  bad_recovery_id : ℕ → SealError
  recover coinbase_mismatch : SealError
  bad_difficulty : ℕ → SealError
  invalid_uncles : SealError
  invalid_gas_used : ℕ → ℕ → SealError
  invalid_base_fee : SealError
  missing_base_fee unexpected_base_fee invalid_gas_limit : ℕ → SealError
  invalid_mix_digest invalid_parent_beacon_root hash_mismatch extra_too_long : SealError
  invalid_withdrawals_root : SealError
  timestamp_too_early : ℕ → ℕ → ℕ → SealError
  out_of_turn_too_early : ℕ → ℕ → ℕ → ℕ → SealError
  gas_limit_bound : ℕ → ℕ → ℕ → SealError
  future_block : ℕ → ℕ → SealError
  invalid_nonce : SealError
  extra : ExtraError → SealError
  missing_epoch_extra invalid_turn_length duplicate_validator : SealError
