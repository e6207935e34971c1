-- ===== src/Consensus/Seal/Timing.antt =====
-- The time and gas rules of seal.rs: `milli_timestamp`, `verify_cascading_vs_parent` and
-- `verify_out_of_turn_backoff`.
use helios_bsc.Prelude.{
  ℕ, ◌+◌, ◌-◌, ◌*◌, ◌/◌, Bool, not, Bytes, get_or, leb, ltb, ◌==◌, ◌||◌, if◌then◌else◌, Result, ok,
  ◌>>=◌, ◌>>◌, ensure, map_err,
}
use helios_bsc.Prelude.Words.{saturating_add, saturating_mul}
use helios_bsc.Config.{params_at, lorentz_time, diff_no_turn, diff_in_turn}
use helios_bsc.Types.External.{External}
use helios_bsc.Types.Header.{RpcBlockHeader}
use helios_bsc.Types.Hex.{decode_u64, decode_hex_fixed}
use helios_bsc.Consensus.Seal.{
  SealError, types, timestamp_too_early, out_of_turn_too_early, gas_limit_bound, invalid_gas_limit,
  bad_difficulty,
}

abbrev pub min_gas_limit : ℕ
min_gas_limit = 5000

abbrev pub gas_limit_bound_divisor : ℕ
gas_limit_bound_divisor = 1024

abbrev pub gas_limit_bound_divisor_pre_lorentz : ℕ
gas_limit_bound_divisor_pre_lorentz = 256

abbrev pub lorentz_initial_backoff_ms : ℕ
lorentz_initial_backoff_ms = 2000

abbrev pub default_initial_backoff_ms : ℕ
default_initial_backoff_ms = 1000

-- `decode_u64(..)?` where the error is a `SealError`.
abbrev pub u64_of : Bytes → Result SealError ℕ
u64_of s = map_err types (decode_u64 s)

-- `u64::abs_diff`
abbrev pub abs_diff : ℕ → ℕ → ℕ
abs_diff a b = (a - b) + (b - a)

unfoldable pub assert_difficulty_range : ℕ → Result SealError (Unit {0})
assert_difficulty_range difficulty =
    ensure (difficulty == diff_no_turn || difficulty == diff_in_turn) (bad_difficulty difficulty)

pub record BackoffContext : Type 0 where
  pub parent_milli : ℕ
  pub known : Bool
  pub in_turn_signed_recently : Bool

module _ (x : External) where
  unfoldable pub milli_timestamp : RpcBlockHeader → Result SealError ℕ
  milli_timestamp header = do
    time ← u64_of header.timestamp
    mix ← map_err types (decode_hex_fixed x 32 header.mix_hash)
    let ms = get_or mix 30 0 * 256 + get_or mix 31 0
    if ltb time lorentz_time
        then ok (saturating_mul time 1000)
        else ok (saturating_add (saturating_mul time 1000) ms)

  unfoldable pub verify_cascading_vs_parent : ℕ → ℕ → RpcBlockHeader → Result SealError (Unit {0})
  verify_cascading_vs_parent parent_milli parent_gas_limit header =
      if parent_gas_limit == 0 then ok tt else do
        number ← u64_of header.number
        time ← u64_of header.timestamp
        let interval = (params_at number time).block_interval_ms
        got_milli ← milli_timestamp header
        ensure (leb (saturating_add parent_milli interval) got_milli)
            (timestamp_too_early got_milli parent_milli interval)
        gas ← u64_of header.gas_limit
        ensure (leb min_gas_limit gas) (invalid_gas_limit gas)
        let divisor =
            if leb lorentz_time time
            then gas_limit_bound_divisor
            else gas_limit_bound_divisor_pre_lorentz
        let bound = parent_gas_limit / divisor
        ensure (ltb (abs_diff parent_gas_limit gas) bound)
            (gas_limit_bound gas parent_gas_limit bound)

  -- Behind the guards on the context and on the difficulty.
  unfoldable pub backoff_floor : ℕ → RpcBlockHeader → Result SealError (Unit {0})
  backoff_floor parent_milli header = do
    let backoff =
        if leb lorentz_time (parent_milli / 1000)
        then lorentz_initial_backoff_ms
        else default_initial_backoff_ms
    number ← u64_of header.number
    time ← u64_of header.timestamp
    let interval = (params_at number time).block_interval_ms
    got ← milli_timestamp header
    ensure (leb (saturating_add (saturating_add parent_milli interval) backoff) got)
        (out_of_turn_too_early got parent_milli interval backoff)

  unfoldable pub verify_out_of_turn_backoff :
      BackoffContext → RpcBlockHeader → Result SealError (Unit {0})
  verify_out_of_turn_backoff ctx header =
      if not ctx.known || ctx.in_turn_signed_recently then ok tt else do
        difficulty ← u64_of header.difficulty
        if difficulty == diff_no_turn then backoff_floor ctx.parent_milli header else ok tt
