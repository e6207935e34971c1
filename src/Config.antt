-- ===== src/Config.antt =====
-- crates/helios-bsc-config/src/lib.rs: the constants of the chain and the fork schedule.
pub mod Extra
pub mod Schedule
pub mod Delay
use Prim.Native.String.{String}
use helios_bsc.Prelude.{
  ℕ, ◌+◌, ◌-◌, ◌*◌, ◌/◌, ◌%◌, ◌^◌, Bool, true, false, Option, none, some, leb, ltb, ◌==◌, ◌&&◌,
  ◌||◌, if◌then◌else◌,
}
use helios_bsc.Prelude.Words.{u64_max}
use helios_bsc.Types.Quorum.{min_distinct_sealers}

abbrev pub london_block : ℕ
london_block = 31_302_048

abbrev pub luban_block : ℕ
luban_block = 29_020_050

abbrev pub plato_block : ℕ
plato_block = 30_720_096

abbrev pub bohr_time : ℕ
bohr_time = 1_727_317_200

abbrev pub lorentz_time : ℕ
lorentz_time = 1_745_903_100

abbrev pub maxwell_time : ℕ
maxwell_time = 1_751_250_600

abbrev pub fermi_time : ℕ
fermi_time = 1_768_357_800

abbrev pub pasteur_time : ℕ
pasteur_time = 1_787_625_000

abbrev pub default_epoch_length : ℕ
default_epoch_length = 200

abbrev pub lorentz_epoch_length : ℕ
lorentz_epoch_length = 500

abbrev pub maxwell_epoch_length : ℕ
maxwell_epoch_length = 1000

abbrev pub default_block_interval_ms : ℕ
default_block_interval_ms = 3000

abbrev pub lorentz_block_interval_ms : ℕ
lorentz_block_interval_ms = 1500

abbrev pub maxwell_block_interval_ms : ℕ
maxwell_block_interval_ms = 750

abbrev pub fermi_block_interval_ms : ℕ
fermi_block_interval_ms = 450

abbrev pub max_turn_length : ℕ
max_turn_length = 64

abbrev pub diff_in_turn : ℕ
diff_in_turn = 2

abbrev pub diff_no_turn : ℕ
diff_no_turn = 1

-- The layouts of `extraData`.
pub data ExtraDataVersion : Type 0 where
  pre_luban luban bohr : ExtraDataVersion

pub record ForkParams : Type 0 where
  pub name : String
  pub activation_block : Option ℕ
  pub activation_time : Option ℕ
  pub epoch_length : ℕ
  pub turn_length : ℕ
  pub block_interval_ms : ℕ
  pub extra_data_version : ExtraDataVersion

unfoldable pub fermi_family : String → ℕ → ForkParams
fermi_family name activation_time = record {
  name = name;
  activation_block = none;
  activation_time = some activation_time;
  epoch_length = maxwell_epoch_length;
  turn_length = 8;
  block_interval_ms = fermi_block_interval_ms;
  extra_data_version = bohr;
}

abbrev pub k_ancestor_generation_depth : ℕ
k_ancestor_generation_depth = 3

unfoldable pub ancestor_generation_depth : ℕ → ℕ → ℕ
ancestor_generation_depth number timestamp =
    if leb london_block number && leb fermi_time timestamp then k_ancestor_generation_depth else 1

-- The two ends of the inclusive range; `saturating_sub` is `-`.
unfoldable pub attestation_target_window : ℕ → ℕ → ℕ × ℕ
unfolding ancestor_generation_depth
attestation_target_window number timestamp =
    let parent = number - 1 in
    let depth = ancestor_generation_depth number timestamp in (parent - (depth - 1), parent)

unfoldable pub mainnet_current_fork : ForkParams
unfolding fermi_family
mainnet_current_fork = fermi_family "fermi" fermi_time

unfoldable pub params_at : ℕ → ℕ → ForkParams
unfolding fermi_family
params_at number timestamp =
    if leb pasteur_time timestamp
    then fermi_family "pasteur" pasteur_time
    else if leb fermi_time timestamp
    then fermi_family "fermi" fermi_time
    else if leb maxwell_time timestamp
    then record {
      name = "maxwell";
      activation_block = none;
      activation_time = some maxwell_time;
      epoch_length = maxwell_epoch_length;
      turn_length = 8;
      block_interval_ms = maxwell_block_interval_ms;
      extra_data_version = bohr;
    }
    else if leb lorentz_time timestamp
    then record {
      name = "lorentz";
      activation_block = none;
      activation_time = some lorentz_time;
      epoch_length = lorentz_epoch_length;
      turn_length = 8;
      block_interval_ms = lorentz_block_interval_ms;
      extra_data_version = bohr;
    }
    else if leb bohr_time timestamp
    then record {
      name = "bohr";
      activation_block = none;
      activation_time = some bohr_time;
      epoch_length = default_epoch_length;
      turn_length = 4;
      block_interval_ms = default_block_interval_ms;
      extra_data_version = bohr;
    }
    else if leb luban_block number
    then record {
      name = if leb plato_block number then "plato" else "luban";
      activation_block = some (if leb plato_block number then plato_block else luban_block);
      activation_time = none;
      epoch_length = default_epoch_length;
      turn_length = 1;
      block_interval_ms = default_block_interval_ms;
      extra_data_version = luban;
    }
    else record {
      name = "legacy";
      activation_block = some 0;
      activation_time = none;
      epoch_length = default_epoch_length;
      turn_length = 1;
      block_interval_ms = default_block_interval_ms;
      extra_data_version = pre_luban;
    }

abbrev pub mainnet_n_seal : ℕ
mainnet_n_seal = 21

unfoldable pub mainnet_min_distinct_sealers : ℕ
unfolding min_distinct_sealers
mainnet_min_distinct_sealers = min_distinct_sealers mainnet_n_seal

-- `u64` arithmetic: the product and the subtraction of one wrap.
unfoldable pub miner_history_check_len : ℕ → ℕ → ℕ
miner_history_check_len n_seal turn_length =
    if n_seal == 0 || turn_length == 0
    then 0
    else ((n_seal / 2 + 1) * turn_length % 2 ^ 64 + 2 ^ 64 - 1) % 2 ^ 64

unfoldable pub expected_safe_lag_blocks : ℕ
unfolding mainnet_min_distinct_sealers mainnet_current_fork
expected_safe_lag_blocks = mainnet_min_distinct_sealers * mainnet_current_fork.turn_length % 2 ^ 64

-- `saturating_mul`, then a division.
unfoldable pub safe_lag_seconds : ℕ → ℕ → ℕ
safe_lag_seconds lag_blocks block_interval_ms =
    (if leb (lag_blocks * block_interval_ms) u64_max
      then lag_blocks * block_interval_ms
      else u64_max)
    / 1000

unfoldable pub safe_lag_within_slo : ℕ → Bool
unfolding expected_safe_lag_blocks
safe_lag_within_slo lag_blocks = leb lag_blocks expected_safe_lag_blocks

abbrev pub provider_proof_lookback : ℕ
provider_proof_lookback = 112
