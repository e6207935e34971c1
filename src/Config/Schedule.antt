-- ===== src/Config/Schedule.antt =====
-- The fork schedule of lib.rs as a table, and `params_at` as a search in it.
use Prim.Native.String.{String}
use helios_bsc.Prelude.{
  ℕ, ◌≡◌, Bool, true, false, Option, none, some, List, [], ◌∷◌, leb, if◌then◌else◌, arith,
}
use helios_bsc.Config.{
  params_at, fermi_family, ForkParams, ExtraDataVersion, pre_luban, luban, bohr,
}

-- A fork: its name, the header from which on it is active, its epoch length, turn length and block
-- interval, and its layout of extraData.
abbrev fork : String → Option ℕ → Option ℕ → ℕ → ℕ → ℕ → ExtraDataVersion → ForkParams
fork name block time epoch turn interval layout = record {
  name = name;
  activation_block = block;
  activation_time = time;
  epoch_length = epoch;
  turn_length = turn;
  block_interval_ms = interval;
  extra_data_version = layout;
}

-- The mainnet schedule that docs/hardfork-table.md lists, the oldest fork first. Where the table names
-- several turn lengths, as for Bohr, it is the first; Osaka changes none of the numbers and is left out.
abbrev pub schedule : List ForkParams
schedule =
    fork "luban" (some 29_020_050) none 200 1 3000 luban
    ∷ fork "plato" (some 30_720_096) none 200 1 3000 luban
    ∷ fork "bohr" none (some 1_727_317_200) 200 4 3000 bohr
    ∷ fork "lorentz" none (some 1_745_903_100) 500 8 1500 bohr
    ∷ fork "maxwell" none (some 1_751_250_600) 1000 8 750 bohr
    ∷ fork "fermi" none (some 1_768_357_800) 1000 8 450 bohr
    ∷ fork "pasteur" none (some 1_787_625_000) 1000 8 450 bohr
    ∷ []

abbrev pub legacy : ForkParams
legacy = fork "legacy" (some 0) none 200 1 3000 pre_luban

abbrev reached : ℕ → Option ℕ → Bool
reached n none = true
reached n (some at) = leb at n

-- Every activation that a fork names is reached.
abbrev is_active : ℕ → ℕ → ForkParams → Bool
is_active number timestamp f =
    if reached number f.activation_block then reached timestamp f.activation_time else false

-- The last fork of a list that is active.
unfoldable pub latest : ℕ → ℕ → ForkParams → List ForkParams → ForkParams
latest number timestamp held [] = held
latest number timestamp held (f ∷ forks) =
    latest number timestamp (if is_active number timestamp f then f else held) forks

-- For every number and timestamp params_at gives the parameters of the last fork, in the order of
-- the mainnet table in docs/hardfork-table.md without Osaka, whose activation block or time is
-- reached, and the legacy ones where none is.
pub params_at-latest :
    (number timestamp : ℕ) → params_at number timestamp ≡ latest number timestamp legacy schedule
unfolding params_at fermi_family latest
params_at-latest number timestamp = ground arith
