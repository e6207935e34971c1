-- ===== src/Consensus/Engine.antt =====
-- crates/helios-bsc-consensus/src/lib.rs: the light engine. Here are its errors and the age of a
-- checkpoint; the modules below hold the checkpoints, the engine and its steps.
pub mod Checkpoints
pub mod State
pub mod Outcome
pub mod Chain
pub mod InStep
pub mod Start
pub mod Target
pub mod Replay
pub mod Runs
use Prim.Native.String.{String}
use helios_bsc.Prelude.{
  ℕ, ◌-◌, Bool, Bytes, leb, ltb, ◌&&◌, not, if◌then◌else◌, Result, ok, ◌>>=◌, ◌>>◌, ensure,
}
use helios_bsc.Config.Extra.{ExtraError}
use helios_bsc.Types.Hex.{TypesError}
use helios_bsc.Consensus.Seal.{SealError}
use helios_bsc.Consensus.Snapshot.State.{SnapshotError}

-- The names of the fields that `CheckpointMismatch` carries.
pub data MismatchField : Type 0 where
  field_number field_hash field_parent_hash field_state_root : MismatchField

-- The texts inside `NotImplemented` and `InvalidCheckpoint` are left out.
pub data ConsensusError : Type 0 where
  not_implemented invalid_checkpoint : ConsensusError
  checkpoint_mismatch : MismatchField → ConsensusError
  checkpoint_too_old checkpoint_too_far : ℕ → ℕ → ConsensusError
  seal : SealError → ConsensusError
  snapshot : SnapshotError → ConsensusError
  types : TypesError → ConsensusError
  not_safe proof_window_exceeded not_epoch : ℕ → ℕ → ConsensusError
  empty_epoch_validators : ℕ → ConsensusError
  epoch_set_not_activated : ℕ → ℕ → ℕ → ConsensusError
  extra : ExtraError → ConsensusError

abbrev pub checkpoint_warn_age_secs : ℕ
checkpoint_warn_age_secs = 21_600

abbrev pub default_max_checkpoint_age_secs : ℕ
default_max_checkpoint_age_secs = 86_400

unfoldable pub checkpoint_slo_label : ℕ → String
checkpoint_slo_label age_secs =
    if ltb default_max_checkpoint_age_secs age_secs
    then "fail"
    else if ltb checkpoint_warn_age_secs age_secs
    then "warn"
    else "ok"

-- `saturating_sub`
unfoldable pub checkpoint_age_secs : ℕ → ℕ → ℕ
checkpoint_age_secs timestamp now = now - timestamp

-- A greatest age of 0 turns the check off.
unfoldable pub assert_checkpoint_age : ℕ → ℕ → ℕ → Result ConsensusError ℕ
unfolding checkpoint_age_secs
assert_checkpoint_age timestamp now max_age_secs = do
  let age = checkpoint_age_secs timestamp now
  ensure (not (ltb 0 max_age_secs && ltb max_age_secs age)) (checkpoint_too_old age max_age_secs)
  ok age
