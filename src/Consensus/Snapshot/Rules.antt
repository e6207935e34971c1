-- ===== src/Consensus/Snapshot/Rules.antt =====
-- The rules of snapshot.rs that read the state: turns, recent signers, backoff, epoch length.
use helios_bsc.Prelude.{
  ◌^◌, ℕ, ◌+◌, ◌-◌, ◌/◌, ◌%◌, min, Bool, true, false, not, Option, none, some, [], ◌∷◌, Bytes,
  length, replicate, get_elem?, leb, ltb, ◌==◌, bytes_eq, ◌&&◌, ◌||◌, if◌then◌else◌, Result, ok,
  err,
}
use helios_bsc.Prelude.Words.{saturating_add}
use helios_bsc.Config.{
  miner_history_check_len, diff_in_turn, diff_no_turn, default_epoch_length, lorentz_epoch_length,
  maxwell_epoch_length, lorentz_time, maxwell_time,
}
use helios_bsc.Consensus.Seal.Timing.{BackoffContext}
use helios_bsc.Consensus.Snapshot.State.{Snapshot, SnapshotError, Recents, seed_after_walk}

abbrev pub recent_epoch_sentinel : Bytes
recent_epoch_sentinel = replicate 20 0

unfoldable pub n_seal : Snapshot → ℕ
n_seal s = length s.validators % 2 ^ 32

unfoldable pub delay : Snapshot → ℕ
unfolding n_seal
delay s = miner_history_check_len (n_seal s) s.turn_length

-- The in-turn sealer of the header that comes next.
unfoldable pub inturn_validator : Snapshot → Option Bytes
inturn_validator s =
    let n = length s.validators in
    if n == 0 || s.turn_length == 0
    then none
    else get_elem? s.validators (saturating_add s.number 1 / s.turn_length % n)

abbrev is_signer : Option Bytes → Bytes → Bool
is_signer none signer = false
is_signer (some v) signer = bytes_eq v signer

unfoldable pub expected_difficulty : Snapshot → Bytes → ℕ
unfolding inturn_validator
expected_difficulty s signer =
    if is_signer (inturn_validator s) signer then diff_in_turn else diff_no_turn

-- The loop of `sign_recently`; `seen` is a `u8` that saturates.
unfoldable pub seen_enough : ℕ → ℕ → Bytes → ℕ → Recents → Bool
seen_enough left_bound turn_length signer seen [] = false
seen_enough left_bound turn_length signer seen ((block, recent) ∷ rest) =
    let skip = leb block left_bound || bytes_eq recent recent_epoch_sentinel in
    let counts = not skip && bytes_eq recent signer in
    let seen' = if counts then min 255 (seen + 1) else seen in
    let more = seen_enough left_bound turn_length signer seen' rest in
    if counts && leb turn_length seen' then true else more

unfoldable pub sign_recently : Snapshot → Bytes → Bool
unfolding delay
sign_recently s signer = seen_enough (s.number - delay s) s.turn_length signer 0 s.recents

unfoldable pub recents_window_walked : Snapshot → Bool
unfolding delay
recents_window_walked s = leb s.walk_start (saturating_add (s.number - delay s) 1)

abbrev is_some {ℓ} : {A : Type ℓ} → Option A → Bool
is_some none = false
is_some (some a) = true

abbrev unwrap_or : Option ℕ → ℕ → ℕ
unwrap_or none d = d
unwrap_or (some n) d = n

abbrev pub signed_or_unknown : Snapshot → Option Bytes → Bool
signed_or_unknown s none = true
signed_or_unknown s (some v) = sign_recently s v

unfoldable pub backoff_context : Snapshot → BackoffContext
unfolding sign_recently recents_window_walked inturn_validator
backoff_context s = record {
  parent_milli = unwrap_or s.last_milli 0;
  known =
      s.enforce_inturn
      && ltb 0 s.turn_length
      && not (length s.validators == 0)
      && is_some s.last_milli
      && recents_window_walked s;
  in_turn_signed_recently = signed_or_unknown s (inturn_validator s);
}

-- One rung of the ladder of epoch lengths.
abbrev climb : ℕ → ℕ → ℕ → ℕ → ℕ → ℕ → ℕ
climb epoch_length from to fork_time time next =
    if epoch_length == from && leb fork_time time && next % to == 0 then to else epoch_length

unfoldable pub advance_epoch_length : Snapshot → ℕ → ℕ → Snapshot
advance_epoch_length s number time =
    let next = saturating_add number 1 in
    let first =
      climb s.epoch_length default_epoch_length lorentz_epoch_length lorentz_time time next in
    let second = climb first lorentz_epoch_length maxwell_epoch_length maxwell_time time next in
    record s { epoch_length = second }

-- Refused once the walk has begun.
unfoldable pub seed_turn_length : Snapshot → ℕ → Result SnapshotError (Unit {0}) × Snapshot
seed_turn_length s turn_length =
    if leb s.walk_start s.number
    then (err (seed_after_walk s.number), s)
    else (ok tt, if ltb 0 turn_length then record s { turn_length = turn_length } else s)
