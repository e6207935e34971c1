-- ===== src/Config/Extra.antt =====
-- crates/helios-bsc-config/src/extra.rs: the codec of Parlia `extraData`.
pub mod Layout
use helios_bsc.Prelude.{
  ℕ, zero, suc, ◌+◌, ◌-◌, ◌*◌, ◌/◌, ◌%◌, Bool, true, false, Option, none, some, List, [], ◌∷◌,
  Bytes, length, take, drop, replicate, get_or, leb, ltb, ◌==◌, ◌&&◌, ◌||◌, if◌then◌else◌, not,
  Result, ok, err, ◌>>=◌, ◌>>◌, ensure,
}
use helios_bsc.Config.{ExtraDataVersion, pre_luban, luban, bohr}

abbrev pub extra_vanity : ℕ
extra_vanity = 32

abbrev pub extra_seal : ℕ
extra_seal = 65

abbrev pub next_fork_hash_size : ℕ
next_fork_hash_size = 4

abbrev pub validator_bytes : ℕ
validator_bytes = 68

abbrev pub validator_number_size : ℕ
validator_number_size = 1

pub data ExtraError : Type 0 where
  too_short invalid_epoch_validators missing_turn_length : ExtraError

pub record SealingValidator : Type 0 where
  pub address : Bytes
  pub vote_key : Bytes

pub record ParsedExtra : Type 0 where
  pub vanity : Bytes
  pub next_fork_hash : Bytes
  pub validators : List SealingValidator
  pub turn_length : Option ℕ
  pub attestation : Bytes
  pub seal : Bytes

-- `bytes[from..to]`, for a range inside of the slice.
unfoldable pub slice : Bytes → ℕ → ℕ → Bytes
slice bytes from to = take (to - from) (drop from bytes)

abbrev pub is_pre_luban : ExtraDataVersion → Bool
is_pre_luban pre_luban = true
is_pre_luban luban = false
is_pre_luban bohr = false

abbrev pub is_bohr : ExtraDataVersion → Bool
is_bohr pre_luban = false
is_bohr luban = false
is_bohr bohr = true

-- The loop over the records: `n` are left, the next one stands at `off`.
unfoldable pub records_from : Bytes → ℕ → ℕ → List SealingValidator
records_from mid off zero = []
records_from mid off (suc n) =
    record {
      address = slice mid off (off + 20);
      vote_key = slice mid (off + 20) (off + validator_bytes);
    }
    ∷ records_from mid (off + validator_bytes) n

-- The loop of `parse_pre_luban_epoch`, record `i` of the `n` that are left.
unfoldable pub addresses_from : Bytes → ℕ → ℕ → List SealingValidator
addresses_from mid i zero = []
addresses_from mid i (suc n) =
    record { address = slice mid (i * 20) ((i + 1) * 20); vote_key = replicate 48 0 }
    ∷ addresses_from mid (i + 1) n

unfoldable pub parse_pre_luban_epoch : Bytes → Bytes → Bytes → Bytes → Result ExtraError ParsedExtra
parse_pre_luban_epoch vanity next_fork_hash mid seal = do
  ensure (length mid % 20 == 0) invalid_epoch_validators
  ok (record {
    vanity = vanity;
    next_fork_hash = next_fork_hash;
    validators = addresses_from mid 0 (length mid / 20);
    turn_length = none;
    attestation = [];
    seal = seal;
  })

-- The part of `parse_extra` behind the epoch test, on a `mid` that is not empty.
unfoldable pub parse_epoch :
    ExtraDataVersion → Bytes → Bytes → ℕ → Bytes → Bytes → Result ExtraError ParsedExtra
parse_epoch version vanity next_fork_hash n mid seal = do
  let vals_end = validator_number_size + n * validator_bytes
  let need = if is_bohr version then vals_end + 1 else vals_end
  ensure (not (n == 0 || ltb (length mid) need)) invalid_epoch_validators
  ok (record {
    vanity = vanity;
    next_fork_hash = next_fork_hash;
    validators = records_from mid validator_number_size n;
    turn_length = if is_bohr version then some (get_or mid vals_end 0) else none;
    attestation = drop (if is_bohr version then vals_end + 1 else vals_end) mid;
    seal = seal;
  })

abbrev parse_epoch_mid :
    ExtraDataVersion → Bytes → Bytes → Bytes → Bytes → Result ExtraError ParsedExtra
parse_epoch_mid version vanity next_fork_hash [] seal = err invalid_epoch_validators
parse_epoch_mid version vanity next_fork_hash (n ∷ mid) seal =
    parse_epoch version vanity next_fork_hash n (n ∷ mid) seal

-- The middle part by the version and the position in the epoch.
unfoldable pub parse_mid :
    ExtraDataVersion → Bool → Bytes → Bytes → Bytes → Bytes → Result ExtraError ParsedExtra
parse_mid version is_epoch vanity next_fork_hash mid seal =
    if not is_epoch || is_pre_luban version
    then (if is_pre_luban version && is_epoch
        then parse_pre_luban_epoch vanity next_fork_hash mid seal
        else ok (record {
          vanity = vanity;
          next_fork_hash = next_fork_hash;
          validators = [];
          turn_length = none;
          attestation = mid;
          seal = seal;
        }))
    else parse_epoch_mid version vanity next_fork_hash mid seal

-- `is_epoch` is `number % epoch_length == 0`.
unfoldable pub parse_extra : Bytes → ExtraDataVersion → Bool → Result ExtraError ParsedExtra
parse_extra extra version is_epoch = do
  ensure (leb (extra_vanity + extra_seal) (length extra)) too_short
  let vanity = take extra_vanity extra
  let next_fork_hash = drop (extra_vanity - next_fork_hash_size) vanity
  let seal = drop (length extra - extra_seal) extra
  let mid = slice extra extra_vanity (length extra - extra_seal)
  parse_mid version is_epoch vanity next_fork_hash mid seal
