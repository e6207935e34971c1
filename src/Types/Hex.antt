-- ===== src/Types/Hex.antt =====
-- hexutil.rs and error.rs. A text is the list of its bytes.
pub mod Value
use helios_bsc.Prelude.{
  ℕ, ◌+◌, ◌-◌, ◌*◌, ◌%◌, ◌≡◌, Option, none, some, [], ◌∷◌, arith, Bytes, length, drop, Option-cases,
  inl, inr, leb, ◌==◌, ◌&&◌, ◌||◌, if◌then◌else◌, Result, ok, err, ◌>>=◌, ◌>>◌, ensure, ok_or,
}
use helios_bsc.Prelude.Words.{u64_max, IsU64}
use helios_bsc.Types.External.{External}

-- The names of the checkpoint fields that `BadCheckpointHash` carries.
pub data CheckpointField : Type 0 where
  hash parent_hash state_root : CheckpointField

-- The text inside `InvalidHex` is left out.
pub data TypesError : Type 0 where
  unsupported_chain_id : ℕ → TypesError
  empty_sealing_set bad_sealing_address duplicate_sealing_address : TypesError
  bad_checkpoint_hash : CheckpointField → TypesError
  vote_key_count_mismatch : ℕ → ℕ → TypesError
  bad_vote_key duplicate_vote_key invalid_hex : TypesError
  invalid_hex_length : ℕ → ℕ → TypesError

unfoldable pub strip_0x : Bytes → Bytes
strip_0x [] = []
strip_0x (a ∷ []) = a ∷ []
strip_0x (a ∷ b ∷ s) = if a == b'0' && (b == b'x' || b == b'X') then s else a ∷ b ∷ s

-- `char::to_digit(16)`
unfoldable pub to_digit : ℕ → Option ℕ
to_digit c =
    if leb b'0' c && leb c b'9'
    then some (c - b'0')
    else if leb b'a' c && leb c b'f'
    then some (c - b'a' + 10)
    else if leb b'A' c && leb c b'F'
    then some (c - b'A' + 10)
    else none

-- The loop of `u64::from_str_radix`, which fails on a digit that does not fit.
unfoldable pub digits_from : ℕ → Bytes → Option ℕ
digits_from n [] = some n
digits_from n (c ∷ cs) = elim (to_digit c) [
  | none ↦ none
  | some d ↦ if leb (n * 16 + d) u64_max then digits_from (n * 16 + d) cs else none
]

-- `u64::from_str_radix(raw, 16)`: one leading `+` is allowed before a digit.
unfoldable pub from_str_radix : Bytes → Option ℕ
from_str_radix [] = none
from_str_radix (c ∷ []) = digits_from 0 (c ∷ [])
from_str_radix (c ∷ d ∷ cs) =
    if c == b'+' then digits_from 0 (d ∷ cs) else digits_from 0 (c ∷ d ∷ cs)

unfoldable pub decode_raw_u64 : Bytes → Result TypesError ℕ
decode_raw_u64 [] = ok 0
decode_raw_u64 (c ∷ cs) = ok_or (from_str_radix (c ∷ cs)) invalid_hex

unfoldable pub decode_u64 : Bytes → Result TypesError ℕ
decode_u64 s = decode_raw_u64 (strip_0x s)

module _ (x : External) where
  unfoldable pub decode_hex : Bytes → Result TypesError Bytes
  decode_hex s = do
    let raw = strip_0x s
    ensure (length raw % 2 == 0) invalid_hex
    ok_or (x.hex_decode raw) invalid_hex

  unfoldable pub decode_hex_fixed : ℕ → Bytes → Result TypesError Bytes
  decode_hex_fixed n s = do
    v ← decode_hex s
    ensure (length v == n) (invalid_hex_length n (length v))
    ok v

  -- `format!("0x{}", hex::encode(..))`
  unfoldable pub format_hex : Bytes → Bytes
  format_hex b = b'0' ∷ b'x' ∷ x.hex_encode b

  unfoldable pub format_address : Bytes → Bytes
  unfolding format_hex
  format_address addr = format_hex addr

  -- The low 20 bytes of the hash of an uncompressed key.
  unfoldable pub address_from_pubkey_uncompressed : Bytes → Result TypesError Bytes
  address_from_pubkey_uncompressed [] = err invalid_hex
  address_from_pubkey_uncompressed (tag ∷ point) =
      if length (tag ∷ point) == 65 && tag == 0x04
      then ok (drop 12 (x.keccak256 point))
      else err invalid_hex

digits_from-IsU64 : (n : ℕ) (s : Bytes) (v : ℕ) → IsU64 n → digits_from n s ≡ some v → IsU64 v
unfolding digits_from
digits_from-IsU64 n [] v h e = ground arith
digits_from-IsU64 n (c ∷ cs) v h e = elim (Option-cases (to_digit c)) [
  | inl bad ↦ ground arith
  | inr (d, good) ↦ ground (arith, digits_from-IsU64 (n * 16 + d) cs v)
]

decode_raw_u64-IsU64 : (s : Bytes) (n : ℕ) → decode_raw_u64 s ≡ ok n → IsU64 n
unfolding decode_raw_u64 from_str_radix
decode_raw_u64-IsU64 [] n e = ground arith
decode_raw_u64-IsU64 (c ∷ []) n e = ground (arith, digits_from-IsU64 0 (c ∷ []) n)
decode_raw_u64-IsU64 (c ∷ d ∷ cs) n e =
    ground (arith, digits_from-IsU64 0 (d ∷ cs) n, digits_from-IsU64 0 (c ∷ d ∷ cs) n)

-- Every number that decode_u64 returns is below 2 ^ 64.
pub decode_u64-IsU64 : (s : Bytes) (n : ℕ) → decode_u64 s ≡ ok n → IsU64 n
unfolding decode_u64
decode_u64-IsU64 s n e = decode_raw_u64-IsU64 (strip_0x s) n e
