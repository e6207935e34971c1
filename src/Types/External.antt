-- ===== src/Types/External.antt =====
-- What the client calls and does not implement: the `hex`, `tiny-keccak`, `secp256k1` and `blst`
-- crates. The model takes their functions as a parameter.
use helios_bsc.Prelude.Words.{IsByte}
use helios_bsc.Prelude.{All, some, ℕ, ◌≡◌, ◌≢◌, Bool, Option, List, Bytes, length}

pub record External : Type 1 where
  -- `hex::decode`, on the bytes of an ASCII text of even length.
  pub hex_decode : Bytes → Option Bytes
  -- `hex::encode`, the ASCII text of the bytes.
  pub hex_encode : Bytes → Bytes
  pub keccak256 : Bytes → Bytes
  -- `RecoveryId::try_from(..).is_ok()`
  pub recovery_id : ℕ → Bool
  -- `RecoverableSignature::from_compact` and `recover_ecdsa`: a digest, 64 bytes of signature and the
  -- recovery id give the 65 bytes of an uncompressed public key.
  pub recover_ecdsa : Bytes → Bytes → ℕ → Option Bytes
  pub PublicKey : Type 0
  pub Signature : Type 0
  -- `PublicKey::key_validate`, `AggregatePublicKey::aggregate`, `Signature::sig_validate`.
  pub key_validate : Bytes → Option PublicKey
  pub aggregate : List PublicKey → Option PublicKey
  pub sig_validate : Bytes → Option Signature
  -- `sig.verify(false, msg, DST, &[], pk, false) == BLST_SUCCESS`
  pub verify : Signature → Bytes → PublicKey → Bool

-- Keccak-256 gives 32 bytes.
abbrev pub HashWidth : External → Type 0
HashWidth x = (b : Bytes) → length (x.keccak256 b) ≡ 32

-- Two different byte strings with the same hash.
abbrev pub Collision : External → Type 0
Collision x = (a b : Bytes) × (a ≢ b) × (x.keccak256 a ≡ x.keccak256 b)

-- `hex::decode` gives bytes.
abbrev pub HexBytes : External → Type 0
HexBytes x = (s b : Bytes) → x.hex_decode s ≡ some b → All IsByte b
