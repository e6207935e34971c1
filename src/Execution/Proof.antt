-- ===== src/Execution/Proof.antt =====
-- crates/helios-bsc-execution/src/proof.rs: the check of an `eth_getProof` response. The parsing of
-- its JSON is left to the serde crate.
pub mod Bound
pub mod Retain
use Prim.Native.String.{String}
use helios_bsc.Prelude.{
  ℕ, zero, suc, ◌+◌, ◌-◌, ◌*◌, ◌%◌, ◌^◌, min, Bool, true, false, not, Option, none, some, List, [],
  ◌∷◌, ◌++◌, map, Bytes, length, drop, take, replicate, leb, ltb, ◌==◌, bytes_eq, ◌&&◌, ◌||◌,
  if◌then◌else◌, Result, ok, err, ◌>>=◌, ◌>>◌, ensure, map_err, ok_or,
}
use helios_bsc.Types.External.{External}
use helios_bsc.Types.Hex.{TypesError, strip_0x, decode_hex, decode_hex_fixed}
use helios_bsc.Consensus.Engine.Checkpoints.{to_ascii_lowercase}
use helios_bsc.Execution.Mpt.{MptError}
use helios_bsc.Execution.Mpt.Leaves.{
  Account, empty_code_hash, empty_trie_root, verify_account_proof, verify_storage_proof,
  verify_bytecode, be_from,
}

-- The text inside `Json` is left out.
pub data ProofError : Type 0 where
  types : TypesError → ProofError
  mpt : MptError → ProofError
  json : ProofError
  claim_mismatch : String → ProofError
  state_root_mismatch too_many_nodes node_too_large too_many_storage_entries : ProofError

abbrev pub max_proof_nodes : ℕ
max_proof_nodes = 32

abbrev pub max_proof_node_bytes : ℕ
max_proof_node_bytes = 16_384

abbrev pub max_code_size : ℕ
max_code_size = 24_576

abbrev pub max_proof_storage_entries : ℕ
max_proof_storage_entries = 64

pub record StorageProofEntry : Type 0 where
  pub key : Bytes
  pub value : Bytes
  pub proof : List Bytes

pub record EthAccountProof : Type 0 where
  pub address : Bytes
  pub account_proof : List Bytes
  pub balance : Bytes
  pub code_hash : Bytes
  pub nonce : Bytes
  pub storage_hash : Bytes
  pub storage_proof : List StorageProofEntry

pub record VerifiedAccount : Type 0 where
  pub address : Bytes
  pub nonce : ℕ
  pub balance_wei : Bytes
  pub storage_root : Bytes
  pub code_hash : Bytes

-- The bytes from the first one that is not zero.
unfoldable pub strip_int : Bytes → Bytes
strip_int [] = []
strip_int (b ∷ bs) = let rest = strip_int bs in if b == 0 then rest else b ∷ bs

-- `trim_start_matches('0')`
unfoldable pub trim_zeros : Bytes → Bytes
trim_zeros [] = []
trim_zeros (c ∷ cs) = let rest = trim_zeros cs in if c == b'0' then rest else c ∷ cs

abbrev quantity : Bytes → Bytes
quantity [] = b'0' ∷ b'x' ∷ b'0' ∷ []
quantity (c ∷ cs) = b'0' ∷ b'x' ∷ c ∷ cs

-- The low 32 bytes, with zeros in front where there are fewer.
unfoldable pub pad32 : Bytes → Bytes
pad32 bytes = let n = min (length bytes) 32 in replicate (32 - n) 0 ++ drop (length bytes - n) bytes

abbrev pub all_zero : Bytes → Bool
all_zero [] = true
all_zero (b ∷ bs) = b == 0 && all_zero bs

-- `nodes.iter().any(..)` and the loop over the storage entries, as tests that must hold.
abbrev pub none_too_large : List Bytes → Bool
none_too_large [] = true
none_too_large (n ∷ nodes) = leb (length n) max_proof_node_bytes && none_too_large nodes

unfoldable pub check_entries : List StorageProofEntry → Result ProofError (Unit {0})
check_entries [] = ok tt
check_entries (sp ∷ entries) = do
  ensure (leb (length sp.proof) max_proof_nodes) too_many_nodes
  check_entries entries

unfoldable pub is_absent : Account → Bool
is_absent account =
    account.nonce == 0
    && length (strip_int account.balance) == 0
    && bytes_eq account.storage_root empty_trie_root
    && bytes_eq account.code_hash empty_code_hash

-- `slot_of_key(..) == Some(slot)`
abbrev pub is_slot : Bytes → Option Bytes → Bool
is_slot slot none = false
is_slot slot (some s) = bytes_eq s slot

module _ (x : External) where
  unfoldable pub encode_qty : Bytes → Bytes
  encode_qty bytes = quantity (trim_zeros (x.hex_encode bytes))

  unfoldable pub encode_data32 : Bytes → Bytes
  encode_data32 bytes = b'0' ∷ b'x' ∷ x.hex_encode (pad32 bytes)

  abbrev decode_digits : Bytes → Bytes → Result TypesError Bytes
  decode_digits s [] = ok []
  decode_digits s (c ∷ raw) =
      if length (c ∷ raw) % 2 == 1
      then decode_hex x (b'0' ∷ b'x' ∷ b'0' ∷ c ∷ raw)
      else decode_hex x s

  unfoldable pub decode_qty : Bytes → Result TypesError Bytes
  decode_qty s = decode_digits s (strip_0x s)

  abbrev both_equal : Result TypesError Bytes → Result TypesError Bytes → Bool
  both_equal (ok a) (ok b) = bytes_eq (strip_int a) (strip_int b)
  both_equal (ok a) (err e) = false
  both_equal (err e) b = false

  unfoldable pub qty_equal : Bytes → Bytes → Bool
  qty_equal a b = both_equal (decode_qty a) (decode_qty b)

  unfoldable pub parse_qty_u64 : Bytes → Result ProofError ℕ
  parse_qty_u64 s = do
    v ← map_err types (decode_qty s)
    ensure (leb (length v) 8) json
    ok (be_from 0 v)

  -- `map(decode_hex).collect::<Result<_, _>>()`
  unfoldable pub decode_nodes : List Bytes → Result TypesError (List Bytes)
  decode_nodes [] = ok []
  decode_nodes (s ∷ texts) = do n ← decode_hex x s; nodes ← decode_nodes texts; ok (n ∷ nodes)

  -- The claims of the response on an account that is proved.
  unfoldable pub check_claims : EthAccountProof → Account → Result ProofError (Unit {0})
  check_claims proof account = do
    balance ← map_err types (decode_qty proof.balance)
    ensure (bytes_eq (encode_qty balance) (encode_qty account.balance)) (claim_mismatch "balance")
    claimed_nonce ← parse_qty_u64 proof.nonce
    ensure (claimed_nonce == account.nonce) (claim_mismatch "nonce")
    claimed_storage ← map_err types (decode_hex_fixed x 32 proof.storage_hash)
    ensure
        (bytes_eq claimed_storage account.storage_root
          || (is_absent account && all_zero claimed_storage))
        (claim_mismatch "storageHash")
    claimed_code ← map_err types (decode_hex_fixed x 32 proof.code_hash)
    ensure (bytes_eq claimed_code account.code_hash || (is_absent account && all_zero claimed_code))
        (claim_mismatch "codeHash")

  unfoldable pub verify_eth_get_proof :
      Bytes → Bytes → EthAccountProof → Result ProofError VerifiedAccount
  verify_eth_get_proof state_root expected_address proof = do
    addr ← map_err types (decode_hex_fixed x 20 proof.address)
    ensure (bytes_eq addr expected_address) (claim_mismatch "address")
    ensure (leb (length proof.account_proof) max_proof_nodes) too_many_nodes
    ensure (leb (length proof.storage_proof) max_proof_storage_entries) too_many_storage_entries
    check_entries proof.storage_proof
    nodes ← map_err types (decode_nodes proof.account_proof)
    ensure (none_too_large nodes) node_too_large
    account ← map_err mpt (verify_account_proof x state_root addr nodes)
    check_claims proof account
    ok (record {
      address = addr;
      nonce = account.nonce;
      balance_wei = strip_int account.balance;
      storage_root = account.storage_root;
      code_hash = account.code_hash;
    })

  abbrev short_slot : Result TypesError Bytes → Option Bytes
  short_slot (ok raw) = if leb (length raw) 32 then some (pad32 raw) else none
  short_slot (err e) = none

  unfoldable pub slot_of_key : Bytes → Option Bytes
  slot_of_key s = short_slot (decode_qty s)

  -- The key names the slot, or it is the slot's text in any case of its letters.
  unfoldable pub names_slot : Bytes → StorageProofEntry → Bool
  names_slot slot e =
      is_slot slot (slot_of_key e.key)
      || bytes_eq (map to_ascii_lowercase e.key)
          (map to_ascii_lowercase (b'0' ∷ b'x' ∷ x.hex_encode slot))

  -- `find`
  unfoldable pub find_entry : Bytes → List StorageProofEntry → Option StorageProofEntry
  find_entry slot [] = none
  find_entry slot (e ∷ entries) =
      let later = find_entry slot entries in if names_slot slot e then some e else later

  unfoldable pub check_entry : Bytes → Bytes → StorageProofEntry → Result ProofError Bytes
  check_entry storage_root slot entry = do
    nodes ← map_err types (decode_nodes entry.proof)
    ensure (none_too_large nodes) node_too_large
    value ← map_err mpt (verify_storage_proof x storage_root slot nodes)
    claimed ← map_err types (decode_qty entry.value)
    ensure
        (bytes_eq (strip_int value) (strip_int claimed)
          || bytes_eq (encode_qty value) (encode_qty claimed))
        (claim_mismatch "storage value")
    ok value

  unfoldable pub verify_storage_slot :
      VerifiedAccount → Bytes → EthAccountProof → Result ProofError Bytes
  verify_storage_slot account slot proof =
      if bytes_eq account.storage_root empty_trie_root then ok [] else do
        entry ← ok_or (find_entry slot proof.storage_proof) (claim_mismatch "storageProof")
        check_entry account.storage_root slot entry

  unfoldable pub verify_account_code : VerifiedAccount → Bytes → Result ProofError (Unit {0})
  verify_account_code account code =
      if bytes_eq account.code_hash empty_code_hash
      then ensure (length code == 0) (claim_mismatch "empty code")
      else map_err mpt (verify_bytecode x code account.code_hash)
