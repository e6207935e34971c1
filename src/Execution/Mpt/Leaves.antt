-- ===== src/Execution/Mpt/Leaves.antt =====
-- The values in the leaves of mpt.rs: accounts, storage words, and the code that a hash names.
use helios_bsc.Prelude.{
  ℕ, ◌+◌, ◌*◌, ◌%◌, ◌^◌, Option, none, some, [], ◌∷◌, Bytes, List, length, leb, ◌==◌, bytes_eq,
  ◌&&◌, if◌then◌else◌, Result, ok, err, ◌>>=◌, ◌>>◌, ensure, map_err,
}
use helios_bsc.Types.External.{External}
use helios_bsc.Rlp.Encode.{Rlp, bytes, list}
use helios_bsc.Rlp.Decode.{RlpError, decode}
use helios_bsc.Execution.Mpt.{
  MptError, rlp, hash_mismatch, bad_account, bad_storage_leaf, as_bytes, as_list, item_count,
  item_at, verify_trie_proof,
}

pub record Account : Type 0 where
  pub nonce : ℕ
  pub balance : Bytes
  pub storage_root : Bytes
  pub code_hash : Bytes

abbrev pub empty_code_hash : Bytes
empty_code_hash =
    0xc5 ∷ 0xd2 ∷ 0x46 ∷ 0x01 ∷ 0x86 ∷ 0xf7 ∷ 0x23 ∷ 0x3c ∷ 0x92 ∷ 0x7e ∷ 0x7d ∷ 0xb2 ∷ 0xdc ∷ 0xc7
    ∷ 0x03 ∷ 0xc0 ∷ 0xe5 ∷ 0x00 ∷ 0xb6 ∷ 0x53 ∷ 0xca ∷ 0x82 ∷ 0x27 ∷ 0x3b ∷ 0x7b ∷ 0xfa ∷ 0xd8
    ∷ 0x04 ∷ 0x5d ∷ 0x85 ∷ 0xa4 ∷ 0x70 ∷ []

abbrev pub empty_trie_root : Bytes
empty_trie_root =
    0x56 ∷ 0xe8 ∷ 0x1f ∷ 0x17 ∷ 0x1b ∷ 0xcc ∷ 0x55 ∷ 0xa6 ∷ 0xff ∷ 0x83 ∷ 0x45 ∷ 0xe6 ∷ 0x92 ∷ 0xc0
    ∷ 0xf8 ∷ 0x6e ∷ 0x5b ∷ 0x48 ∷ 0xe0 ∷ 0x1b ∷ 0x99 ∷ 0x6c ∷ 0xad ∷ 0xc0 ∷ 0x01 ∷ 0x62 ∷ 0x2f
    ∷ 0xb5 ∷ 0xe3 ∷ 0x63 ∷ 0xb4 ∷ 0x21 ∷ []

abbrev pub empty_account : Account
empty_account = record {
  nonce = 0;
  balance = [];
  storage_root = empty_trie_root;
  code_hash = empty_code_hash;
}

-- The loop of `rlp_uint`.
unfoldable pub be_from : ℕ → Bytes → ℕ
be_from n [] = n
be_from n (b ∷ bs) = be_from (n * 256 % 2 ^ 64 + b) bs

unfoldable pub rlp_uint : Bytes → Result MptError ℕ
rlp_uint b = do ensure (leb (length b) 8) bad_account; ok (be_from 0 b)

-- `map_err(|_| MptError::BadAccount)`
abbrev pub or_bad : {A : Type 0} → Result RlpError A → Result MptError A
or_bad (ok a) = ok a
or_bad (err e) = err bad_account

unfoldable pub decode_account : Bytes → Result MptError Account
decode_account value = do
  decoded ← map_err rlp (decode value)
  items ← or_bad (as_list decoded)
  ensure (item_count items == 4) bad_account
  nonce_bytes ← or_bad (as_bytes (item_at items 0))
  nonce ← rlp_uint nonce_bytes
  balance ← or_bad (as_bytes (item_at items 1))
  ensure (leb (length balance) 32) bad_account
  storage ← or_bad (as_bytes (item_at items 2))
  code ← or_bad (as_bytes (item_at items 3))
  ensure (length storage == 32 && length code == 32) bad_account
  ok (record { nonce = nonce; balance = balance; storage_root = storage; code_hash = code })

abbrev pub storage_word : Result RlpError Rlp → Result MptError Bytes
storage_word (ok (bytes b)) = if leb (length b) 32 then ok b else err bad_storage_leaf
storage_word (ok (list items)) = err bad_storage_leaf
storage_word (err e) = err bad_storage_leaf

unfoldable pub decode_storage_leaf : Bytes → Result MptError Bytes
decode_storage_leaf raw = storage_word (decode raw)

abbrev pub account_of : Option Bytes → Result MptError Account
account_of none = ok empty_account
account_of (some value) = decode_account value

-- A slot that is absent is the zero word.
abbrev pub word_of : Option Bytes → Result MptError Bytes
word_of none = ok []
word_of (some raw) = decode_storage_leaf raw

module _ (x : External) where
  unfoldable pub verify_account_proof : Bytes → Bytes → List Bytes → Result MptError Account
  verify_account_proof state_root address proof = do
    found ← verify_trie_proof x state_root (x.keccak256 address) proof
    account_of found

  unfoldable pub verify_storage_proof : Bytes → Bytes → List Bytes → Result MptError Bytes
  verify_storage_proof storage_root slot proof =
      if bytes_eq storage_root empty_trie_root
      then ok []
      else do found ← verify_trie_proof x storage_root (x.keccak256 slot) proof; word_of found

  unfoldable pub verify_bytecode : Bytes → Bytes → Result MptError (Unit {0})
  verify_bytecode code expected_hash =
      ensure (bytes_eq (x.keccak256 code) expected_hash) hash_mismatch
