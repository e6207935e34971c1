-- ===== src/Consensus/Seal/Hash.antt =====
-- The two hashes of a header in seal.rs: `seal_hash`, which the sealer signs, and `header_hash`, the
-- hash of the block.
use helios_bsc.Prelude.{
  ℕ, ◌+◌, ◌-◌, Bool, true, false, Option, none, some, List, [], ◌∷◌, ◌++◌, Bytes, length, take,
  replicate, leb, bytes_eq, ◌||◌, Result, ok, ◌>>=◌, ◌>>◌, ensure, map_err,
}
use helios_bsc.Config.Extra.{extra_vanity, extra_seal}
use helios_bsc.Types.External.{External}
use helios_bsc.Types.Header.{RpcBlockHeader}
use helios_bsc.Types.Hex.{decode_hex, decode_hex_fixed}
use helios_bsc.Rlp.Encode.{encode_bytes, encode_uint128, encode_list}
use helios_bsc.Consensus.Seal.{SealError, types, extra_too_short, hash_mismatch}
use helios_bsc.Consensus.Seal.Timing.{u64_of}

abbrev pub is_some : {A : Type 0} → Option A → Bool
is_some none = false
is_some (some a) = true

-- `opt.map(f).transpose()?.unwrap_or(d)`
abbrev pub decoded_or :
    {A : Type 0} → (Bytes → Result SealError A) → A → Option Bytes → Result SealError A
decoded_or f d none = ok d
decoded_or f d (some s) = f s

-- An item that is pushed behind a test.
abbrev pub push_if : Bool → Result SealError Bytes → Result SealError (List Bytes)
push_if true item = do i ← item; ok (i ∷ [])
push_if false item = ok []

unfoldable pub encode_opt_uint : Option Bytes → Result SealError Bytes
encode_opt_uint none = ok (0x80 ∷ [])
encode_opt_uint (some s) = do n ← u64_of s; ok (encode_uint128 n)

module _ (x : External) where
  -- `decode_hex_fixed::<n>(..)?` and `decode_hex(..)?` where the error is a `SealError`.
  abbrev pub fixed_of : ℕ → Bytes → Result SealError Bytes
  fixed_of n s = map_err types (decode_hex_fixed x n s)

  abbrev pub hex_of : Bytes → Result SealError Bytes
  hex_of s = map_err types (decode_hex x s)

  unfoldable pub encode_opt_hash : Option Bytes → Result SealError Bytes
  encode_opt_hash none = ok (0x80 ∷ [])
  encode_opt_hash (some s) = do b ← fixed_of 32 s; ok (encode_bytes b)

  -- The items that `seal_hash` appends where the parent beacon root is there.
  unfoldable pub seal_requests : Option Bytes → Result SealError (List Bytes)
  seal_requests none = ok []
  seal_requests (some s) = do b ← fixed_of 32 s; ok (encode_bytes b ∷ [])

  unfoldable pub seal_extension : RpcBlockHeader → Option Bytes → Result SealError (List Bytes)
  seal_extension header none = ok []
  seal_extension header (some root) = do
    base_fee ← decoded_or u64_of 0 header.base_fee_per_gas
    withdrawals ← decoded_or (fixed_of 32) (replicate 32 0) header.withdrawals_root
    blob_gas ← decoded_or u64_of 0 header.blob_gas_used
    excess ← decoded_or u64_of 0 header.excess_blob_gas
    beacon ← fixed_of 32 root
    requests ← seal_requests header.requests_hash
    ok (
        encode_uint128 base_fee
        ∷ encode_bytes withdrawals
        ∷ encode_uint128 blob_gas
        ∷ encode_uint128 excess
        ∷ encode_bytes beacon
        ∷ requests)

  -- The items that are hashed: the chain id first, and `extraData` without the seal.
  unfoldable pub seal_items : RpcBlockHeader → ℕ → Result SealError (List Bytes)
  seal_items header chain_id = do
    extra ← hex_of header.extra_data
    ensure (leb (extra_vanity + extra_seal) (length extra)) extra_too_short
    let extra_wo_seal = take (length extra - extra_seal) extra
    parent ← fixed_of 32 header.parent_hash
    uncle ← fixed_of 32 header.sha3_uncles
    coinbase ← fixed_of 20 header.miner
    root ← fixed_of 32 header.state_root
    tx_hash ← fixed_of 32 header.transactions_root
    receipt ← fixed_of 32 header.receipts_root
    bloom ← hex_of header.logs_bloom
    difficulty ← u64_of header.difficulty
    number ← u64_of header.number
    gas_limit ← u64_of header.gas_limit
    gas_used ← u64_of header.gas_used
    time ← u64_of header.timestamp
    mix ← fixed_of 32 header.mix_hash
    nonce ← fixed_of 8 header.nonce
    extension ← seal_extension header header.parent_beacon_block_root
    ok (
        encode_uint128 chain_id
        ∷ encode_bytes parent
        ∷ encode_bytes uncle
        ∷ encode_bytes coinbase
        ∷ encode_bytes root
        ∷ encode_bytes tx_hash
        ∷ encode_bytes receipt
        ∷ encode_bytes bloom
        ∷ encode_uint128 difficulty
        ∷ encode_uint128 number
        ∷ encode_uint128 gas_limit
        ∷ encode_uint128 gas_used
        ∷ encode_uint128 time
        ∷ encode_bytes extra_wo_seal
        ∷ encode_bytes mix
        ∷ encode_bytes nonce
        ∷ extension)

  unfoldable pub seal_hash : RpcBlockHeader → ℕ → Result SealError Bytes
  seal_hash header chain_id = do
    items ← seal_items header chain_id
    ok (x.keccak256 (encode_list items))

  -- The optional fields of `header_hash`: from the first one to the last that is there.
  unfoldable pub optional_items : RpcBlockHeader → Result SealError (List Bytes)
  optional_items header = do
    let has_base = is_some header.base_fee_per_gas
    let has_wd = is_some header.withdrawals_root
    let has_blob = is_some header.blob_gas_used
    let has_excess = is_some header.excess_blob_gas
    let has_beacon = is_some header.parent_beacon_block_root
    let has_req = is_some header.requests_hash
    base ←
        push_if (has_base || has_wd || has_blob || has_excess || has_beacon || has_req)
          (encode_opt_uint header.base_fee_per_gas)
    wd ←
        push_if (has_wd || has_blob || has_excess || has_beacon || has_req)
          (encode_opt_hash header.withdrawals_root)
    blob ←
        push_if (has_blob || has_excess || has_beacon || has_req)
          (encode_opt_uint header.blob_gas_used)
    excess ← push_if (has_excess || has_beacon || has_req) (encode_opt_uint header.excess_blob_gas)
    beacon ← push_if (has_beacon || has_req) (encode_opt_hash header.parent_beacon_block_root)
    req ← push_if has_req (encode_opt_hash header.requests_hash)
    ok (base ++ wd ++ blob ++ excess ++ beacon ++ req)

  unfoldable pub header_items : RpcBlockHeader → Result SealError (List Bytes)
  header_items header = do
    parent ← fixed_of 32 header.parent_hash
    uncle ← fixed_of 32 header.sha3_uncles
    coinbase ← fixed_of 20 header.miner
    root ← fixed_of 32 header.state_root
    tx_hash ← fixed_of 32 header.transactions_root
    receipt ← fixed_of 32 header.receipts_root
    bloom ← fixed_of 256 header.logs_bloom
    difficulty ← u64_of header.difficulty
    number ← u64_of header.number
    gas_limit ← u64_of header.gas_limit
    gas_used ← u64_of header.gas_used
    time ← u64_of header.timestamp
    extra ← hex_of header.extra_data
    mix ← fixed_of 32 header.mix_hash
    nonce ← fixed_of 8 header.nonce
    optional ← optional_items header
    ok (
        encode_bytes parent
        ∷ encode_bytes uncle
        ∷ encode_bytes coinbase
        ∷ encode_bytes root
        ∷ encode_bytes tx_hash
        ∷ encode_bytes receipt
        ∷ encode_bytes bloom
        ∷ encode_uint128 difficulty
        ∷ encode_uint128 number
        ∷ encode_uint128 gas_limit
        ∷ encode_uint128 gas_used
        ∷ encode_uint128 time
        ∷ encode_bytes extra
        ∷ encode_bytes mix
        ∷ encode_bytes nonce
        ∷ optional)

  unfoldable pub header_hash : RpcBlockHeader → Result SealError Bytes
  header_hash header = do items ← header_items header; ok (x.keccak256 (encode_list items))

  unfoldable pub verify_header_hash : RpcBlockHeader → Result SealError Bytes
  verify_header_hash header = do
    computed ← header_hash header
    claimed ← fixed_of 32 header.hash
    ensure (bytes_eq computed claimed) hash_mismatch
    ok computed
