-- ===== src/Types/Header.antt =====
-- rpc_header.rs: a block header as the RPC returns it, each field a hex text.
use helios_bsc.Prelude.{Option, Bytes}

pub record RpcBlockHeader : Type 0 where
  pub hash : Bytes
  pub parent_hash : Bytes
  pub sha3_uncles : Bytes
  pub miner : Bytes
  pub state_root : Bytes
  pub transactions_root : Bytes
  pub receipts_root : Bytes
  pub logs_bloom : Bytes
  pub difficulty : Bytes
  pub number : Bytes
  pub gas_limit : Bytes
  pub gas_used : Bytes
  pub timestamp : Bytes
  pub extra_data : Bytes
  pub mix_hash : Bytes
  pub nonce : Bytes
  pub base_fee_per_gas : Option Bytes
  pub withdrawals_root : Option Bytes
  pub blob_gas_used : Option Bytes
  pub excess_blob_gas : Option Bytes
  pub parent_beacon_block_root : Option Bytes
  pub requests_hash : Option Bytes
