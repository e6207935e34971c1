-- ===== src/Execution/Receipt.antt =====
-- crates/helios-bsc-execution/src/receipt_rlp.rs: the bytes of a receipt in the trie of a block.
use helios_bsc.Prelude.{
  ℕ, List, [], ◌∷◌, Bytes, length, map, leb, ◌==◌, if◌then◌else◌, Result, ok, ◌>>◌, ensure,
}
use helios_bsc.Rlp.Encode.{encode_bytes, encode_uint, encode_list}

abbrev pub max_receipt_logs : ℕ
max_receipt_logs = 1024

abbrev pub max_log_topics : ℕ
max_log_topics = 4

pub data ReceiptRlpError : Type 0 where
  unknown_type : ℕ → ReceiptRlpError
  invalid_status too_many_logs too_many_topics : ReceiptRlpError

pub record ConsensusLog : Type 0 where
  pub address : Bytes
  pub topics : List Bytes
  pub data_bytes : Bytes

pub record ConsensusReceipt : Type 0 where
  pub status : ℕ
  pub cumulative_gas_used : ℕ
  pub logs_bloom : Bytes
  pub logs : List ConsensusLog
  pub tx_type : ℕ

unfoldable pub encode_log : ConsensusLog → Bytes
encode_log log = encode_list (
    encode_bytes log.address
    ∷ encode_list (map encode_bytes log.topics)
    ∷ encode_bytes log.data_bytes
    ∷ [])

-- The loop over the logs.
unfoldable pub check_topics : List ConsensusLog → Result ReceiptRlpError (Unit {0})
check_topics [] = ok tt
check_topics (log ∷ logs) = do
  ensure (leb (length log.topics) max_log_topics) too_many_topics
  check_topics logs

unfoldable pub receipt_payload : ConsensusReceipt → Bytes
receipt_payload r = encode_list (
    encode_uint r.status
    ∷ encode_uint r.cumulative_gas_used
    ∷ encode_bytes r.logs_bloom
    ∷ encode_list (map encode_log r.logs)
    ∷ [])

unfoldable pub encode_consensus_receipt : ConsensusReceipt → Result ReceiptRlpError Bytes
encode_consensus_receipt r = do
  ensure (leb r.tx_type 4) (unknown_type r.tx_type)
  ensure (leb r.status 1) invalid_status
  ensure (leb (length r.logs) max_receipt_logs) too_many_logs
  check_topics r.logs
  ok (if r.tx_type == 0 then receipt_payload r else r.tx_type ∷ receipt_payload r)
