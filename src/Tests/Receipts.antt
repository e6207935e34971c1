-- ===== src/Tests/Receipts.antt =====
-- A receipt of type 2 with one log.
use helios_bsc.Prelude.{◌≡◌, ℕ, refl, List, [], ◌∷◌, Bytes, replicate, take, ok, err, ◌>>=◌}
use helios_bsc.Rlp.Encode.{
  to_be_bytes, position_nonzero, len_be, encode_string, encode_bytes, encode_uint, concat,
  list_header, encode_list,
}
use helios_bsc.Execution.Receipt.{
  ConsensusReceipt, invalid_status, too_many_topics, encode_log, check_topics, receipt_payload,
  encode_consensus_receipt,
}

abbrev sample_receipt : ℕ → List Bytes → ConsensusReceipt
sample_receipt status topics = record {
  status = status;
  cumulative_gas_used = 21_000;
  logs_bloom = replicate 256 0;
  logs = record { address = replicate 20 0xaa; topics = topics; data_bytes = 5 ∷ [] } ∷ [];
  tx_type = 2;
}

encode_consensus_receipt_test :
    (encode_consensus_receipt (sample_receipt 1 []) >>= (λ bytes. ok (take 12 bytes)))
    ≡ ok (2 ∷ 0xf9 ∷ 0x01 ∷ 0x20 ∷ 0x01 ∷ 0x82 ∷ 0x52 ∷ 0x08 ∷ 0xb9 ∷ 0x01 ∷ 0x00 ∷ 0x00 ∷ [])
unfolding to_be_bytes position_nonzero len_be encode_string encode_bytes encode_uint concat
    list_header encode_list encode_log check_topics receipt_payload encode_consensus_receipt
encode_consensus_receipt_test = refl

bad_status_test : encode_consensus_receipt (sample_receipt 2 []) ≡ err invalid_status
unfolding encode_consensus_receipt
bad_status_test = refl

bad_topics_test :
    encode_consensus_receipt (sample_receipt 0 (replicate 5 (replicate 32 0))) ≡ err too_many_topics
unfolding encode_consensus_receipt check_topics
bad_topics_test = refl
