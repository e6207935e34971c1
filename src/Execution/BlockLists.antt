-- ===== src/Execution/BlockLists.antt =====
-- crates/helios-bsc-execution/src/tx_list.rs and receipt_list.rs: the transactions and the receipts of
-- a block, checked against the roots in its header.
use helios_bsc.Prelude.{
  List, Bytes, length, map, leb, bytes_eq, Result, ok, ◌>>=◌, ◌>>◌, ensure, map_err,
}
use helios_bsc.Types.External.{External}
use helios_bsc.Execution.OrderedTrie.{TrieFault, max_ordered_trie_items, ordered_trie_root}

-- In both errors `trie` is the model's own: the faults of ordered_trie_root.
pub data TxListError : Type 0 where
  too_many root_mismatch : TxListError
  trie : TrieFault → TxListError

pub data ReceiptListError : Type 0 where
  too_many_items root_mismatch : ReceiptListError
  trie : TrieFault → ReceiptListError

module _ (x : External) where
  unfoldable pub verify_tx_list : List Bytes → Bytes → Result TxListError (List Bytes)
  verify_tx_list raws transactions_root = do
    ensure (leb (length raws) max_ordered_trie_items) too_many
    root ← map_err TxListError.trie (ordered_trie_root x raws)
    ensure (bytes_eq root transactions_root) TxListError.root_mismatch
    ok (map x.keccak256 raws)

  unfoldable pub verify_receipt_list : List Bytes → Bytes → Result ReceiptListError (Unit {0})
  verify_receipt_list receipt_rlps receipts_root = do
    ensure (leb (length receipt_rlps) max_ordered_trie_items) too_many_items
    root ← map_err ReceiptListError.trie (ordered_trie_root x receipt_rlps)
    ensure (bytes_eq root receipts_root) ReceiptListError.root_mismatch
