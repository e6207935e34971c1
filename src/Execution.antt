-- ===== src/Execution.antt =====
-- crates/helios-bsc-execution/src: the proofs of accounts and storage, and the tries of a block.
pub mod Balance
pub mod BlockLists
pub mod Mpt
pub mod OrderedTrie
pub mod Proof
pub mod Receipt
