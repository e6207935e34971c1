-- ===== src/Consensus.antt =====
-- crates/helios-bsc-consensus/src: seals, votes, snapshots, finality.
pub mod Vote
pub mod Seal
pub mod Snapshot
pub mod Finality
pub mod Engine
