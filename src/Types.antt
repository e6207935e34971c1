-- ===== src/Types.antt =====
-- crates/helios-bsc-types/src: the errors, the hex helpers, the RPC header, checkpoints and thresholds.
pub mod External
pub mod Hex
pub mod Header
pub mod Checkpoint
pub mod Quorum
pub mod Trust
