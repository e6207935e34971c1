-- ===== src/Consensus/Snapshot.antt =====
-- crates/helios-bsc-consensus/src/snapshot.rs: the walk along the chain. State, Rules, Attest and Apply
-- hold the code, the other modules what is proved of it.
pub mod State
pub mod Rules
pub mod Attest
pub mod Apply
pub mod Linked
pub mod Outcome
pub mod Follows
pub mod Reach
pub mod Finality
pub mod Refusal
pub mod Shape
pub mod Invariant
pub mod Bootstrap
pub mod Sorted
pub mod Paired
pub mod Switch
pub mod Accepts
pub mod Progress
pub mod Header
