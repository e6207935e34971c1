-- ===== src/Tests.antt =====
-- Concrete inputs: the code runs on them, and each theorem is applied to one of them.
pub mod Samples
pub mod Codecs
pub mod Rules
pub mod Walk
pub mod Start
pub mod Chain
pub mod Engine
pub mod Proofs
pub mod Responses
pub mod Binding
pub mod Paths
pub mod Tries
pub mod Receipts
