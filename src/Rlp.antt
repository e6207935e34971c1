-- ===== src/Rlp.antt =====
-- crates/helios-bsc-execution/src/rlp.rs: RLP items, the strict decoder and the encoder.
-- The encoder of crates/helios-bsc-consensus/src/rlp_util.rs is the same code.
pub mod Encode
pub mod Decode
mod Lengths
pub mod RoundTrip
pub mod Injective
pub mod Canonical
pub mod Total
