-- ===== src/Types/Trust.antt =====
-- crates/helios-bsc-types/src/trust.rs: how far an answer of the client is verified.
pub data TrustClass : Type 0 where
  verified unverified unsupported : TrustClass
