-- ===== src/Core/Codec.antt =====
-- crates/augecoin-core/src/operation.rs: the wire format of operations.
pub mod Write
pub mod Reader
pub mod Reads
pub mod Read
pub mod Payload
pub mod Parts
pub mod RoundTrip
pub mod Framed
