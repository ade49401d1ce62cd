-- ===== src/Node.antt =====
-- crates/augecoin-node: the execution of blocks.
pub mod Execution
pub mod Verify
pub mod Admission
pub mod Messages
pub mod Proposer
