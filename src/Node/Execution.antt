-- ===== src/Node/Execution.antt =====
-- crates/augecoin-node/src/execution.rs: the execution of operations and of blocks.
pub mod State
pub mod Steps
pub mod Transfers
pub mod Accounts
pub mod Contracts
pub mod Signatures
pub mod Block
pub mod Rules
pub mod Money
pub mod Unsigned
pub mod Replay
pub mod Rewards
pub mod Gas
pub mod Passive
pub mod Reserved
pub mod Names
