-- ===== src/Core.antt =====
-- crates/augecoin-core: accounts, operations, blocks, emission and the SafeBox.
pub mod Account
pub mod Operation
pub mod Codec
pub mod Emission
pub mod Block
pub mod Merkle
pub mod SafeBox
pub mod Proposal
pub mod Mempool
pub mod Address
