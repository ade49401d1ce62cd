-- ===== src/Tests.antt =====
-- Concrete inputs, and each theorem at one of them.
pub mod Data
mod Consensus
mod Core
mod Money
mod Execution
mod Wire
mod Mempool
mod Proposer
mod Large
mod Address
mod Storage
