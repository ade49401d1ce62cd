-- ===== src/Consensus.antt =====
-- crates/augecoin-consensus: the validator set, quorums, rounds and equivocation.
pub mod Validator
pub mod Quorum
pub mod Round
pub mod Equivocation
