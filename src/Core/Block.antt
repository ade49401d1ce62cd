-- ===== src/Core/Block.antt =====
-- crates/augecoin-core/src/block.rs: the header and the block.
pub mod Hash
pub mod Select
pub mod Codec
pub mod RoundTrip
pub mod Refused
use augecoin.Base.{ℕ, List, Bytes}
use augecoin.Core.Operation.{Signature, Operation}

pub record OperationBlockHeader : Type 0 where
  pub block_number : ℕ
  pub account_key : Bytes
  pub reward : ℕ
  pub fee : ℕ
  pub protocol_version : ℕ
  pub protocol_available : ℕ
  pub timestamp : ℕ
  pub initial_safe_box_hash : Bytes
  pub operations_hash : Bytes
  pub block_payload : Bytes
  pub proof_of_work : Bytes
  pub previous_proof_of_work : Bytes
  pub leader_id : ℕ
  pub chain_id : ℕ

pub record OperationBlock : Type 0 where
  pub header : OperationBlockHeader
  pub operations : List Operation
  pub leader_signature : Signature
  pub quorum_signatures : List Signature
  pub block_hash : Bytes
