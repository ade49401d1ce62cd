-- ===== src/Node/Verify.antt =====
-- crates/augecoin-node/src/execution.rs, `verify_block_quorum` and `verify_block_pre_state`: the
-- checks of a block before it is executed. The clock is an argument.
pub mod Safety
pub mod Readable
use augecoin.Base.{
  ℕ, Bool, true, false, ◌&&◌, not, Option, none, some, List, [], ltb, ◌==◌, if◌then◌else◌, Bytes,
  bytes_eq, length, find, Result, ok, err, saturating_add,
}
use augecoin.Crypto.{Crypto}
use augecoin.Core.Block.{OperationBlockHeader, OperationBlock}
use augecoin.Core.Block.Hash.{block_hash, compute_operations_merkle_root}
use augecoin.Consensus.Validator.{ValidatorInfo, ValidatorSet, active_validators}
use augecoin.Consensus.Quorum.{quorum_threshold, collect_by}
use augecoin.Consensus.Quorum.Intersection.{pick}
use augecoin.Node.Execution.State.{
  Storage, Reason, ExecutionError, operation_failed, storage, leader_not_found,
  invalid_leader_signature, insufficient_quorum, operations_hash_mismatch, future_timestamp,
}

abbrev pub ct_max_future_block_timestamp_seconds : ℕ
ct_max_future_block_timestamp_seconds = 30

-- The two loops over the quorum signatures and the active validators; a validator whose bytes are
-- no key is passed over.
unfoldable pub valid_validators : Crypto → OperationBlock → ValidatorSet → List ℕ
unfolding collect_by active_validators block_hash
valid_validators c block vs =
    collect_by (pick c (block_hash c block) (active_validators vs)) block.quorum_signatures []

-- the checks behind the leader's
unfoldable pub check_quorum : Crypto → OperationBlock → ValidatorSet → Result ExecutionError ℕ
unfolding valid_validators quorum_threshold active_validators compute_operations_merkle_root
    bytes_eq
check_quorum c block vs =
    if ltb (length (valid_validators c block vs)) (quorum_threshold (length (active_validators vs)))
    then err (
        insufficient_quorum (length (valid_validators c block vs))
          (quorum_threshold (length (active_validators vs))))
    else if bytes_eq block.header.operations_hash
        (compute_operations_merkle_root c block.operations)
    then ok (length (valid_validators c block vs))
    else err (
        operations_hash_mismatch block.header.operations_hash
          (compute_operations_merkle_root c block.operations))

unfoldable pub verify_block_quorum :
    Crypto → ℕ → OperationBlock → ValidatorSet → Result ExecutionError ℕ
unfolding check_quorum active_validators block_hash saturating_add
verify_block_quorum c now block vs =
    if ltb (saturating_add now ct_max_future_block_timestamp_seconds) block.header.timestamp
    then err (future_timestamp block.header.timestamp now ct_max_future_block_timestamp_seconds)
    else elim (find (λ (v : ValidatorInfo). v.id == block.header.leader_id)
        (active_validators vs)) [
          | none ↦ err (leader_not_found block.header.leader_id)
          | some leader ↦
              if c.valid_key leader.ed25519_public_key
              then if c.verify leader.ed25519_public_key block.leader_signature (block_hash c block)
                then check_quorum c block vs
                else err invalid_leader_signature
              else err invalid_leader_signature
        ]

unfoldable pub verify_block_pre_state : OperationBlock → Storage → Result ExecutionError (Unit {0})
unfolding bytes_eq
verify_block_pre_state block st = elim st.consensus_state_root [
  | err e ↦ err (storage e)
  | ok root ↦
      if bytes_eq block.header.initial_safe_box_hash root
      then ok tt
      else err (operation_failed block.header.leader_id Reason.state_root_mismatch)
]
