-- ===== src/Node/Verify/Safety.antt =====
-- crates/augecoin-node/src/execution.rs, `verify_block_quorum`: what an accepted block shows.
use augecoin.Base.{
  ℕ, ◌≤◌, ◌≡◌, refl, ltb, bytes_eq, bytes_eq→eq, length, ok, OnOk, OnOk-use, arith, Bool-cases, inl,
  inr,
}
use augecoin.Crypto.{Crypto}
use augecoin.Core.Block.{OperationBlock}
use augecoin.Core.Block.Hash.{block_hash, compute_operations_merkle_root}
use augecoin.Consensus.Validator.{ValidatorInfo, ValidatorSet, active_validators}
use augecoin.Consensus.Validator.Invariant.{IsDistinct}
use augecoin.Consensus.Quorum.{quorum_threshold}
use augecoin.Consensus.Quorum.Counting.{In}
use augecoin.Consensus.Quorum.Intersection.{HasSigned, signers_meet}
use augecoin.Node.Verify.{valid_validators, check_quorum, verify_block_quorum}

-- What an accepted block has: a quorum, and the operations that its header names.
pub record IsAccepted (c : Crypto) (now : ℕ) (block : OperationBlock) (vs : ValidatorSet)
    (signers : ℕ) : Type 0 where
  pub signers_counted : signers ≡ length (valid_validators c block vs)
  pub quorum : quorum_threshold (length (active_validators vs)) ≤ signers
  pub operations_named :
      block.header.operations_hash ≡ compute_operations_merkle_root c block.operations

check_quorum-IsAccepted :
    (c : Crypto) (now : ℕ) (block : OperationBlock) (vs : ValidatorSet)
    → OnOk (IsAccepted c now block vs) (check_quorum c block vs)
unfolding check_quorum
check_quorum-IsAccepted c now block vs =
    let n = length (valid_validators c block vs) in
    let t = quorum_threshold (length (active_validators vs)) in
    elim (Bool-cases (ltb n t)) [
      | inl few ↦ rw (few, OnOk) tt
      | inr enough ↦
          elim (Bool-cases (
            bytes_eq block.header.operations_hash
              (compute_operations_merkle_root c block.operations))) [
                | inl same ↦
                    rw (enough, same, OnOk)
                      (record {
                        signers_counted = refl;
                        quorum = ground arith;
                        operations_named =
                            bytes_eq→eq block.header.operations_hash
                              (compute_operations_merkle_root c block.operations) same;
                      })
                | inr other ↦ rw (enough, other, OnOk) tt
              ]
    ]

-- A block that `verify_block_quorum` accepts has signatures of as many distinct active validators as
-- the threshold asks for, and the operations that its header names.
pub verify_block_quorum-IsAccepted :
    (c : Crypto) (now : ℕ) (block : OperationBlock) (vs : ValidatorSet)
    → OnOk (IsAccepted c now block vs) (verify_block_quorum c now block vs)
unfolding verify_block_quorum
verify_block_quorum-IsAccepted c now block vs =
    ground (arith, check_quorum-IsAccepted c now block vs)

-- Two blocks that `verify_block_quorum` accepts, at whatever times, under one validator set with
-- distinct ids and an active validator, have a common signer: an active validator under whose key a
-- signature of each block verifies.
pub accepted_blocks_share :
    (c : Crypto) (now₁ now₂ : ℕ) (b₁ b₂ : OperationBlock) (vs : ValidatorSet) (n₁ n₂ : ℕ)
    → IsDistinct vs.validators
    → 1 ≤ length (active_validators vs)
    → verify_block_quorum c now₁ b₁ vs ≡ ok n₁
    → verify_block_quorum c now₂ b₂ vs ≡ ok n₂
    → (v : ValidatorInfo) × In v (active_validators vs)
      × HasSigned c (block_hash c b₁) b₁.quorum_signatures v
      × HasSigned c (block_hash c b₂) b₂.quorum_signatures v
unfolding active_validators valid_validators
accepted_blocks_share c now₁ now₂ b₁ b₂ vs n₁ n₂ d some_active e₁ e₂ =
    let a₁ =
      OnOk-use _ (verify_block_quorum c now₁ b₁ vs) (verify_block_quorum-IsAccepted c now₁ b₁ vs)
        e₁ in
    let a₂ =
      OnOk-use _ (verify_block_quorum c now₂ b₂ vs) (verify_block_quorum-IsAccepted c now₂ b₂ vs)
        e₂ in
    signers_meet c vs (block_hash c b₁) (block_hash c b₂) b₁.quorum_signatures b₂.quorum_signatures
      d some_active (omega (arith, a₁.quorum, a₁.signers_counted))
      (omega (arith, a₂.quorum, a₂.signers_counted))
