-- ===== src/Consensus/Equivocation.antt =====
-- crates/augecoin-consensus/src/equivocation.rs: the pairs of blocks that one leader made at one
-- height.
pub mod Pairs
use augecoin.Base.{
  ℕ, Bool, true, false, ◌&&◌, not, List, [], ◌∷◌, ◌++◌, ◌==◌, if◌then◌else◌, Bytes, bytes_eq,
}
use augecoin.Crypto.{Crypto}
use augecoin.Core.Operation.{Signature}
use augecoin.Core.Block.{OperationBlock}
use augecoin.Core.Block.Hash.{block_hash}

pub record EquivocationProof : Type 0 where
  pub validator_id : ℕ
  pub height : ℕ
  pub block1_hash : Bytes
  pub block1_leader_sig : Signature
  pub block2_hash : Bytes
  pub block2_leader_sig : Signature

module _ (c : Crypto) where
  -- the three tests on a pair
  unfoldable pub is_equivocation : OperationBlock → OperationBlock → Bool
  is_equivocation b1 b2 =
      ((b1.header.block_number == b2.header.block_number)
        && (b1.header.leader_id == b2.header.leader_id))
      && not (bytes_eq (block_hash c b1) (block_hash c b2))

  unfoldable pub proof_of : OperationBlock → OperationBlock → EquivocationProof
  proof_of b1 b2 = record {
    validator_id = b1.header.leader_id;
    height = b1.header.block_number;
    block1_hash = block_hash c b1;
    block1_leader_sig = b1.leader_signature;
    block2_hash = block_hash c b2;
    block2_leader_sig = b2.leader_signature;
  }

  -- The inner loop, over the blocks behind `b1`.
  unfoldable pub proofs_with : OperationBlock → List OperationBlock → List EquivocationProof
  proofs_with b1 [] = []
  proofs_with b1 (b2 ∷ bs) =
      if is_equivocation b1 b2 then proof_of b1 b2 ∷ proofs_with b1 bs else proofs_with b1 bs

  -- The outer loop.
  unfoldable pub detect_equivocation : List OperationBlock → List EquivocationProof
  detect_equivocation [] = []
  detect_equivocation (b ∷ bs) = proofs_with b bs ++ detect_equivocation bs
