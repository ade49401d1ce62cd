-- ===== src/Tests/Large.antt =====
-- The theorem on the blocks of a large validator set at a concrete input.
use augecoin.Base.{
  ℕ, zero, suc, ◌≤◌, ◌≡◌, refl, List, [], ◌∷◌, ◌++◌, Bytes, bytes_eq, length, replicate, ok, err,
  arith, to_be_bytes,
}
use augecoin.Core.Block.{OperationBlock}
use augecoin.Core.Block.Codec.{quorum_sig_count_exceeds_maximum, block_to_bytes, block_from_bytes}
use augecoin.Core.Block.Refused.{FitsFront}
use augecoin.Consensus.Validator.{ValidatorStatus, ValidatorInfo, ValidatorSet, active_validators}
use augecoin.Node.Verify.{verify_block_quorum}
use augecoin.Node.Verify.Readable.{large_quorum_unreadable}
use augecoin.Tests.Data.{toy, full_header}
use augecoin.Tests.Wire.{full_header-FitsHeader}

-- The validators with the ids below a number; the key of each is its id, and its signature the key.
abbrev validators_below : ℕ → List ValidatorInfo
validators_below zero = []
validators_below (suc n) =
    record { id = n; ed25519_public_key = replicate 64 n; status = ValidatorStatus.active }
    ∷ validators_below n

abbrev signatures_below : ℕ → List Bytes
signatures_below zero = []
signatures_below (suc n) = replicate 64 n ∷ signatures_below n

abbrev large_set : ValidatorSet
large_set = record {
  admin_public_key = replicate 32 5;
  validators = validators_below 150;
  next_validator_id = 150;
}

abbrev large_block : OperationBlock
large_block = record {
  header = full_header;
  operations = [];
  leader_signature = replicate 64 0;
  quorum_signatures = signatures_below 101;
  block_hash = [];
}

large_block-FitsFront : FitsFront large_block
large_block-FitsFront = record {
  header = full_header-FitsHeader;
  count = omega arith;
  operations = tt;
  leader = refl;
}

accepted : verify_block_quorum toy 100 large_block large_set ≡ ok 101
unfolding verify_block_quorum bytes_eq to_be_bytes
accepted = refl

large : 150 ≤ length (active_validators large_set)
unfolding active_validators
large = omega arith

large_quorum_unreadable_example :
    block_from_bytes toy (block_to_bytes large_block ++ []) ≡ err quorum_sig_count_exceeds_maximum
large_quorum_unreadable_example =
    large_quorum_unreadable toy 100 large_block large_set 101 [] large_block-FitsFront (omega arith)
      large accepted
