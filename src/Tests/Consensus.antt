-- ===== src/Tests/Consensus.antt =====
-- The theorems on crates/augecoin-consensus, and on the checks of accepted blocks, at concrete
-- inputs.
use augecoin.Base.{
  to_be_bytes, Bytes, List, OnOk, [], ap, arith, bytes_eq, bytes_eq_refl, err, false, inl, inr, ok,
  refl, replicate, some, sym, true, ℕ, ◌++◌, ◌∙◌, ◌∷◌, ◌≡◌,
}
use augecoin.Core.Operation.{Operation, OperationPayload, ValidatorAdminOp}
use augecoin.Core.Block.{OperationBlock}
use augecoin.Core.Block.Hash.{block_hash, compute_operations_merkle_root}
use augecoin.Consensus.Validator.{
  ValidatorInfo, ValidatorSet, active_validators, apply_admin_op, apply_validator_admin,
  is_admin_signed, leader_for_height, no_active_validators,
}
use augecoin.Consensus.Validator.Invariant.{IsDistinct, IsValid}
use augecoin.Consensus.Validator.Changes.{Kept}
use augecoin.Consensus.Validator.Admin.{apply_validator_admin-Kept, activate_later_halts}
use augecoin.Consensus.Validator.Codec.{
  FitsSet, set_to_bytes, set_from_bytes, set_from_bytes-to_bytes,
}
use augecoin.Consensus.Quorum.{
  verify_quorum, quorum_threshold, collect_signers, first_signer, insert_id, contains_id,
}
use augecoin.Consensus.Quorum.Counting.{In}
use augecoin.Consensus.Quorum.Intersection.{HasSigned, verify_quorum-share}
use augecoin.Crypto.{Crypto}
use augecoin.Consensus.Equivocation.{is_equivocation, proof_of, proofs_with, detect_equivocation}
use augecoin.Consensus.Equivocation.Pairs.{
  Before, Conflict, detect_equivocation_sound, detect_equivocation_complete,
}
use augecoin.Consensus.Round.{
  RoundPhase, RoundState, new_round, propose_block, verify_and_advance, add_signature, try_commit,
}
use augecoin.Consensus.Round.Phases.{
  Reach, here, next, proposed, verified, signed, tried, IsSound, Reach-IsSound,
}
use augecoin.Node.Verify.{verify_block_quorum, check_quorum, valid_validators}
use augecoin.Node.Verify.Safety.{accepted_blocks_share}
use augecoin.Tests.Data.{toy, two_validators, one_validator, validator, both_sign, block_of}

two-IsDistinct : IsDistinct two_validators.validators
two-IsDistinct = ((omega arith, tt), (tt, tt))

verify_quorum-share_example :
    (v : ValidatorInfo) × In v (active_validators two_validators)
    × HasSigned toy (1 ∷ []) both_sign v
    × HasSigned toy (2 ∷ []) both_sign v
unfolding verify_quorum active_validators quorum_threshold collect_signers first_signer insert_id
    contains_id bytes_eq
verify_quorum-share_example =
    verify_quorum-share toy two_validators (1 ∷ []) (2 ∷ []) both_sign both_sign two-IsDistinct
      (omega arith) refl refl

abbrev empty_root : Bytes
empty_root = replicate 64 0

abbrev first_block : OperationBlock
first_block = block_of 1 empty_root 0 []

abbrev other_block : OperationBlock
other_block = block_of 2 empty_root 1 []

accepted_blocks_share_example :
    (v : ValidatorInfo) × In v (active_validators two_validators)
    × HasSigned toy (block_hash toy first_block) first_block.quorum_signatures v
    × HasSigned toy (block_hash toy other_block) other_block.quorum_signatures v
unfolding verify_block_quorum check_quorum valid_validators compute_operations_merkle_root
accepted_blocks_share_example =
    accepted_blocks_share toy 100 100 first_block other_block two_validators 2 2 two-IsDistinct
      (omega arith) refl refl

abbrev in_phase : RoundPhase → List Bytes → RoundState ℕ
in_phase phase sigs = record {
  height = 1;
  phase = phase;
  leader_id = 0;
  proposed_block = some 7;
  collected_signatures = sigs;
  timeout_seconds = 30;
  phase_entered_at = 0;
}

abbrev committed_round : RoundState ℕ
committed_round = in_phase RoundPhase.commit ((1 ∷ []) ∷ [])

committed_round-Reach : Reach one_validator (new_round 1 0 30 0) committed_round
unfolding new_round propose_block verify_and_advance add_signature try_commit active_validators
    quorum_threshold
committed_round-Reach =
    next
      (next
        (next (next here (proposed {t = in_phase RoundPhase.verify []} 7 refl))
          (verified {t = in_phase RoundPhase.sign []} true refl))
        (signed {t = in_phase RoundPhase.sign ((1 ∷ []) ∷ [])} (1 ∷ []) refl))
      (tried true refl)

Reach-IsSound_example : IsSound one_validator committed_round
Reach-IsSound_example = Reach-IsSound one_validator 1 0 30 0 committed_round-Reach

abbrev add_op : Operation
add_op = record {
  payload = OperationPayload.validator_admin (ValidatorAdminOp.add (replicate 32 8) 10);
  chain_id = 1;
  signatures = replicate 32 5 ∷ [];
}

two-IsValid : IsValid two_validators
two-IsValid = record {
  distinct = two-IsDistinct;
  below = (omega arith, (omega arith, tt));
  live = omega arith;
}

abbrev later : ValidatorAdminOp
later = ValidatorAdminOp.activate 0 20

abbrev later_op : Operation
later_op = record add_op { payload = OperationPayload.validator_admin later }

apply_validator_admin-Kept_example :
    OnOk
      (λ s'. Kept later 10 two_validators s' × (is_admin_signed toy later_op two_validators ≡ true))
      (apply_validator_admin toy later_op 10 two_validators)
apply_validator_admin-Kept_example =
    apply_validator_admin-Kept toy later_op later 10 two_validators refl two-IsValid (omega arith)

activate_later_halts_example :
    (s' : ValidatorSet) × (apply_admin_op (ValidatorAdminOp.activate 0 20) 10 one_validator ≡ ok s')
    × (leader_for_height s' 11 ≡ err no_active_validators)
unfolding active_validators
activate_later_halts_example =
    activate_later_halts one_validator 0 20 10 11 (validator 0) refl refl refl (omega arith)

pub two-FitsSet : FitsSet two_validators
two-FitsSet = record {
  admin_length = refl;
  count = omega arith;
  validators_fit = ((omega arith, refl, tt), ((omega arith, refl, tt), tt));
  next_id = omega arith;
}

set_from_bytes-to_bytes_example :
    set_from_bytes toy (set_to_bytes two_validators ++ 9 ∷ []) ≡ ok two_validators
set_from_bytes-to_bytes_example =
    set_from_bytes-to_bytes toy two_validators (9 ∷ []) two-FitsSet refl

-- Here the "hash" is the message itself.
abbrev plain : Crypto
plain = record {
  blake3_512 = λ bytes. bytes;
  valid_key = λ key. true;
  verify = λ key sig message. bytes_eq key sig;
}

-- the first block again, with another root of the operations
abbrev rival_block : OperationBlock
rival_block = block_of 1 (replicate 64 1) 0 []

abbrev rivals : List OperationBlock
rivals = first_block ∷ other_block ∷ rival_block ∷ []

rivals-Conflict : Conflict plain first_block rival_block
unfolding block_hash bytes_eq to_be_bytes
rivals-Conflict = (
  refl,
  (
    refl,
    λ same. true_not_false (
        sym (bytes_eq_refl (block_hash plain first_block))
        ∙ ap (bytes_eq (block_hash plain first_block)) same),
  ),
)
  where
    true_not_false : true ≡ false → ⊥
    true_not_false p = cc

detect_equivocation_complete_example :
    In (proof_of plain first_block rival_block) (detect_equivocation plain rivals)
detect_equivocation_complete_example =
    detect_equivocation_complete plain rivals first_block rival_block (inl (refl, inr (inl refl)))
      rivals-Conflict

first_proof-In : In (proof_of plain first_block rival_block) (detect_equivocation plain rivals)
unfolding detect_equivocation proofs_with is_equivocation block_hash bytes_eq to_be_bytes
first_proof-In = inl refl

detect_equivocation_sound_example :
    (x : OperationBlock) × ((y : OperationBlock) × (Before x y rivals
        × (Conflict plain x y × (proof_of plain first_block rival_block ≡ proof_of plain x y))))
detect_equivocation_sound_example =
    detect_equivocation_sound plain rivals (proof_of plain first_block rival_block) first_proof-In
