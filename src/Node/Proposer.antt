-- ===== src/Node/Proposer.antt =====
-- crates/augecoin-node/src/consensus.rs: the block that a leader builds, its light proposal, and the
-- block that a validator puts together from it. The clock, the own key and signature, and the limit of
-- `max_block_builder_size` are arguments.
pub mod Rebuild
pub mod Built
use augecoin.Base.{
  ℕ, suc, Bool, true, false, not, Option, none, some, List, [], ◌∷◌, ◌++◌, ltb, ◌==◌, if◌then◌else◌,
  Bytes, bytes_eq, length, replicate, take, find, map, Result, ok, err,
}
use augecoin.Crypto.{Crypto}
use augecoin.Core.Operation.{Signature, Operation}
use augecoin.Core.Codec.Write.{write_u64}
use augecoin.Core.Emission.{block_reward}
use augecoin.Core.Merkle.{zero_hash}
use augecoin.Core.Block.{OperationBlockHeader, OperationBlock}
use augecoin.Core.Block.Hash.{header_to_bytes, op_hash, block_hash, compute_operations_merkle_root}
use augecoin.Core.Block.Select.{select_block_operations}
use augecoin.Core.Mempool.{AccountLookup, Mempool}
use augecoin.Core.Mempool.Methods.{precheck_for_block}
use augecoin.Core.Mempool.Evict.{remove_committed}
use augecoin.Core.Proposal.{ProposalMessage, TxHash, merkle_root_of_operations, reconstruct_block}
use augecoin.Consensus.Validator.{ValidatorInfo, ValidatorSet, active_validators}

pub data RebuildError : Type 0 where
  -- the root of the proposal is not that of its header
  root_mismatch : RebuildError
  -- got, expected
  count_mismatch : ℕ → ℕ → RebuildError
  recomputed_root_mismatch block_hash_mismatch : RebuildError
  -- the position
  hash_mismatch : ℕ → RebuildError

-- what a leader knows of itself: its id, its key and its signature of a message
pub record Leader : Type 0 where
  pub validator_id : ℕ
  pub public_key : Bytes
  pub sign : Bytes → Signature

abbrev pub ct_build_protocol : ℕ
ct_build_protocol = 5

abbrev pub ct_max_protocol : ℕ
ct_max_protocol = 6

abbrev pub ct_chain_id_mainnet : ℕ
ct_chain_id_mainnet = 1

module _ (c : Crypto) where
  -- The first operation whose hash is not the one of its place.
  unfoldable pub first_mismatch : ℕ → List Operation → List TxHash → Option ℕ
  unfolding op_hash bytes_eq
  first_mismatch i (op ∷ ops) (h ∷ hashes) =
      let rest = first_mismatch (suc i) ops hashes in
      if bytes_eq (op_hash c op) h then rest else some i
  first_mismatch i _ _ = none

  unfoldable pub reconstruct_from_proposal :
      ProposalMessage → List Operation → Result RebuildError OperationBlock
  unfolding merkle_root_of_operations first_mismatch reconstruct_block block_hash header_to_bytes
      bytes_eq
  reconstruct_from_proposal p ops =
      let block = reconstruct_block c p.header ops p.leader_signature in
      if not (bytes_eq p.merkle_root p.header.operations_hash)
      then err root_mismatch
      else if not (length ops == length p.tx_hashes)
      then err (count_mismatch (length ops) (length p.tx_hashes))
      else if not (bytes_eq (merkle_root_of_operations c ops) p.merkle_root)
      then err recomputed_root_mismatch
      else elim (first_mismatch 0 ops p.tx_hashes) [
        | some i ↦ err (hash_mismatch i)
        | none ↦
            if not (bytes_eq (block_hash c block) (c.blake3_512 (header_to_bytes p.header)))
            then err block_hash_mismatch
            else ok block
      ]

  unfoldable pub build_light_proposal : OperationBlock → ProposalMessage
  unfolding op_hash
  build_light_proposal b = record {
    header = b.header;
    merkle_root = b.header.operations_hash;
    tx_hashes = map (op_hash c) b.operations;
    leader_signature = b.leader_signature;
  }

  -- The signature is that of the first validator with the id, active or not.
  unfoldable pub signed_by_id : ValidatorSet → ℕ → Signature → Bytes → Bool
  signed_by_id vs id sig message = elim (find (λ (v : ValidatorInfo). v.id == id) vs.validators) [
    | none ↦ false
    | some v ↦
        if c.valid_key v.ed25519_public_key
        then c.verify v.ed25519_public_key sig message
        else false
  ]

  unfoldable pub verify_proposal_signature : ValidatorSet → ProposalMessage → Bool
  unfolding signed_by_id header_to_bytes
  verify_proposal_signature vs p =
      signed_by_id vs p.header.leader_id p.leader_signature
        (c.blake3_512 (header_to_bytes p.header))

  unfoldable pub verify_block_sig : ValidatorSet → OperationBlock → ℕ → Signature → Bool
  unfolding signed_by_id block_hash
  verify_block_sig vs b voter_id sig = signed_by_id vs voter_id sig (block_hash c b)

  unfoldable pub round_change_message : ℕ → ℕ → Bytes
  unfolding write_u64
  round_change_message height new_round = write_u64 height ++ write_u64 new_round

  unfoldable pub verify_round_change : ValidatorSet → ℕ → ℕ → ℕ → Signature → Bool
  unfolding signed_by_id round_change_message
  verify_round_change vs height new_round from_id sig =
      signed_by_id vs from_id sig (round_change_message height new_round)

  -- The pending operations that pass the checks; the others leave the pool.
  unfoldable pub quarantine : AccountLookup → List Operation → Mempool → List Operation × Mempool
  unfolding precheck_for_block remove_committed
  quarantine db [] m = ([], m)
  quarantine db (op ∷ ops) m = elim (precheck_for_block c db m op) [
    | ok _ ↦ let (valid, m') = quarantine db ops m in (op ∷ valid, m')
    | err e ↦ quarantine db ops (remove_committed c m (op ∷ []))
  ]

  unfoldable pub header_for : Leader → ℕ → ℕ → Bytes → Bytes → OperationBlockHeader
  unfolding block_reward
  header_for leader timestamp block_number prev_hash prev_safe_box_hash = record {
    block_number = block_number;
    account_key = leader.public_key;
    reward = block_reward block_number;
    fee = 0;
    protocol_version = ct_build_protocol;
    protocol_available = ct_max_protocol;
    timestamp = timestamp;
    initial_safe_box_hash = prev_safe_box_hash;
    operations_hash = zero_hash;
    block_payload = [];
    proof_of_work = replicate 32 0;
    previous_proof_of_work = take 32 prev_hash;
    leader_id = leader.validator_id;
    chain_id = ct_chain_id_mainnet;
  }

  -- The block with the root of its operations, its hash and the signature of the hash.
  unfoldable pub sealed : Leader → OperationBlockHeader → List Operation → OperationBlock
  unfolding compute_operations_merkle_root header_to_bytes
  sealed leader header ops =
      let fixed = record header { operations_hash = compute_operations_merkle_root c ops } in
      let hash = c.blake3_512 (header_to_bytes fixed) in
      record {
        header = fixed;
        operations = ops;
        leader_signature = leader.sign hash;
        quorum_signatures = [];
        block_hash = hash;
      }

  -- The operations that are chosen, and the size that the block has with a signature of each active
  -- validator; and the pool that is left.
  unfoldable pub choose_operations :
      ValidatorSet
      → AccountLookup
      → ℕ
      → OperationBlockHeader
      → Mempool
      → (List Operation × ℕ) × Mempool
  unfolding quarantine active_validators select_block_operations
  choose_operations vs db max_size header m =
      let (valid, m') = quarantine db m.operations m in
      (select_block_operations header valid (length (active_validators vs)) max_size, m')

  -- The block and the pool that is left; an error says the size.
  unfoldable pub build_block :
      Leader
      → ValidatorSet
      → AccountLookup
      → ℕ
      → ℕ
      → ℕ
      → Bytes
      → Bytes
      → Mempool
      → Result ℕ OperationBlock × Mempool
  unfolding header_for choose_operations sealed
  build_block leader vs db max_size timestamp block_number prev_hash prev_safe_box_hash m =
      let header = header_for leader timestamp block_number prev_hash prev_safe_box_hash in
      let ((ops, size), m') = choose_operations vs db max_size header m in
      (if ltb max_size size then err size else ok (sealed leader header ops), m')
