-- ===== src/Node/Proposer/Rebuild.antt =====
-- crates/augecoin-node/src/consensus.rs, `reconstruct_from_proposal`: a validator gets the block that
-- the leader proposed, and no other.
use augecoin.Base.{
  ◌⊎◌, ℕ, suc, ◌≡◌, refl, sym, ap, ◌∙◌, true, false, none, List, [], ◌∷◌, bytes_eq, bytes_eq→eq,
  bytes_eq_refl, length, map, arith, All, ok, Bool-cases, inl, inr, ==_iff,
}
use augecoin.Crypto.{Crypto}
use augecoin.Core.Operation.{Operation}
use augecoin.Core.Codec.Write.{operation_to_bytes}
use augecoin.Core.Codec.RoundTrip.{FitsOperation, operation_from_bytes-to_bytes}
use augecoin.Core.Block.{OperationBlock}
use augecoin.Core.Block.Hash.{header_to_bytes, op_hash, compute_operations_merkle_root}
use augecoin.Core.Block.RoundTrip.{rehashed}
use augecoin.Core.Proposal.{merkle_root_of_operations, reconstruct_block}
use augecoin.Node.Proposer.{first_mismatch, reconstruct_from_proposal, build_light_proposal}

module _ (c : Crypto) where
  length-map : (ops : List Operation) → length (map (op_hash c) ops) ≡ length ops
  length-map [] = refl
  length-map (op ∷ ops) = ap suc (length-map ops)

  first_mismatch-none :
      (i : ℕ) (ops : List Operation) → first_mismatch c i ops (map (op_hash c) ops) ≡ none
  unfolding first_mismatch
  first_mismatch-none i [] = refl
  first_mismatch-none i (op ∷ ops) =
      rw (bytes_eq_refl (op_hash c op)) (first_mismatch-none (suc i) ops)

  -- The block without the signatures of the quorum, its hash computed from its header.
  abbrev pub proposed : OperationBlock → OperationBlock
  proposed b = record (rehashed c b) { quorum_signatures = [] }

  -- From the light proposal of a block whose header has the root of its operations, and from these
  -- operations, a validator rebuilds the block.
  pub reconstruct-build :
      (b : OperationBlock)
      → b.header.operations_hash ≡ compute_operations_merkle_root c b.operations
      → reconstruct_from_proposal c (build_light_proposal c b) b.operations ≡ ok (proposed b)
  unfolding reconstruct_from_proposal build_light_proposal compute_operations_merkle_root
  reconstruct-build b root =
      rw
        (
          reconstruct_from_proposal,
          bytes_eq_refl b.header.operations_hash,
          length-map b.operations,
          (==_iff (length b.operations) (length b.operations)).1 refl,
          root_eq,
          first_mismatch-none 0 b.operations,
          bytes_eq_refl (c.blake3_512 (header_to_bytes b.header)),
        )
        refl
    where
      root_eq : bytes_eq (merkle_root_of_operations c b.operations) b.header.operations_hash ≡ true
      root_eq = rw root (bytes_eq_refl (compute_operations_merkle_root c b.operations))

  -- What the checks of a rebuilt block have found.
  rebuilt :
      (b b' : OperationBlock) (ops : List Operation)
      → reconstruct_from_proposal c (build_light_proposal c b) ops ≡ ok b'
      → (length ops ≡ length (map (op_hash c) b.operations))
        × ((first_mismatch c 0 ops (map (op_hash c) b.operations) ≡ none)
            × (reconstruct_block c b.header ops b.leader_signature ≡ b'))
  unfolding reconstruct_from_proposal build_light_proposal
  rebuilt b b' ops h = ground (arith, h)

  -- The bytes of two operations differ and have one hash.
  abbrev pub IsCollision : Operation → Operation → Type 0
  IsCollision op op' =
      (bytes_eq (operation_to_bytes op) (operation_to_bytes op') ≡ false)
      × (op_hash c op ≡ op_hash c op')

  -- Two operations at one place collide.
  abbrev pub Collide : List Operation → List Operation → Type 0
  Collide (op ∷ ops) (op' ∷ ops') = IsCollision op op' ⊎ Collide ops ops'
  Collide _ _ = ⊥

  -- Two operations with one hash are the same, or they collide.
  bytes_determine :
      (op op' : Operation)
      → FitsOperation op
      → FitsOperation op'
      → op_hash c op ≡ op_hash c op'
      → (op ≡ op') ⊎ IsCollision op op'
  bytes_determine op op' fits fits' e =
      elim (Bool-cases (bytes_eq (operation_to_bytes op) (operation_to_bytes op'))) [
        | inl same ↦ inl (
            cc (
              bytes_eq→eq (operation_to_bytes op) (operation_to_bytes op') same,
              operation_from_bytes-to_bytes op [] fits,
              operation_from_bytes-to_bytes op' [] fits',
            ))
        | inr apart ↦ inr (apart, e)
      ]

  both_same :
      {op op' : Operation} {ops ops' : List Operation}
      → (op ≡ op') ⊎ IsCollision op op'
      → (ops ≡ ops') ⊎ Collide ops ops'
      → (op ∷ ops ≡ op' ∷ ops') ⊎ Collide (op ∷ ops) (op' ∷ ops')
  both_same (inr found) r = inr (inl found)
  both_same (inl e) (inr found) = inr (inr found)
  both_same (inl e) (inl f) = inl (cc (e, f))

  same_operations :
      (i : ℕ) (ops ops' : List Operation)
      → All FitsOperation ops
      → All FitsOperation ops'
      → length ops ≡ length (map (op_hash c) ops')
      → first_mismatch c i ops (map (op_hash c) ops') ≡ none
      → (ops ≡ ops') ⊎ Collide ops ops'
  unfolding first_mismatch
  same_operations i [] [] f g e h = inl refl
  same_operations i [] (op' ∷ ops') f g e h = absurd (omega arith)
  same_operations i (op ∷ ops) [] f g e h = absurd (omega arith)
  same_operations i (op ∷ ops) (op' ∷ ops') f g e h =
      elim (Bool-cases (bytes_eq (op_hash c op) (op_hash c op'))) [
        | inl same ↦
            both_same
              (bytes_determine op op' f.0 g.0 (bytes_eq→eq (op_hash c op) (op_hash c op') same))
              (same_operations (suc i) ops ops' f.1 g.1 (omega arith) (goes_on same h))
        | inr other ↦ absurd (stops other h)
      ]
    where
      goes_on :
          bytes_eq (op_hash c op) (op_hash c op') ≡ true
          → first_mismatch c i (op ∷ ops) (map (op_hash c) (op' ∷ ops')) ≡ none
          → first_mismatch c (suc i) ops (map (op_hash c) ops') ≡ none
      goes_on same p = ground (arith, same, p)

      stops :
          bytes_eq (op_hash c op) (op_hash c op') ≡ false
          → first_mismatch c i (op ∷ ops) (map (op_hash c) (op' ∷ ops')) ≡ none
          → ⊥
      stops other p = ground (arith, other, p)

  -- From the light proposal of a block, whatever operations a validator has, it rebuilds the leader's
  -- block or none, as long as the hash does not collide on the operations at hand: where the operations
  -- on both sides fit the wire form, an accepted rebuild has the operations of the block and is the
  -- block, without the signatures of the quorum and its hash computed from its header, or at one place
  -- the two lists have operations whose bytes differ and have one hash.
  pub rebuilt_unique :
      (b b' : OperationBlock) (ops : List Operation)
      → All FitsOperation b.operations
      → All FitsOperation ops
      → reconstruct_from_proposal c (build_light_proposal c b) ops ≡ ok b'
      → ((ops ≡ b.operations) × (b' ≡ proposed b)) ⊎ Collide ops b.operations
  unfolding reconstruct_block
  rebuilt_unique b b' ops fits given h =
      let (count, (same, made)) = rebuilt b b' ops h in
      elim (same_operations 0 ops b.operations given fits count same) [
        | inl equal ↦ inl (equal, sym made ∙ ap (λ o. record (proposed b) { operations = o }) equal)
        | inr found ↦ inr found
      ]
