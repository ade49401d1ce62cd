-- ===== src/Node/Proposer/Built.antt =====
-- crates/augecoin-node/src/consensus.rs, `build_block`: the committed block stays within the limit.
use augecoin.Base.{
  ℕ, zero, suc, ◌≤◌, ◌≡◌, refl, sym, subst, ◌∙◌, if◌then◌else◌, Bool, true, false, List, [], ◌∷◌,
  ◌++◌, ltb, Bytes, length, length-append, arith, All, ok, err, map, none, some,
}
use augecoin.Crypto.{Crypto}
use augecoin.Core.Operation.{Operation}
use augecoin.Core.Codec.Write.{operation_to_bytes}
use augecoin.Core.Merkle.{zero_hash, pair_up, climb, merkle_root}
use augecoin.Core.Block.{OperationBlockHeader, OperationBlock}
use augecoin.Core.Block.Hash.{header_to_bytes, op_hash, compute_operations_merkle_root}
use augecoin.Core.Block.Select.{
  block_serialized_size, select_block_operations, select_block_operations-IsSelection,
}
use augecoin.Core.Block.Codec.{block_to_bytes}
use augecoin.Core.Block.RoundTrip.{block_serialized_size-length}
use augecoin.Core.Mempool.{AccountLookup, Mempool}
use augecoin.Consensus.Validator.{ValidatorSet, active_validators}
use augecoin.Node.Proposer.{Leader, header_for, quarantine, choose_operations, sealed, build_block}

-- The root has the length of the hashes.
module _ (h : Bytes → Bytes) (long : (x : Bytes) → length (h x) ≡ 64) where
  pair_up_long : (xs : List Bytes) → All (λ x. length x ≡ 64) (pair_up h xs)
  unfolding pair_up
  pair_up_long [] = tt
  pair_up_long (x ∷ []) = (long (x ++ x), tt)
  pair_up_long (x ∷ y ∷ rest) = (long (x ++ y), pair_up_long rest)

  length-climb :
      (fuel : ℕ) (hashes : List Bytes)
      → All (λ x. length x ≡ 64) hashes
      → length (elim (climb h fuel hashes) as (λ _. Bytes) [ none ↦ zero_hash | some r ↦ r ]) ≡ 64
  unfolding climb
  length-climb fuel [] a = refl
  length-climb fuel (x ∷ []) a = a.0
  length-climb zero (x ∷ y ∷ rest) a = refl
  length-climb (suc fuel) (x ∷ y ∷ rest) a =
      length-climb fuel (pair_up h (x ∷ y ∷ rest)) (long (x ++ y), pair_up_long rest)

  map_long :
      (c : Operation → Bytes)
      → ((op : Operation) → length (c op) ≡ 64)
      → (ops : List Operation) → All (λ x. length x ≡ 64) (map c ops)
  map_long c each [] = tt
  map_long c each (op ∷ ops) = (each op, map_long c each ops)

-- The size of a header does not depend on the root in it.
length-header_to_bytes :
    (h : OperationBlockHeader) (root : Bytes)
    → length root ≡ length h.operations_hash
    → length (header_to_bytes (record h { operations_hash = root })) ≡ length (header_to_bytes h)
unfolding header_to_bytes
length-header_to_bytes h root e = simp (length-append, e)

module _ (c : Crypto) (long : (x : Bytes) → length (c.blake3_512 x) ≡ 64) where
  root_length : (ops : List Operation) → length (compute_operations_merkle_root c ops) ≡ 64
  unfolding compute_operations_merkle_root merkle_root op_hash
  root_length ops =
      length-climb c.blake3_512 long (length (map (op_hash c) ops)) (map (op_hash c) ops)
        (map_long c.blake3_512 long (op_hash c) (λ op. long (operation_to_bytes op)) ops)

  abbrev WithinLimit : ℕ → List Bytes → OperationBlock → Type 0
  WithinLimit max_size sigs b =
      (length (block_to_bytes (record b { quorum_signatures = sigs })) ≤ max_size)
      × (b.header.operations_hash ≡ compute_operations_merkle_root c b.operations)

  sealed-WithinLimit :
      (leader : Leader) (header : OperationBlockHeader) (ops : List Operation) (n max_size size : ℕ)
      (sigs : List Bytes)
      → ((x : Bytes) → length (leader.sign x) ≡ 64)
      → All (λ sig. length sig ≡ 64) sigs
      → length sigs ≤ n
      → length header.operations_hash ≡ 64
      → size ≡ block_serialized_size header ops n
      → size ≤ max_size
      → WithinLimit max_size sigs (sealed c leader header ops)
  unfolding sealed block_serialized_size
  sealed-WithinLimit leader header ops n max_size size sigs signs each few root same fits = (
    omega (
      arith,
      block_serialized_size-length b (signs (c.blake3_512 (header_to_bytes b.header))) each,
      length-header_to_bytes header (compute_operations_merkle_root c ops)
          (root_length ops ∙ sym root),
      same,
      fits,
      few,
    ),
    refl,
  )
    where
      b : OperationBlock
      b = record (sealed c leader header ops) { quorum_signatures = sigs }

  unless :
      (t : Bool) (size : ℕ) (made : OperationBlock) {b : OperationBlock}
      → (if t then err size else ok made) ≡ ok b
      → (t ≡ false) × (made ≡ b)
  unless true size made h = cc
  unless false size made h = (refl, cc)

  -- A block that a leader has built and that has been signed, by no more validators than are active,
  -- is written with no more bytes than the limit; its header has the root of its operations. The hash
  -- and the signatures have 64 bytes.
  pub build_block-fits :
      (leader : Leader) (vs : ValidatorSet) (db : AccountLookup) (max_size timestamp number : ℕ)
      (prev_hash prev_safe_box_hash : Bytes) (m : Mempool) (b : OperationBlock) (sigs : List Bytes)
      → ((x : Bytes) → length (leader.sign x) ≡ 64)
      → All (λ sig. length sig ≡ 64) sigs
      → length sigs ≤ length (active_validators vs)
      → (build_block c leader vs db max_size timestamp number prev_hash prev_safe_box_hash m).0
        ≡ ok b
      → (length (block_to_bytes (record b { quorum_signatures = sigs })) ≤ max_size)
        × (b.header.operations_hash ≡ compute_operations_merkle_root c b.operations)
  unfolding build_block choose_operations
  build_block-fits leader vs db max_size timestamp number prev_hash prev_safe_box_hash m b sigs
        signs each few h =
      let header = header_for c leader timestamp number prev_hash prev_safe_box_hash in
      let n = length (active_validators vs) in
      let valid = (quarantine c db m.operations m).0 in
      let chosen = select_block_operations header valid n max_size in
      let (fits, same) =
        unless (ltb max_size chosen.1) chosen.1 (sealed c leader header chosen.0) h in
      subst (WithinLimit max_size sigs) same (
        sealed-WithinLimit leader header chosen.0 n max_size chosen.1 sigs signs each few refl
          (select_block_operations-IsSelection header valid n max_size).1 (ground (arith, fits)))
