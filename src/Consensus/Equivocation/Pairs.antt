-- ===== src/Consensus/Equivocation/Pairs.antt =====
-- What `detect_equivocation` of crates/augecoin-consensus/src/equivocation.rs finds.
use augecoin.Base.{
  ◌≡◌, ◌≢◌, ◌⊎◌, inl, inr, refl, subst, ap, true, false, List, [], ◌∷◌, ◌++◌, bytes_eq, bytes_eq→eq,
  bytes_eq_refl, Bool-cases, arith,
}
use augecoin.Crypto.{Crypto}
use augecoin.Core.Block.{OperationBlock}
use augecoin.Core.Block.Hash.{block_hash}
use augecoin.Consensus.Quorum.Counting.{In}
use augecoin.Consensus.Equivocation.{
  EquivocationProof, is_equivocation, proof_of, proofs_with, detect_equivocation,
}

-- The first block stands before the second one.
abbrev pub Before : OperationBlock → OperationBlock → List OperationBlock → Type 0
Before x y [] = ⊥
Before x y (b ∷ bs) = ((x ≡ b) × In y bs) ⊎ Before x y bs

In-append : {A : Type 0} (x : A) (xs ys : List A) → In x (xs ++ ys) → In x xs ⊎ In x ys
In-append x [] ys i = inr i
In-append x (y ∷ xs) ys (inl e) = inl (inl e)
In-append x (y ∷ xs) ys (inr i) = elim (In-append x xs ys i) [ inl j ↦ inl (inr j) | inr j ↦ inr j ]

append-In : {A : Type 0} (x : A) (xs ys : List A) → In x xs ⊎ In x ys → In x (xs ++ ys)
append-In x [] ys (inl i) = absurd i
append-In x [] ys (inr i) = i
append-In x (y ∷ xs) ys (inl (inl e)) = inl e
append-In x (y ∷ xs) ys (inl (inr i)) = inr (append-In x xs ys (inl i))
append-In x (y ∷ xs) ys (inr i) = inr (append-In x xs ys (inr i))

module _ (c : Crypto) where
  -- Two blocks of one leader at one height with other hashes.
  abbrev pub Conflict : OperationBlock → OperationBlock → Type 0
  Conflict x y =
      (x.header.block_number ≡ y.header.block_number)
      × ((x.header.leader_id ≡ y.header.leader_id) × (block_hash c x ≢ block_hash c y))

  is_equivocation-Conflict : (x y : OperationBlock) → is_equivocation c x y ≡ true → Conflict x y
  unfolding is_equivocation
  is_equivocation-Conflict x y e = (
    ground arith,
    (
      ground arith,
      λ same.
          true_not_false
            (ground (arith, bytes_eq_refl (block_hash c x), ap (bytes_eq (block_hash c x)) same)),
    ),
  )
    where
      true_not_false : true ≡ false → ⊥
      true_not_false p = cc

  Conflict-is_equivocation : (x y : OperationBlock) → Conflict x y → is_equivocation c x y ≡ true
  unfolding is_equivocation
  Conflict-is_equivocation x y (height, (leader, other)) =
      elim (Bool-cases (bytes_eq (block_hash c x) (block_hash c y))) [
        | inl same ↦ absurd (other (bytes_eq→eq (block_hash c x) (block_hash c y) same))
        | inr differ ↦ ground (arith, height, leader, differ)
      ]

  -- A proof in the inner loop.
  proofs_with-In :
      (x : OperationBlock) (bs : List OperationBlock) (p : EquivocationProof)
      → In p (proofs_with c x bs)
      → (y : OperationBlock) × (In y bs × (Conflict x y × (p ≡ proof_of c x y)))
  unfolding proofs_with
  proofs_with-In x [] p i = absurd i
  proofs_with-In x (b ∷ bs) p i = elim (Bool-cases (is_equivocation c x b)) [
    | inl hit ↦ elim (found hit) [
      | inl e ↦ (b, (inl refl, (is_equivocation-Conflict x b hit, e)))
      | inr j ↦ let (y, (k, r)) = proofs_with-In x bs p j in (y, (inr k, r))
    ]
    | inr miss ↦ let (y, (k, r)) = proofs_with-In x bs p (passed miss) in (y, (inr k, r))
  ]
    where
      found : is_equivocation c x b ≡ true → (p ≡ proof_of c x b) ⊎ In p (proofs_with c x bs)
      found hit = rw hit at i

      passed : is_equivocation c x b ≡ false → In p (proofs_with c x bs)
      passed miss = rw miss at i

  proofs_with_complete :
      (x y : OperationBlock) (bs : List OperationBlock)
      → In y bs
      → Conflict x y
      → In (proof_of c x y) (proofs_with c x bs)
  unfolding proofs_with
  proofs_with_complete x y [] i k = absurd i
  proofs_with_complete x y (b ∷ bs) (inl e) k =
      let hit : is_equivocation c x b ≡ true =
        subst (λ z. is_equivocation c x z ≡ true) e (Conflict-is_equivocation x y k) in
      rw hit (inl (ap (proof_of c x) e))
  proofs_with_complete x y (b ∷ bs) (inr i) k = elim (Bool-cases (is_equivocation c x b)) [
    | inl hit ↦ rw hit (inr (proofs_with_complete x y bs i k))
    | inr miss ↦ rw miss (proofs_with_complete x y bs i k)
  ]

  -- Every proof that is found is of two blocks of the list, the first before the second, that have
  -- the same leader and the same height and other hashes.
  pub detect_equivocation_sound :
      (bs : List OperationBlock) (p : EquivocationProof)
      → In p (detect_equivocation c bs)
      → (x : OperationBlock) × ((y : OperationBlock) × (Before x y bs
            × (Conflict x y × (p ≡ proof_of c x y))))
  unfolding detect_equivocation
  detect_equivocation_sound [] p i = absurd i
  detect_equivocation_sound (b ∷ bs) p i =
      elim (In-append p (proofs_with c b bs) (detect_equivocation c bs) i) [
        | inl j ↦ let (y, (k, r)) = proofs_with-In b bs p j in (b, (y, (inl (refl, k), r)))
        | inr j ↦ let (x, (y, (k, r))) = detect_equivocation_sound bs p j in (x, (y, (inr k, r)))
      ]

  -- Every two blocks of the list that have the same leader and the same height and other hashes have
  -- their proof.
  pub detect_equivocation_complete :
      (bs : List OperationBlock) (x y : OperationBlock)
      → Before x y bs
      → Conflict x y
      → In (proof_of c x y) (detect_equivocation c bs)
  unfolding detect_equivocation
  detect_equivocation_complete [] x y i k = absurd i
  detect_equivocation_complete (b ∷ bs) x y (inl (e, i)) k =
      append-In (proof_of c x y) (proofs_with c b bs) (detect_equivocation c bs) (
        inl (
          subst (λ z. In (proof_of c x y) (proofs_with c z bs)) e
            (proofs_with_complete x y bs i k)))
  detect_equivocation_complete (b ∷ bs) x y (inr i) k =
      append-In (proof_of c x y) (proofs_with c b bs) (detect_equivocation c bs)
        (inr (detect_equivocation_complete bs x y i k))
