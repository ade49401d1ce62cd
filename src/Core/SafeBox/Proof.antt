-- ===== src/Core/SafeBox/Proof.antt =====
-- crates/augecoin-core/src/safe_box.rs: generated proofs against the SafeBox hash.
use augecoin.Base.{
  ℕ, zero, suc, ◌+◌, ◌-◌, ◌/◌, ◌%◌, ◌≡◌, refl, sym, ap, ◌∙◌, Option, none, some, List, [], ◌∷◌,
  ◌++◌, if◌then◌else◌, ◌==◌, Bytes, bytes_eq_refl, length, map, get_elem?, Dict, lookup, ok, arith,
  Bool-cases, inl, inr,
}
use augecoin.Core.Account.{Account}
use augecoin.Core.Account.Codec.{account_hash}
use augecoin.Core.Merkle.{zero_hash, pair_up, climb, merkle_root}
use augecoin.Core.Merkle.Root.{merkle_root-climb}
use augecoin.Core.SafeBox.{
  SafeBox, MerkleProof, hash_of_entry, hash_of_name, leaves, compute_safe_box_hash, pad,
  siblings_from, position, number_of, number_of_name, generate_merkle_proof, fold_proof,
  verify_merkle_proof,
}

none_not_some : (x : Bytes) → ◌≡◌ {A = Option Bytes} none (some x) → ⊥
none_not_some x p = cc

module _ (h : Bytes → Bytes) where
  pair_up-pad : (hs : List Bytes) → pair_up h (pad hs) ≡ pair_up h hs
  unfolding pair_up pad
  pair_up-pad [] = refl
  pair_up-pad (x ∷ []) = refl
  pair_up-pad (x ∷ y ∷ rest) = ap (λ l. h (x ++ y) ∷ l) (pair_up-pad rest)

  mate : ℕ → ℕ
  mate idx = if idx % 2 == 0 then idx + 1 else idx - 1

  mate_two : (idx : ℕ) → mate (suc (suc idx)) ≡ suc (suc (mate idx))
  unfolding mate
  mate_two idx = ground arith

  -- the sibling of the hash at an index
  sibling : List Bytes → ℕ → Bytes
  sibling hs idx = elim (get_elem? (pad hs) (mate idx)) [ none ↦ zero_hash | some s ↦ s ]

  sibling_two :
      (a b : Bytes) (rest : List Bytes) (idx : ℕ)
      → sibling (a ∷ b ∷ rest) (suc (suc idx)) ≡ sibling rest idx
  unfolding sibling pad
  sibling_two a b rest idx = rw (mate_two idx, sibling) refl

  -- a hash and its sibling, in the order of the index
  joined : ℕ → Bytes → Bytes → Bytes
  joined idx x y = h (if idx % 2 == 0 then x ++ y else y ++ x)

  joined_two : (idx : ℕ) (x y : Bytes) → joined (suc (suc idx)) x y ≡ joined idx x y
  unfolding joined
  joined_two idx x y = let e : suc (suc idx) % 2 ≡ idx % 2 = omega arith in rw e refl

  -- The node above an index is the hash of its pair, in the order of the index.
  above :
      (hs : List Bytes) (idx : ℕ) (x : Bytes)
      → get_elem? hs idx ≡ some x
      → get_elem? (pair_up h hs) (idx / 2) ≡ some (joined idx x (sibling hs idx))
  unfolding pair_up pad sibling joined mate
  above [] idx x e = absurd (none_not_some x e)
  above (a ∷ []) zero x e = cc
  above (a ∷ []) (suc idx) x e = absurd (none_not_some x e)
  above (a ∷ b ∷ rest) zero x e = cc
  above (a ∷ b ∷ rest) (suc zero) x e = cc
  above (a ∷ b ∷ rest) (suc (suc idx)) x e =
      let half : suc (suc idx) / 2 ≡ suc (idx / 2) = omega arith in
      rw half (
        above rest idx x e
        ∙ ap some (
            sym (joined_two idx x (sibling rest idx))
            ∙ ap (joined (suc (suc idx)) x) (sym (sibling_two a b rest idx))))

  siblings_step :
      (fuel : ℕ) (a b : Bytes) (rest : List Bytes) (idx : ℕ)
      → siblings_from h (suc fuel) (a ∷ b ∷ rest) idx
        ≡ sibling (a ∷ b ∷ rest) idx ∷ siblings_from h fuel (pair_up h (a ∷ b ∷ rest)) (idx / 2)
  unfolding siblings_from sibling mate
  siblings_step fuel a b rest idx =
      ap (λ l. sibling (a ∷ b ∷ rest) idx ∷ siblings_from h fuel l (idx / 2))
        (pair_up-pad (a ∷ b ∷ rest))

  -- From the hash at an index, the siblings lead to the root.
  fold_proof-siblings :
      (fuel : ℕ) (hs : List Bytes) (idx : ℕ) (x r : Bytes)
      → get_elem? hs idx ≡ some x
      → climb h fuel hs ≡ some r
      → fold_proof h x idx (siblings_from h fuel hs idx) ≡ r
  unfolding fold_proof siblings_from climb joined
  fold_proof-siblings fuel [] idx x r e c = absurd (none_not_some x e)
  fold_proof-siblings fuel (a ∷ []) zero x r e c = cc
  fold_proof-siblings fuel (a ∷ []) (suc idx) x r e c = absurd (none_not_some x e)
  fold_proof-siblings zero (a ∷ b ∷ rest) idx x r e c = absurd (none_not_some r c)
  fold_proof-siblings (suc fuel) (a ∷ b ∷ rest) idx x r e c =
      let hs = a ∷ b ∷ rest in
      ap (fold_proof h x idx) (siblings_step fuel a b rest idx)
      ∙ (fold_proof-siblings fuel (pair_up h hs) (idx / 2) (joined idx x (sibling hs idx)) r
          (above hs idx x e) c)

  -- The position of a known account is the one of its leaf.
  position-leaf :
      (n i : ℕ) (d : Dict Account) (a : Account) (names : List ℕ) (more : List Bytes)
      → lookup n d ≡ some a
      → (j : ℕ) × ((position n i (map number_of d ++ names) ≡ some (i + j))
          × (get_elem? (map (hash_of_entry h) d ++ more) j ≡ some (account_hash h a)))
  unfolding position lookup
  position-leaf n i [] a names more e = cc
  position-leaf n i ((k, b) ∷ d) a names more e = elim (Bool-cases (n == k)) [
    | inl here ↦ (0, (ground (arith, here), ground (arith, here, e)))
    | inr there ↦
        let (j, (p, q)) = position-leaf n (suc i) d a names more (ground (arith, there, e)) in
        (suc j, (ground (arith, there, p), q))
  ]

  -- A SafeBox that has the account has the root of its leaves as its hash.
  hash-root :
      (sb : SafeBox) (n : ℕ) (a : Account)
      → lookup n sb.accounts ≡ some a
      → compute_safe_box_hash h sb ≡ merkle_root h (leaves h sb)
  unfolding compute_safe_box_hash lookup
  hash-root sb n a e = go sb.accounts e
    where
      go :
          (d : Dict Account)
          → lookup n d ≡ some a
          → elim d as (λ _. Bytes) [ [] ↦ zero_hash | _ ∷ _ ↦ merkle_root h (leaves h sb) ]
            ≡ merkle_root h (leaves h sb)
      go [] e = cc
      go (x ∷ d) e = refl

  -- Every account of the SafeBox has a proof: `generate_merkle_proof` gives one with the account as
  -- it stands, and `verify_merkle_proof` accepts it against the hash of the SafeBox.
  pub generate_merkle_proof-verify :
      (sb : SafeBox) (n : ℕ) (a : Account)
      → lookup n sb.accounts ≡ some a
      → (proof : MerkleProof) × ((generate_merkle_proof h sb n ≡ ok proof)
          × ((proof.account ≡ a)
              × (verify_merkle_proof h proof (compute_safe_box_hash h sb) ≡ ok tt)))
  unfolding generate_merkle_proof verify_merkle_proof leaves
  generate_merkle_proof-verify sb n a e =
      let (j, (p, q)) =
        position-leaf n 0 sb.accounts a (map number_of_name sb.name_index)
          (map (hash_of_name h) sb.name_index) e in
      let hs = leaves h sb in
      let proof : MerkleProof = record {
        account = a;
        siblings = siblings_from h (length hs) hs j;
        leaf_index = j;
        total_leaves = length hs;
      } in
      let root =
        fold_proof-siblings (length hs) hs j (account_hash h a) (merkle_root h hs) q
          (merkle_root-climb h (length hs) hs (omega arith)) in
      (
        proof,
        (
          ground (arith, e, p),
          (refl, rw (hash-root sb n a e, root, bytes_eq_refl (merkle_root h hs)) refl),
        ),
      )
