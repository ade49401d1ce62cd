-- ===== src/Core/Merkle/Root.antt =====
-- The loop ends, and what its duplication of an odd node identifies.
use augecoin.Base.{
  ℕ, zero, suc, ◌+◌, ◌*◌, ◌≤◌, ◌≡◌, refl, sym, ap, ◌∙◌, some, List, [], ◌∷◌, ◌++◌, Bytes, length,
  arith,
}
use augecoin.Core.Merkle.{zero_hash, pair_up, climb, merkle_root}

module _ (h : Bytes → Bytes) where
  pub length-pair_up-le : (hs : List Bytes) → length (pair_up h hs) * 2 ≤ length hs + 1
  unfolding pair_up
  length-pair_up-le [] = omega arith
  length-pair_up-le (x ∷ []) = omega arith
  length-pair_up-le (x ∷ y ∷ rest) = omega (arith, length-pair_up-le rest)

  -- With as much fuel as there are hashes, or more, the loop ends with the same root.
  climb_total :
      (fuel : ℕ) (hs : List Bytes) → length hs ≤ fuel → (r : Bytes) × (climb h fuel hs ≡ some r)
  unfolding climb
  climb_total fuel [] e = (zero_hash, refl)
  climb_total fuel (x ∷ []) e = (x, refl)
  climb_total zero (x ∷ y ∷ rest) e = absurd (omega arith)
  climb_total (suc fuel) (x ∷ y ∷ rest) e =
      climb_total fuel (pair_up h (x ∷ y ∷ rest)) (omega (arith, length-pair_up-le (x ∷ y ∷ rest)))

  climb_more :
      (f g : ℕ) (hs : List Bytes) {r : Bytes}
      → f ≤ g
      → climb h f hs ≡ some r
      → climb h g hs ≡ some r
  unfolding climb
  climb_more f g [] le e = e
  climb_more f g (x ∷ []) le e = e
  climb_more zero g (x ∷ y ∷ rest) le e = cc
  climb_more (suc f) zero (x ∷ y ∷ rest) le e = absurd (omega arith)
  climb_more (suc f) (suc g) (x ∷ y ∷ rest) le e =
      climb_more f g (pair_up h (x ∷ y ∷ rest)) (omega arith) e

  -- The loop of the Merkle root ends, with the same root, on as much fuel as there are hashes, and
  -- on more.
  pub merkle_root-climb :
      (fuel : ℕ) (hs : List Bytes) → length hs ≤ fuel → climb h fuel hs ≡ some (merkle_root h hs)
  unfolding merkle_root
  merkle_root-climb fuel hs le =
      let (r, e) = climb_total (length hs) hs (omega arith) in
      rw (e, merkle_root) (climb_more (length hs) fuel hs le e)

  -- The root of two hashes or more is the root of the level above them.
  pub merkle_root-pair_up :
      (x y : Bytes) (rest : List Bytes)
      → merkle_root h (x ∷ y ∷ rest) ≡ merkle_root h (pair_up h (x ∷ y ∷ rest))
  unfolding climb
  merkle_root-pair_up x y rest = some_injective (
      sym (merkle_root-climb (length (x ∷ y ∷ rest)) (x ∷ y ∷ rest) (omega arith))
      ∙ merkle_root-climb (suc (length rest)) (pair_up h (x ∷ y ∷ rest))
          (omega (arith, length-pair_up-le (x ∷ y ∷ rest))))
    where
      some_injective : {a b : Bytes} → some a ≡ some b → a ≡ b
      some_injective p = cc

  pair_up_duplicate :
      (k : ℕ) (xs : List Bytes) (x : Bytes)
      → length xs ≡ k * 2
      → pair_up h (xs ++ x ∷ x ∷ []) ≡ pair_up h (xs ++ x ∷ [])
  unfolding pair_up
  pair_up_duplicate k [] x e = refl
  pair_up_duplicate zero (a ∷ xs) x e = absurd (omega arith)
  pair_up_duplicate (suc k) (a ∷ []) x e = absurd (omega arith)
  pair_up_duplicate (suc k) (a ∷ b ∷ xs) x e =
      ap (◌∷◌ (h (a ++ b))) (pair_up_duplicate k xs x (omega arith))

  -- The root does not determine the list: an odd number of hashes, three or more, has the root of
  -- the list in which the last hash stands once more, whatever the hash function is.
  pub merkle_root_duplicate :
      (k : ℕ) (xs : List Bytes) (x : Bytes)
      → length xs ≡ suc k * 2
      → merkle_root h (xs ++ x ∷ x ∷ []) ≡ merkle_root h (xs ++ x ∷ [])
  merkle_root_duplicate k [] x e = absurd (omega arith)
  merkle_root_duplicate k (a ∷ []) x e = absurd (omega arith)
  merkle_root_duplicate k (a ∷ b ∷ xs) x e =
      merkle_root-pair_up a b (xs ++ x ∷ x ∷ [])
      ∙ (ap (merkle_root h) (pair_up_duplicate (suc k) (a ∷ b ∷ xs) x e)
          ∙ sym (merkle_root-pair_up a b (xs ++ x ∷ [])))
