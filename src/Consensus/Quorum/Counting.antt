-- ===== src/Consensus/Quorum/Counting.antt =====
-- Counting the elements of a list that pass a test, and two tests that must meet.
use augecoin.Consensus.Quorum.{contains_id}
use augecoin.Base.{
  ℕ, suc, ◌+◌, ◌≤◌, ◌<◌, ◌≡◌, refl, Bool, true, false, ◌⊎◌, inl, inr, List, [], ◌∷◌, ◌==◌,
  if◌then◌else◌, length, any, arith, Bool-cases,
}

-- An element of a list, as a sum over its places.
abbrev pub In : {A : Type 0} → A → List A → Type 0
In x [] = ⊥
In x (y ∷ ys) = (x ≡ y) ⊎ In x ys

abbrev pub count : {A : Type 0} → (A → Bool) → List A → ℕ
count p [] = 0
count p (x ∷ xs) = if p x then suc (count p xs) else count p xs

abbrev has : List ℕ → ℕ → Bool
has = contains_id

abbrev pub IsNodup : List ℕ → Type 0
IsNodup [] = Unit
IsNodup (i ∷ ids) = (has ids i ≡ false) × IsNodup ids

-- Two tests that together pass more often than there are elements pass at one element.
pub count_meet :
    {A : Type 0} (p q : A → Bool) (xs : List A)
    → length xs < count p xs + count q xs
    → (x : A) × In x xs × (p x ≡ true) × (q x ≡ true)
count_meet p q [] h = absurd (omega arith)
count_meet p q (x ∷ xs) h = elim (Bool-cases (p x)) [
  | inl px ↦ elim (Bool-cases (q x)) [
    | inl qx ↦ (x, inl refl, px, qx)
    | inr qx ↦ let (y, i, a, b) = count_meet p q xs (ground arith) in (y, inr i, a, b)
  ]
  | inr px ↦ let (y, i, a, b) = count_meet p q xs (ground arith) in (y, inr i, a, b)
]

module _ {A : Type 0} (id : A → ℕ) where
  -- Every id of the list is the id of an element.
  abbrev pub IsCovered : List ℕ → List A → Type 0
  IsCovered [] xs = Unit
  IsCovered (i ∷ ids) xs = (any (λ x. id x == i) xs ≡ true) × IsCovered ids xs

  count_mono :
      (p q : A → Bool) (xs : List A) → ((x : A) → p x ≡ true → q x ≡ true) → count p xs ≤ count q xs
  count_mono p q [] h = omega arith
  count_mono p q (x ∷ xs) h = elim (Bool-cases (p x)) [
    | inl px ↦ rw (px, h x px) (omega (arith, count_mono p q xs h))
    | inr px ↦ rw px (ground (arith, count_mono p q xs h))
  ]

  -- A new id that an element has adds to the count.
  count-cons :
      (i : ℕ) (ids : List ℕ) (xs : List A)
      → has ids i ≡ false
      → any (λ x. id x == i) xs ≡ true
      → suc (count (λ x. has ids (id x)) xs) ≤ count (λ x. has (i ∷ ids) (id x)) xs
  unfolding contains_id
  count-cons i ids [] new hit = cc
  count-cons i ids (x ∷ xs) new hit = elim (Bool-cases (id x == i)) [
    | inl here ↦
        let m =
          count_mono (λ y. has ids (id y)) (λ y. has (i ∷ ids) (id y)) xs (λ y h. ground arith) in
        ground (arith, m)
    | inr there ↦ let m = count-cons i ids xs new (ground arith) in ground (arith, m)
  ]

  -- Distinct ids that elements have are at most as many as the elements that have them.
  pub length-le-count :
      (ids : List ℕ) (xs : List A)
      → IsNodup ids
      → IsCovered ids xs
      → length ids ≤ count (λ x. has ids (id x)) xs
  length-le-count [] xs n c = omega arith
  length-le-count (i ∷ ids) xs n c =
      omega (arith, length-le-count ids xs n.1 c.1, count-cons i ids xs n.0 c.0)
