-- ===== src/Core/Address/Digits.antt =====
-- Numbers written in a base with the lowest digit first: the loops of crates/augecoin-crypto/src/
-- address.rs give the digits of the same number in the other base.
use augecoin.Base.{
  ℕ, zero, suc, ◌+◌, ◌*◌, ◌/◌, ◌%◌, ◌≤◌, ◌<◌, ◌≡◌, refl, ◌∙◌, ◌⊎◌, inl, inr, List, [], ◌∷◌, ◌++◌,
  ◌==◌, arith, Bool-cases,
}
use mathlib.Core.List.{reverse, reverse-cons}
use augecoin.Core.Address.{push_carry, scale, convert}

-- What a base and a factor have: of them the two that the code uses.
pub record IsBase (base factor : ℕ) : Type 0 where
  pub divides : (n : ℕ) → n % base + base * (n / base) ≡ n
  pub digit : (n : ℕ) → n % base < base
  pub shrinks_more : (n : ℕ) → 0 < n → n / base < n
  pub scales :
      (d c v : ℕ)
      → (d * factor + c) % base + base * (factor * v + (d * factor + c) / base)
        ≡ factor * (d + base * v) + c
  pub unique : (d e v w : ℕ) → d < base → e < base → d + base * v ≡ e + base * w → (d ≡ e) × (v ≡ w)
  pub positive : (n : ℕ) → 0 < n → 0 < n % base + n / base
  pub stays_positive :
      (d c v : ℕ) → 0 < d + v → 0 < (d * factor + c) % base + (factor * v + (d * factor + c) / base)
  pub nothing : (d v : ℕ) → d + base * v ≡ 0 → (d ≡ 0) × (v ≡ 0)
  pub grows : (d v : ℕ) → 0 < d + v → 0 < d + base * v

pub text_digits : IsBase 58 256
text_digits = record {
  divides = λ n. omega arith;
  digit = λ n. omega arith;
  shrinks_more = λ n h. omega arith;
  scales = λ d c v. omega arith;
  unique = λ d e v w p q h. (omega arith, omega arith);
  positive = λ n h. omega arith;
  stays_positive = λ d c v h. omega arith;
  nothing = λ d v h. (omega arith, omega arith);
  grows = λ d v h. omega arith;
}

pub byte_digits : IsBase 256 58
byte_digits = record {
  divides = λ n. omega arith;
  digit = λ n. omega arith;
  shrinks_more = λ n h. omega arith;
  scales = λ d c v. omega arith;
  unique = λ d e v w p q h. (omega arith, omega arith);
  positive = λ n h. omega arith;
  stays_positive = λ d c v h. omega arith;
  nothing = λ d v h. (omega arith, omega arith);
  grows = λ d v h. omega arith;
}

-- The number of a list of digits.
abbrev pub value : ℕ → List ℕ → ℕ
value base [] = 0
value base (d ∷ ds) = d + base * value base ds

-- The digits are below the base, and no end of the list is a number 0: the highest digit is not 0.
abbrev pub IsNumeral : ℕ → List ℕ → Type 0
IsNumeral base [] = Unit
IsNumeral base (d ∷ ds) = (d < base) × ((0 < d + value base ds) × IsNumeral base ds)

-- What the loops begin with is the list of one digit 0.
abbrev pub IsState : ℕ → List ℕ → Type 0
IsState base ds = (ds ≡ 0 ∷ []) ⊎ IsNumeral base ds

module _ (b m : ℕ) (k : IsBase b m) where
  push_carry-value : (fuel c : ℕ) → c ≤ fuel → value b (push_carry b fuel c) ≡ c
  unfolding push_carry
  push_carry-value zero c h = omega (arith, h)
  push_carry-value (suc fuel) c h = elim (Bool-cases (c == 0)) [
    | inl e ↦ rw (e, push_carry) (ground (arith, e))
    | inr e ↦
        let positive : 0 < c = ground (arith, e) in
        let smaller = k.shrinks_more c positive in
        rw (e, push_carry, push_carry-value fuel (c / b) (omega (arith, smaller, h))) (k.divides c)
  ]

  push_carry-IsNumeral : (fuel c : ℕ) → c ≤ fuel → IsNumeral b (push_carry b fuel c)
  unfolding push_carry
  push_carry-IsNumeral zero c h = tt
  push_carry-IsNumeral (suc fuel) c h = elim (Bool-cases (c == 0)) [
    | inl e ↦ rw (e, push_carry) tt
    | inr e ↦
        let positive : 0 < c = ground (arith, e) in
        let smaller = k.shrinks_more c positive in
        let fits : c / b ≤ fuel = omega (arith, smaller, h) in
        rw (e, push_carry, push_carry-value fuel (c / b) fits)
          (k.digit c, (k.positive c positive, push_carry-IsNumeral fuel (c / b) fits))
  ]

  scale-value : (ds : List ℕ) (c : ℕ) → value b (scale b m ds c) ≡ m * value b ds + c
  unfolding scale
  scale-value [] c = push_carry-value c c (omega arith) ∙ (ground arith)
  scale-value (d ∷ ds) c = rw (scale, scale-value ds ((d * m + c) / b)) (k.scales d c (value b ds))

  scale-IsNumeral : (ds : List ℕ) (c : ℕ) → IsNumeral b ds → IsNumeral b (scale b m ds c)
  unfolding scale
  scale-IsNumeral [] c h = push_carry-IsNumeral c c (omega arith)
  scale-IsNumeral (d ∷ ds) c (_, (some_left, more)) =
      rw (scale, scale-value ds ((d * m + c) / b))
        (
          k.digit (d * m + c),
          (k.stays_positive d c (value b ds) some_left, scale-IsNumeral ds ((d * m + c) / b) more),
        )

  one_digit-IsState : (n : ℕ) → IsState b (n % b ∷ push_carry b (n / b) (n / b))
  unfolding push_carry
  one_digit-IsState zero =
      let (no_digit, no_carry) = k.nothing (0 % b) (0 / b) (k.divides 0) in
      inl (rw (no_digit, no_carry) refl)
  one_digit-IsState (suc n) = inr (
    k.digit (suc n),
    (
      rw (push_carry-value (suc n / b) (suc n / b) (omega arith))
          (k.positive (suc n) (omega arith)),
      push_carry-IsNumeral (suc n / b) (suc n / b) (omega arith),
    ),
  )

  pub convert-IsState : (ds xs : List ℕ) → IsState b ds → IsState b (convert b m ds xs)
  unfolding convert
  convert-IsState ds [] h = h
  convert-IsState ds (x ∷ xs) (inl e) =
      convert-IsState (scale b m ds x) xs (rw (e, scale) (one_digit-IsState (0 * m + x)))
  convert-IsState ds (x ∷ xs) (inr h) =
      convert-IsState (scale b m ds x) xs (inr (scale-IsNumeral ds x h))

  convert-append :
      (ds xs : List ℕ) (x : ℕ) → convert b m ds (xs ++ (x ∷ [])) ≡ scale b m (convert b m ds xs) x
  unfolding convert
  convert-append ds [] x = refl
  convert-append ds (y ∷ xs) x = convert-append (scale b m ds y) xs x

  pub convert-value : (xs : List ℕ) → value b (convert b m (0 ∷ []) (reverse xs)) ≡ value m xs
  unfolding convert
  convert-value [] = ground arith
  convert-value (x ∷ xs) =
      rw
        (
          reverse-cons x xs,
          convert-append (0 ∷ []) (reverse xs) x,
          scale-value (convert b m (0 ∷ []) (reverse xs)) x,
          convert-value xs,
        )
        (omega arith)

  -- Two numerals of one number are the same.
  pub IsNumeral-unique :
      (xs ys : List ℕ) → IsNumeral b xs → IsNumeral b ys → value b xs ≡ value b ys → xs ≡ ys
  IsNumeral-unique [] [] h g e = refl
  IsNumeral-unique [] (y ∷ ys) h (_, (some_left, _)) e =
      absurd (omega (arith, k.grows y (value b ys) some_left, e))
  IsNumeral-unique (x ∷ xs) [] (_, (some_left, _)) g e =
      absurd (omega (arith, k.grows x (value b xs) some_left, e))
  IsNumeral-unique (x ∷ xs) (y ∷ ys) (small, (_, h)) (small', (_, g)) e =
      let (same, rest) = k.unique x y (value b xs) (value b ys) small small' e in
      cc (same, IsNumeral-unique xs ys h g rest)
