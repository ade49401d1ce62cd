-- ===== src/Core/Address/Base58.antt =====
-- crates/augecoin-crypto/src/address.rs: `base58_decode` after `base58_encode`.
use augecoin.Base.{
  ℕ, zero, suc, ◌+◌, ◌*◌, ◌<◌, ◌≡◌, refl, sym, subst, ap, ◌∙◌, ◌⊎◌, inl, inr, Bool, true, false,
  ◌&&◌, none, some, List, [], ◌∷◌, ◌++◌, ◌==◌, Bytes, map, replicate, All, arith, Bool-cases,
  Option-cases, ==_iff,
}
use mathlib.Core.List.{reverse, reverse-cons, reverse-append, reverse-reverse}
use augecoin.Core.Address.{
  scale, convert, leading, character, base58_encode, digit_of, decode_from, base58_decode,
}
use augecoin.Core.Address.Digits.{
  IsBase, text_digits, byte_digits, value, IsNumeral, IsState, convert-IsState, convert-value,
  IsNumeral-unique,
}

-- A test of the numbers below `n`.
abbrev all_below : (ℕ → Bool) → ℕ → Bool
all_below test zero = true
all_below test (suc n) = test n && all_below test n

all_below-use : (test : ℕ → Bool) (n d : ℕ) → all_below test n ≡ true → d < n → test d ≡ true
all_below-use test zero d h small = absurd (omega (arith, small))
all_below-use test (suc n) d h small = elim (Bool-cases (d == n)) [
  | inl e ↦ ground (arith, h, e)
  | inr e ↦ ground (arith, h, e, small, all_below-use test n d)
]

abbrev reads_back : ℕ → Bool
reads_back d = elim (digit_of (character d)) [ none ↦ false | some n ↦ n == d ]

all_read_back : all_below reads_back 58 ≡ true
unfolding digit_of character
all_read_back = refl

digit_of-character : (d : ℕ) → d < 58 → digit_of (character d) ≡ some d
digit_of-character d small = elim (Option-cases (digit_of (character d))) [
  | inl e ↦ absurd (ground (arith, e, all_below-use reads_back 58 d all_read_back small))
  | inr (n, e) ↦ ground (arith, e, all_below-use reads_back 58 d all_read_back small)
]

first_digit : digit_of 49 ≡ some 0
unfolding digit_of
first_digit = refl

not_the_first : (d : ℕ) → d < 58 → 0 < d → (character d == 49) ≡ false
not_the_first d small positive = elim (Bool-cases (character d == 49)) [
  | inl e ↦
      let same =
        subst (λ ch. digit_of ch ≡ some d) ((==_iff (character d) 49).0 e)
          (digit_of-character d small) in
      absurd (ground (arith, same, first_digit, positive))
  | inr e ↦ e
]

module _ {ℓ} {A : Type ℓ} where
  replicate-snoc : (n : ℕ) (a : A) → replicate n a ++ (a ∷ []) ≡ a ∷ replicate n a
  replicate-snoc zero a = refl
  replicate-snoc (suc n) a = cc (replicate-snoc n a)

  reverse-replicate : (n : ℕ) (a : A) → reverse (replicate n a) ≡ replicate n a
  reverse-replicate zero a = refl
  reverse-replicate (suc n) a =
      rw (reverse-cons a (replicate n a), reverse-replicate n a) (replicate-snoc n a)

  All-append : (P : A → Type 0) (xs ys : List A) → All P xs → All P ys → All P (xs ++ ys)
  All-append P [] ys h g = g
  All-append P (x ∷ xs) ys h g = (h.0, All-append P xs ys h.1 g)

  All-reverse : (P : A → Type 0) (xs : List A) → All P xs → All P (reverse xs)
  All-reverse P [] h = h
  All-reverse P (x ∷ xs) h =
      rw (reverse-cons x xs) (All-append P (reverse xs) (x ∷ []) (All-reverse P xs h.1) (h.0, tt))

leading-replicate :
    (n z x : ℕ) (xs : List ℕ) → (x == n) ≡ false → leading n (replicate z n ++ (x ∷ xs)) ≡ z
unfolding leading
leading-replicate n zero x xs e = rw e refl
leading-replicate n (suc z) x xs e = ground (arith, leading-replicate n z x xs e)

module _ (b m : ℕ) (k : IsBase b m) where
  snoc-IsNumeral :
      (ds : List ℕ) (x : ℕ)
      → All (λ d. d < b) ds
      → x < b
      → 0 < x
      → IsNumeral b (ds ++ (x ∷ [])) × (0 < value b (ds ++ (x ∷ [])))
  snoc-IsNumeral [] x h small positive =
      let left : 0 < x + 0 = omega (arith, positive) in ((small, (left, tt)), k.grows x 0 left)
  snoc-IsNumeral (d ∷ ds) x (digit, more) small positive =
      let (numeral, some_left) = snoc-IsNumeral ds x more small positive in
      let left : 0 < d + value b (ds ++ (x ∷ [])) = omega (arith, some_left) in
      ((digit, (left, numeral)), k.grows d (value b (ds ++ (x ∷ []))) left)

  -- A numeral of a positive number ends with a digit that is not 0.
  record Ends (ds : List ℕ) : Type 0 where
    lower : List ℕ
    highest : ℕ
    parts : ds ≡ lower ++ (highest ∷ [])
    positive : 0 < highest

  ends : (d : ℕ) (ds : List ℕ) → IsNumeral b (d ∷ ds) → Ends (d ∷ ds)
  ends d [] h = record { lower = []; highest = d; parts = refl; positive = omega (arith, h.1.0) }
  ends d (e ∷ ds) h =
      let rest = ends e ds h.1.1 in
      record {
        lower = d ∷ rest.lower;
        highest = rest.highest;
        parts = ap (λ r. d ∷ r) rest.parts;
        positive = rest.positive;
      }

  digits_below : (ds : List ℕ) → IsNumeral b ds → All (λ d. d < b) ds
  digits_below [] h = tt
  digits_below (d ∷ ds) h = (h.0, digits_below ds h.1.1)

  positive-IsNumeral : (ds : List ℕ) → IsState b ds → 0 < value b ds → IsNumeral b ds
  positive-IsNumeral ds (inr n) h = n
  positive-IsNumeral ds (inl e) h = absurd (below (subst (λ l. 0 < value b l) e h))
    where
      below : 0 < 0 + b * 0 → ⊥
      below left = ground (arith, left)

convert-zeros :
    (z : ℕ) (xs : List ℕ)
    → convert 58 256 (0 ∷ []) (replicate z 0 ++ xs) ≡ convert 58 256 (0 ∷ []) xs
unfolding convert
convert-zeros zero xs = refl
convert-zeros (suc z) xs = convert-zeros z xs

decode_from-ones :
    (z : ℕ) (text : Bytes)
    → decode_from (0 ∷ []) (replicate z 49 ++ text) ≡ decode_from (0 ∷ []) text
unfolding decode_from scale digit_of
decode_from-ones zero text = refl
decode_from-ones (suc z) text = decode_from-ones z text

decode_from-character :
    (st ds : List ℕ)
    → All (λ d. d < 58) ds
    → decode_from st (map character ds) ≡ some (convert 256 58 st ds)
unfolding decode_from convert
decode_from-character st [] h = refl
decode_from-character st (d ∷ ds) (small, more) =
    rw (decode_from, digit_of-character d small) (decode_from-character (scale 256 58 st d) ds more)

-- The loops of the encoder and of the decoder undo each other on bytes without a leading 0.
module _ (x : ℕ) (xs : List ℕ) (positive : 0 < x) (small : All (λ d. d < 256) (x ∷ xs)) where
  bytes_up : List ℕ
  bytes_up = reverse (x ∷ xs)

  digits : List ℕ
  digits = convert 58 256 (0 ∷ []) (x ∷ xs)

  bytes-IsNumeral : IsNumeral 256 bytes_up × (0 < value 256 bytes_up)
  unfolding bytes_up
  bytes-IsNumeral = rw (reverse-cons x xs) (
      snoc-IsNumeral 256 58 byte_digits (reverse xs) x (All-reverse (λ d. d < 256) xs small.1)
        small.0 positive)

  digits-value : value 58 digits ≡ value 256 bytes_up
  unfolding digits bytes_up
  digits-value =
      subst (λ l. value 58 (convert 58 256 (0 ∷ []) l) ≡ value 256 bytes_up)
        (reverse-reverse (x ∷ xs)) (convert-value 58 256 text_digits bytes_up)

  digits-IsNumeral : IsNumeral 58 digits
  unfolding digits
  digits-IsNumeral =
      positive-IsNumeral 58 256 text_digits digits
        (convert-IsState 58 256 text_digits (0 ∷ []) (x ∷ xs) (inl refl))
        (omega (arith, digits-value, bytes-IsNumeral.1))

  decoded : convert 256 58 (0 ∷ []) (reverse digits) ≡ bytes_up
  decoded =
      let same : value 256 (convert 256 58 (0 ∷ []) (reverse digits)) ≡ value 256 bytes_up =
        convert-value 256 58 byte_digits digits ∙ digits-value in
      IsNumeral-unique 256 58 byte_digits (convert 256 58 (0 ∷ []) (reverse digits)) bytes_up
        (positive-IsNumeral 256 58 byte_digits (convert 256 58 (0 ∷ []) (reverse digits))
          (convert-IsState 256 58 byte_digits (0 ∷ []) (reverse digits) (inl refl))
          (omega (arith, same, bytes-IsNumeral.1)))
        bytes-IsNumeral.0 same

leading_ones :
    (z : ℕ) (ds : List ℕ)
    → IsNumeral 58 ds
    → 0 < value 58 ds
    → leading 49 (replicate z 49 ++ map character (reverse ds)) ≡ z
leading_ones z [] h positive = absurd (omega (arith, positive))
leading_ones z (d ∷ ds) h positive =
    let e = ends 58 256 text_digits d ds h in
    subst (λ l. leading 49 (replicate z 49 ++ map character l) ≡ z) (sym (turned e))
      (leading-replicate 49 z (character e.highest) (map character (reverse e.lower))
        (not_the_first e.highest (last_below e.lower e.highest (digits_of e)) e.positive))
  where
    turned : (e : Ends 58 256 text_digits (d ∷ ds)) → reverse (d ∷ ds) ≡ e.highest ∷ reverse e.lower
    turned e = ap reverse e.parts ∙ reverse-append e.lower (e.highest ∷ [])

    digits_of :
        (e : Ends 58 256 text_digits (d ∷ ds)) → All (λ n. n < 58) (e.lower ++ (e.highest ∷ []))
    digits_of e = subst (All (λ n. n < 58)) e.parts (digits_below 58 256 text_digits (d ∷ ds) h)

    last_below : (xs : List ℕ) (n : ℕ) → All (λ n. n < 58) (xs ++ (n ∷ [])) → n < 58
    last_below [] n a = a.0
    last_below (x ∷ xs) n a = last_below xs n a.1

turned_back : (z : ℕ) (xs : List ℕ) → reverse (reverse xs ++ replicate z 0) ≡ replicate z 0 ++ xs
turned_back z xs =
    reverse-append (reverse xs) (replicate z 0)
    ∙ rw (reverse-replicate {A = ℕ} z 0, reverse-reverse xs) refl

decode_of :
    (text : Bytes) (found : List ℕ) (z : ℕ)
    → decode_from (0 ∷ []) text ≡ some found
    → leading 49 text ≡ z
    → base58_decode text ≡ some (reverse (found ++ replicate z 0))
unfolding base58_decode
decode_of text found z e f = rw (base58_decode, e, f) refl

behind_zeros :
    (z x : ℕ) (xs : List ℕ)
    → 0 < x
    → All (λ d. d < 256) (x ∷ xs)
    → base58_decode (base58_encode (replicate z 0 ++ (x ∷ xs))) ≡ some (replicate z 0 ++ (x ∷ xs))
unfolding base58_encode digits bytes_up
behind_zeros z x xs positive small =
    let ds = digits x xs positive small in
    let numeral = digits-IsNumeral x xs positive small in
    let some_left : 0 < value 58 ds =
      omega (arith, digits-value x xs positive small, (bytes-IsNumeral x xs positive small).1) in
    let no_zero : (x == 0) ≡ false = ground (arith, positive) in
    let found =
      decode_from-ones z (map character (reverse ds))
      ∙ (decode_from-character (0 ∷ []) (reverse ds)
            (All-reverse (λ d. d < 58) ds (digits_below 58 256 text_digits ds numeral))
          ∙ ap some (decoded x xs positive small)) in
    rw (base58_encode, leading-replicate 0 z x xs no_zero, convert-zeros z (x ∷ xs))
      (decode_of (replicate z 49 ++ map character (reverse ds)) (reverse (x ∷ xs)) z found
          (leading_ones z ds numeral some_left)
        ∙ ap some (turned_back z (x ∷ xs)))

-- Some byte is not 0.
abbrev pub HasByte : Bytes → Type 0
HasByte [] = ⊥
HasByte (x ∷ xs) = (0 < x) ⊎ HasByte xs

split_zeros :
    (bytes : Bytes)
    → HasByte bytes
    → (z : ℕ) × (x : ℕ) × (xs : List ℕ) × (0 < x) × (bytes ≡ replicate z 0 ++ (x ∷ xs))
split_zeros [] h = absurd h
split_zeros (zero ∷ bytes) (inl h) = absurd (omega (arith, h))
split_zeros (zero ∷ bytes) (inr h) =
    let (z, x, xs, positive, e) = split_zeros bytes h in (suc z, x, xs, positive, ap (λ l. 0 ∷ l) e)
split_zeros (suc n ∷ bytes) h = (0, suc n, bytes, omega arith, refl)

All-behind : (xs ys : List ℕ) → All (λ d. d < 256) (xs ++ ys) → All (λ d. d < 256) ys
All-behind [] ys h = h
All-behind (x ∷ xs) ys h = All-behind xs ys h.1

-- Decoding the Base58 text of bytes gives the bytes, with their leading zeros, where some byte is not
-- 0.
pub base58_decode-encode :
    (bytes : Bytes)
    → All (λ d. d < 256) bytes
    → HasByte bytes
    → base58_decode (base58_encode bytes) ≡ some bytes
base58_decode-encode bytes small h =
    let (z, x, xs, positive, e) = split_zeros bytes h in
    subst (λ l. base58_decode (base58_encode l) ≡ some l) (sym e)
      (behind_zeros z x xs positive
        (All-behind (replicate z 0) (x ∷ xs) (subst (All (λ d. d < 256)) e small)))
