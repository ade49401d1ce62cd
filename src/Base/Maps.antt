-- ===== src/Base/Maps.antt =====
-- Maps with number keys and maps with text keys, as association lists with one entry for a key.
use Prim.Native.Nat.{ℕ}
use mathlib.Core.Path.{◌≡◌, refl}
use mathlib.Core.Bool.{Bool, true, false}
use mathlib.Core.List.{List, [], ◌∷◌}
use mathlib.Core.Option.{Option, none, some}
use native.Mathlib.Omega.{arith}
use augecoin.Base.Tests.{◌==◌, if◌then◌else◌}
use augecoin.Base.Lists.{Bytes, bytes_eq, bytes_eq→eq, bytes_eq_refl}

abbrev pub Dict {ℓ} : Type ℓ → Type ℓ
Dict V = List (ℕ × V)

abbrev pub TextDict {ℓ} : Type ℓ → Type ℓ
TextDict V = List (Bytes × V)

module _ {ℓ} {V : Type ℓ} where
  unfoldable pub lookup : ℕ → Dict V → Option V
  lookup k [] = none
  lookup k ((j, v) ∷ d) = if k == j then some v else lookup k d

  unfoldable pub contains_key : ℕ → Dict V → Bool
  unfolding lookup
  contains_key k d = elim (lookup k d) [ none ↦ false | some _ ↦ true ]

  unfoldable pub insert : ℕ → V → Dict V → Dict V
  insert k v [] = (k, v) ∷ []
  insert k v (e ∷ d) = if k == e.0 then (k, v) ∷ d else e ∷ insert k v d

  -- `entry(k).or_insert(v)`
  unfoldable pub or_insert : ℕ → V → Dict V → Dict V
  unfolding contains_key insert
  or_insert k v d = if contains_key k d then d else insert k v d

  pub lookup-insert :
      (j k : ℕ) (v : V) (d : Dict V)
      → lookup j (insert k v d) ≡ (if j == k then some v else lookup j d)
  unfolding lookup insert
  lookup-insert j k v [] = ground arith
  lookup-insert j k v (e ∷ d) = ground (arith, lookup-insert j k v d)

  unfoldable pub text_lookup : Bytes → TextDict V → Option V
  text_lookup k [] = none
  text_lookup k ((j, v) ∷ d) = if bytes_eq k j then some v else text_lookup k d

  unfoldable pub text_insert : Bytes → V → TextDict V → TextDict V
  text_insert k v [] = (k, v) ∷ []
  text_insert k v (e ∷ d) = if bytes_eq k e.0 then (k, v) ∷ d else e ∷ text_insert k v d

  -- every entry of the key goes
  unfoldable pub text_remove : Bytes → TextDict V → TextDict V
  text_remove k [] = []
  text_remove k (e ∷ d) = if bytes_eq k e.0 then text_remove k d else e ∷ text_remove k d

  -- A key that was removed is not there.
  pub text_lookup-remove : (k : Bytes) (d : TextDict V) → text_lookup k (text_remove k d) ≡ none
  unfolding text_lookup text_remove
  text_lookup-remove k [] = refl
  text_lookup-remove k (e ∷ d) = ground (arith, text_lookup-remove k d)

  pub text_lookup-remove_any :
      (h k : Bytes) (d : TextDict V)
      → text_lookup h (text_remove k d) ≡ (if bytes_eq h k then none else text_lookup h d)
  unfolding text_lookup text_remove
  text_lookup-remove_any h k [] = ground arith
  text_lookup-remove_any h k (e ∷ d) = ground (
    arith,
    text_lookup-remove_any h k d,
    bytes_eq→eq h k,
    bytes_eq→eq k e.0,
    bytes_eq→eq h e.0,
    bytes_eq_refl k,
    bytes_eq_refl h,
  )

  pub text_lookup-insert :
      (h k : Bytes) (v : V) (d : TextDict V)
      → text_lookup h (text_insert k v d) ≡ (if bytes_eq h k then some v else text_lookup h d)
  unfolding text_lookup text_insert
  text_lookup-insert h k v [] = ground arith
  text_lookup-insert h k v (e ∷ d) = ground (
    arith,
    text_lookup-insert h k v d,
    bytes_eq→eq h k,
    bytes_eq→eq k e.0,
    bytes_eq→eq h e.0,
    bytes_eq_refl k,
    bytes_eq_refl h,
  )
