-- ===== src/Core/Codec/Reader.antt =====
-- The readers that crates/augecoin-core/src/operation.rs, block.rs and proposal.rs have each for
-- itself: a cursor over the data, which gives what it read and the bytes behind it, or an error.
-- `eof` is the error of a file where the data ends too early.
use augecoin.Base.{
  ℕ, zero, suc, none, some, List, [], ◌∷◌, Bytes, Result, ok, err, take_exact, from_be_bytes,
}

abbrev pub Reader : Type 0 → Type 0 → Type 0
Reader E A = Bytes → Result E (A × Bytes)

infixl 5 ◌>>=◌
unfoldable pub ◌>>=◌ : {E A B : Type 0} → Reader E A → (A → Reader E B) → Reader E B
◌>>=◌ m f left = elim (m left) [ ok (a, rest) ↦ f a rest | err e ↦ err e ]

unfoldable pub pure : {E A : Type 0} → A → Reader E A
pure a left = ok (a, left)

unfoldable pub fail : {E A : Type 0} → E → Reader E A
fail e left = err e

-- `for _ in 0..n { xs.push(read()?) }`
unfoldable pub read_times : {E A : Type 0} → ℕ → Reader E A → Reader E (List A)
unfolding ◌>>=◌ pure
read_times zero read = pure []
read_times (suc n) read = do x ← read; xs ← read_times n read; pure (x ∷ xs)

module _ {E : Type 0} (eof : E) where
  unfoldable pub read_fixed : ℕ → Reader E Bytes
  unfolding take_exact
  read_fixed n left = elim (take_exact n left) [ none ↦ err eof | some taken ↦ ok taken ]

  unfoldable pub read_u8 : Reader E ℕ
  read_u8 [] = err eof
  read_u8 (b ∷ left) = ok (b, left)

  unfoldable pub read_u16 : Reader E ℕ
  unfolding read_fixed ◌>>=◌ pure from_be_bytes
  read_u16 = do bytes ← read_fixed 2; pure (from_be_bytes bytes)

  unfoldable pub read_u32 : Reader E ℕ
  unfolding read_fixed ◌>>=◌ pure from_be_bytes
  read_u32 = do bytes ← read_fixed 4; pure (from_be_bytes bytes)

  unfoldable pub read_u64 : Reader E ℕ
  unfolding read_fixed ◌>>=◌ pure from_be_bytes
  read_u64 = do bytes ← read_fixed 8; pure (from_be_bytes bytes)

  unfoldable pub read_bytes_with_len : Reader E Bytes
  unfolding read_u16 read_fixed ◌>>=◌
  read_bytes_with_len = do len ← read_u16; read_fixed len
