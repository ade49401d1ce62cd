-- ===== src/Base/Bits.antt =====
-- Big-endian bytes: `v.to_be_bytes()` for a word of `w` bytes, and its inverse.
use Prim.Native.Nat.{ℕ, zero, suc, ◌+◌, ◌*◌, ◌/◌, ◌%◌, ◌^◌, ◌<◌}
use mathlib.Core.Path.{◌≡◌, refl, ap}
use mathlib.Core.Option.{Option, none, some}
use mathlib.Core.List.{[], ◌∷◌, ◌++◌}
use native.Mathlib.Omega.{arith}
use augecoin.Base.Lists.{Bytes, length}
use augecoin.Base.Words.{u16_mod, u32_mod, u64_mod}

-- the low `w` bytes of `v`, the highest first; a cast to a narrower word is made here too
unfoldable pub to_be_bytes : ℕ → ℕ → Bytes
to_be_bytes zero v = []
to_be_bytes (suc w) v = (v / 256 ^ w) % 256 ∷ to_be_bytes w v

unfoldable pub from_be_bytes_onto : ℕ → Bytes → ℕ
from_be_bytes_onto acc [] = acc
from_be_bytes_onto acc (b ∷ bs) = from_be_bytes_onto (acc * 256 + b) bs

unfoldable pub from_be_bytes : Bytes → ℕ
unfolding from_be_bytes_onto
from_be_bytes bs = from_be_bytes_onto 0 bs

-- The next `n` bytes and the rest, as `data[pos..pos + n]` with its test for the end of the data.
unfoldable pub take_exact : ℕ → Bytes → Option (Bytes × Bytes)
take_exact zero data_left = some ([], data_left)
take_exact (suc n) [] = none
take_exact (suc n) (b ∷ bs) = elim (take_exact n bs) [
  | none ↦ none
  | some (taken, rest) ↦ some (b ∷ taken, rest)
]

pub take_exact-append : (xs ys : Bytes) → take_exact (length xs) (xs ++ ys) ≡ some (xs, ys)
unfolding take_exact
take_exact-append [] ys = refl
take_exact-append (x ∷ xs) ys = rw (take_exact-append xs ys)

pub take_exact-append_of_length :
    (n : ℕ) (xs ys : Bytes) → length xs ≡ n → take_exact n (xs ++ ys) ≡ some (xs, ys)
take_exact-append_of_length n xs ys e = rw (← e) (take_exact-append xs ys)

pub length-to_be_bytes : (w v : ℕ) → length (to_be_bytes w v) ≡ w
unfolding to_be_bytes
length-to_be_bytes zero v = refl
length-to_be_bytes (suc w) v = ap suc (length-to_be_bytes w v)

pub u16_round_trip : (v : ℕ) → v < u16_mod → from_be_bytes (to_be_bytes 2 v) ≡ v
unfolding from_be_bytes to_be_bytes
u16_round_trip v h = omega arith

pub u32_round_trip : (v : ℕ) → v < u32_mod → from_be_bytes (to_be_bytes 4 v) ≡ v
unfolding from_be_bytes to_be_bytes
u32_round_trip v h = omega arith

pub u64_round_trip : (v : ℕ) → v < u64_mod → from_be_bytes (to_be_bytes 8 v) ≡ v
unfolding from_be_bytes to_be_bytes
u64_round_trip v h = omega arith
