-- ===== src/Core/Merkle.antt =====
-- The Merkle tree over 64-byte hashes: `compute_operations_merkle_root` of
-- crates/augecoin-core/src/block.rs, `merkle_root_from_hashes` of proposal.rs and
-- `compute_safe_box_hash` of safe_box.rs have this one loop. An odd node is paired with itself.
pub mod Root
use augecoin.Base.{ℕ, zero, suc, Option, none, some, List, [], ◌∷◌, ◌++◌, Bytes, length, replicate}

abbrev pub zero_hash : Bytes
zero_hash = replicate 64 0

-- One level: `hashes.chunks(2)`.
unfoldable pub pair_up : (Bytes → Bytes) → List Bytes → List Bytes
pair_up h [] = []
pair_up h (x ∷ []) = h (x ++ x) ∷ []
pair_up h (x ∷ y ∷ rest) = h (x ++ y) ∷ pair_up h rest

-- `while hashes.len() > 1`, on fuel; `none` means that the fuel ran out.
unfoldable pub climb : (Bytes → Bytes) → ℕ → List Bytes → Option Bytes
unfolding pair_up
climb h fuel [] = some zero_hash
climb h fuel (x ∷ []) = some x
climb h zero (x ∷ y ∷ rest) = none
climb h (suc fuel) (x ∷ y ∷ rest) = climb h fuel (pair_up h (x ∷ y ∷ rest))

-- As many rounds as there are hashes are enough (`merkle_root-climb`).
unfoldable pub merkle_root : (Bytes → Bytes) → List Bytes → Bytes
unfolding climb
merkle_root h hashes = elim (climb h (length hashes) hashes) [ none ↦ zero_hash | some r ↦ r ]
