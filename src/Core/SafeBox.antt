-- ===== src/Core/SafeBox.antt =====
-- crates/augecoin-core/src/safe_box.rs: the resident SafeBox, its hash and its Merkle proofs. The
-- accounts stand in the order of their numbers and the names in their own order; the index of
-- addresses is left out, it is derived and not hashed.
pub mod Proof
use augecoin.Base.{
  ℕ, zero, suc, ◌+◌, ◌-◌, ◌*◌, ◌/◌, ◌%◌, Bool, true, false, Option, none, some, List, [], ◌∷◌, ◌++◌,
  ltb, leb, ◌==◌, if◌then◌else◌, Bytes, bytes_eq, length, map, get_elem?, Dict, TextDict, lookup,
  Result, ok, err, to_be_bytes, u64_max,
}
use augecoin.Core.Account.{Account}
use augecoin.Core.Account.Codec.{account_hash}
use augecoin.Core.Merkle.{zero_hash, pair_up, merkle_root}

pub record SafeBox : Type 0 where
  pub accounts : Dict Account
  pub name_index : TextDict ℕ

pub record MerkleProof : Type 0 where
  pub account : Account
  pub siblings : List Bytes
  pub leaf_index : ℕ
  pub total_leaves : ℕ

pub data MerkleProofError : Type 0 where
  invalid_proof account_not_found : MerkleProofError

abbrev pub hash_of_entry : (Bytes → Bytes) → ℕ × Account → Bytes
hash_of_entry blake3_512 (number, a) = account_hash blake3_512 a

abbrev pub hash_of_name : (Bytes → Bytes) → Bytes × ℕ → Bytes
hash_of_name blake3_512 (name, number) = blake3_512 (name ++ to_be_bytes 8 number)

-- The leaves: the accounts, then the names.
unfoldable pub leaves : (Bytes → Bytes) → SafeBox → List Bytes
unfolding account_hash
leaves blake3_512 sb =
    map (hash_of_entry blake3_512) sb.accounts ++ map (hash_of_name blake3_512) sb.name_index

unfoldable pub compute_safe_box_hash : (Bytes → Bytes) → SafeBox → Bytes
unfolding leaves merkle_root
compute_safe_box_hash blake3_512 sb = elim sb.accounts [
  | [] ↦ zero_hash
  | _ ∷ _ ↦ merkle_root blake3_512 (leaves blake3_512 sb)
]

-- An odd level gets its last hash twice.
unfoldable pub pad : List Bytes → List Bytes
pad [] = []
pad (x ∷ []) = x ∷ x ∷ []
pad (x ∷ y ∷ rest) = x ∷ y ∷ pad rest

-- The loop of `generate_merkle_proof`, on fuel. An index past the end, where the source panics,
-- gives the zero hash.
unfoldable pub siblings_from : (Bytes → Bytes) → ℕ → List Bytes → ℕ → List Bytes
unfolding pad pair_up
siblings_from h fuel [] idx = []
siblings_from h fuel (x ∷ []) idx = []
siblings_from h zero (x ∷ y ∷ rest) idx = []
siblings_from h (suc fuel) (x ∷ y ∷ rest) idx =
    let level = pad (x ∷ y ∷ rest) in
    elim (get_elem? level (if idx % 2 == 0 then idx + 1 else idx - 1)) [
      | none ↦ zero_hash
      | some sibling ↦ sibling
    ]
    ∷ siblings_from h fuel (pair_up h level) (idx / 2)

-- `position(|(_, num)| num == account_number)`, from index `i`; the names have the number
-- `u64::MAX`.
unfoldable pub position : ℕ → ℕ → List ℕ → Option ℕ
position number i [] = none
position number i (n ∷ ns) = if n == number then some i else position number (suc i) ns

abbrev pub number_of : ℕ × Account → ℕ
number_of (number, a) = number

abbrev pub number_of_name : Bytes × ℕ → ℕ
number_of_name (name, number) = u64_max

unfoldable pub generate_merkle_proof :
    (Bytes → Bytes) → SafeBox → ℕ → Result MerkleProofError MerkleProof
unfolding lookup position leaves siblings_from
generate_merkle_proof blake3_512 sb account_number = elim (lookup account_number sb.accounts) [
  | none ↦ err account_not_found
  | some account ↦
      elim (position account_number 0
        (map number_of sb.accounts ++ map number_of_name sb.name_index)) [
          | none ↦ err account_not_found
          | some leaf_index ↦ ok (record {
            account = account;
            siblings =
                siblings_from blake3_512 (length (leaves blake3_512 sb)) (leaves blake3_512 sb)
                  leaf_index;
            leaf_index = leaf_index;
            total_leaves = length (leaves blake3_512 sb);
          })
        ]
]

-- The loop of `verify_merkle_proof`.
unfoldable pub fold_proof : (Bytes → Bytes) → Bytes → ℕ → List Bytes → Bytes
fold_proof h current idx [] = current
fold_proof h current idx (sibling ∷ siblings) =
    fold_proof h (h (if idx % 2 == 0 then current ++ sibling else sibling ++ current)) (idx / 2)
      siblings

unfoldable pub verify_merkle_proof :
    (Bytes → Bytes) → MerkleProof → Bytes → Result MerkleProofError (Unit {0})
unfolding account_hash fold_proof bytes_eq
verify_merkle_proof blake3_512 proof root_hash =
    if bytes_eq
      (fold_proof blake3_512 (account_hash blake3_512 proof.account) proof.leaf_index
        proof.siblings)
      root_hash
    then ok tt
    else err invalid_proof
