-- ===== src/Consensus/Quorum.antt =====
-- crates/augecoin-consensus/src/quorum.rs: the size of a quorum and the count of its signers. The
-- `HashSet` of ids is a list without repetition.
pub mod Counting
pub mod Intersection
use augecoin.Base.{
  ℕ, ◌+◌, ◌*◌, ◌/◌, Bool, true, false, ◌&&◌, Option, none, some, List, [], ◌∷◌, leb, ◌==◌,
  if◌then◌else◌, Bytes, length, any, find,
}
use augecoin.Crypto.{Crypto}
use augecoin.Consensus.Validator.{ValidatorInfo, ValidatorSet, active_validators}

-- The count is the length of a list in memory, so doubling it does not wrap.
unfoldable pub quorum_threshold : ℕ → ℕ
quorum_threshold validator_count = if validator_count == 0 then 0 else validator_count * 2 / 3 + 1

unfoldable pub contains_id : List ℕ → ℕ → Bool
contains_id [] id = false
contains_id (j ∷ ids) id = if j == id then true else contains_id ids id

-- `valid_validators.insert(id)`
unfoldable pub insert_id : ℕ → List ℕ → List ℕ
unfolding contains_id
insert_id id ids = if contains_id ids id then ids else id ∷ ids

-- A loop over signatures that inserts the id of the validator that each is found to be of.
unfoldable pub collect_by : (Bytes → Option ValidatorInfo) → List Bytes → List ℕ → List ℕ
unfolding insert_id
collect_by pick [] ids = ids
collect_by pick (sig ∷ sigs) ids =
    collect_by pick sigs (elim (pick sig) [ none ↦ ids | some v ↦ insert_id v.id ids ])

-- The inner loop: `verify_validator` takes the key with `unwrap`, so `none` is a panic, at the
-- first active validator whose bytes are no key.
unfoldable pub first_signer :
    Crypto → Bytes → Bytes → List ValidatorInfo → Option (Option ValidatorInfo)
first_signer c sig message [] = some none
first_signer c sig message (v ∷ vs) =
    if c.valid_key v.ed25519_public_key
    then if c.verify v.ed25519_public_key sig message
      then some (some v)
      else first_signer c sig message vs
    else none

-- The outer loop over the signatures.
unfoldable pub collect_signers :
    Crypto → Bytes → List ValidatorInfo → List Bytes → List ℕ → Option (List ℕ)
unfolding first_signer insert_id
collect_signers c message active [] ids = some ids
collect_signers c message active (sig ∷ sigs) ids = elim (first_signer c sig message active) [
  | none ↦ none
  | some none ↦ collect_signers c message active sigs ids
  | some (some v) ↦ collect_signers c message active sigs (insert_id v.id ids)
]

unfoldable pub verify_quorum : Crypto → List Bytes → ValidatorSet → Bytes → Option Bool
unfolding collect_signers active_validators quorum_threshold
verify_quorum c signatures s block_hash =
    elim (collect_signers c block_hash (active_validators s) signatures []) [
      | none ↦ none
      | some ids ↦ some (leb (quorum_threshold (length (active_validators s))) (length ids))
    ]
