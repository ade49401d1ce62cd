-- ===== src/Tests/Core.antt =====
-- The theorems on crates/augecoin-core at concrete inputs.
use augecoin.Base.{◌*◌, ◌≤◌, ◌<◌, ◌≡◌, refl, some, List, [], ◌∷◌, ◌++◌, Bytes, lookup, ok, arith}
use augecoin.Core.Account.{Account}
use augecoin.Core.Account.Codec.{account_to_bytes, account_from_bytes, is_utf8}
use augecoin.Core.Account.RoundTrip.{FitsAccount, account_from_bytes-to_bytes}
use augecoin.Core.Block.Select.{
  IsSelection, block_serialized_size, select_block_operations, select_block_operations-IsSelection,
}
use augecoin.Core.Emission.{hard_cap_augesat, total_emission_blocks, total_supply_auge, one_auge}
use augecoin.Core.Emission.Cap.{spec_supply_augesat, emitted_before, emission_cap}
use augecoin.Core.Merkle.{pair_up, climb, merkle_root}
use augecoin.Core.Merkle.Root.{merkle_root-climb, merkle_root-pair_up, merkle_root_duplicate}
use augecoin.Core.SafeBox.{
  MerkleProof, generate_merkle_proof, verify_merkle_proof, compute_safe_box_hash,
}
use augecoin.Core.SafeBox.Proof.{generate_merkle_proof-verify}
use augecoin.Tests.Data.{toy_hash, owned, transfer_op, header_of, small_box}

generate_merkle_proof-verify_example :
    (proof : MerkleProof) × ((generate_merkle_proof toy_hash small_box 2 ≡ ok proof)
      × ((proof.account ≡ owned 2 50 0)
          × (verify_merkle_proof toy_hash proof (compute_safe_box_hash toy_hash small_box)
              ≡ ok tt)))
unfolding lookup
generate_merkle_proof-verify_example =
    generate_merkle_proof-verify toy_hash small_box 2 (owned 2 50 0) refl

abbrev named : Account
named = record (owned 3 70 1) { name = some (97 ∷ 0xC3 ∷ 0xA9 ∷ []) }

named-FitsAccount : FitsAccount named
unfolding is_utf8
named-FitsAccount = record {
  number = omega arith;
  info = record {
    key = refl;
    locked = omega arith;
    price = omega arith;
    pay = omega arith;
    new_key = tt;
    secret = refl;
  };
  balance = omega arith;
  passive = omega arith;
  active = omega arith;
  n = omega arith;
  name = (omega arith, refl);
  kind = omega arith;
  datum = omega arith;
  seal = omega arith;
}

account_from_bytes-to_bytes_example :
    account_from_bytes (account_to_bytes named ++ 1 ∷ []) ≡ ok named
account_from_bytes-to_bytes_example = account_from_bytes-to_bytes named (1 ∷ []) named-FitsAccount

select_block_operations-IsSelection_example :
    let r = select_block_operations (header_of 1 [] 0) (transfer_op ∷ transfer_op ∷ []) 3 600 in
    IsSelection 600
      (block_serialized_size (header_of 1 [] 0) [] 3)
      (transfer_op ∷ transfer_op ∷ [])
      r
    × (r.1 ≡ block_serialized_size (header_of 1 [] 0) r.0 3)
select_block_operations-IsSelection_example =
    select_block_operations-IsSelection (header_of 1 [] 0) (transfer_op ∷ transfer_op ∷ []) 3 600

abbrev hashes : List Bytes
hashes = (1 ∷ []) ∷ (2 ∷ []) ∷ (3 ∷ []) ∷ []

merkle_root-climb_example : climb toy_hash 3 hashes ≡ some (merkle_root toy_hash hashes)
merkle_root-climb_example = merkle_root-climb toy_hash 3 hashes (omega arith)

merkle_root-pair_up_example :
    merkle_root toy_hash hashes ≡ merkle_root toy_hash (pair_up toy_hash hashes)
merkle_root-pair_up_example = merkle_root-pair_up toy_hash (1 ∷ []) (2 ∷ []) ((3 ∷ []) ∷ [])

abbrev two_hashes : List Bytes
two_hashes = (1 ∷ []) ∷ (2 ∷ []) ∷ []

merkle_root_duplicate_example :
    merkle_root toy_hash (two_hashes ++ (3 ∷ []) ∷ (3 ∷ []) ∷ [])
    ≡ merkle_root toy_hash (two_hashes ++ (3 ∷ []) ∷ [])
merkle_root_duplicate_example = merkle_root_duplicate toy_hash 0 two_hashes (3 ∷ []) (omega arith)

emission_cap_example :
    (emitted_before 5 ≤ hard_cap_augesat)
    × (total_emission_blocks ≤ 5 → emitted_before 5 ≡ hard_cap_augesat)
    × (5 < total_emission_blocks → emitted_before 5 < hard_cap_augesat)
    × (total_supply_auge * one_auge ≡ hard_cap_augesat)
    × (5 ≤ 304_848_000 → emitted_before 5 ≤ spec_supply_augesat)
    × (304_848_000 < 5 → spec_supply_augesat < emitted_before 5)
emission_cap_example = emission_cap 5
