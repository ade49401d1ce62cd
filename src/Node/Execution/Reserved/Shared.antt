-- ===== src/Node/Execution/Reserved/Shared.antt =====
-- crates/augecoin-node/src/execution.rs, `AddressTransaction`: the loop over two receivers with new
-- addresses.
use augecoin.Base.{
  ◌+◌, ◌≤◌, ◌≡◌, refl, true, false, none, some, List, [], ◌∷◌, ok, find, lookup, insert, or_insert,
  Bytes, bytes_eq, bytes_eq→eq, arith, u64_max, Bool-cases, inl, inr,
}
use augecoin.Core.Account.{Account}
use augecoin.Core.Address.{address_of_key}
use augecoin.Core.Operation.{AddressReceiverInfo}
use augecoin.Node.Execution.State.{Env, ExecState, each, load_account}
use augecoin.Node.Execution.Transfers.{find_modified, is_reserved, credit_address}
use augecoin.Node.Execution.Reserved.{
  insert-insert, each-two, IsNew, credited, with_account, load_account-here, lookup-with_account,
  credit_address-new, insert-IsNew,
}

apart :
    (x h g : Bytes)
    → bytes_eq x h ≡ true
    → bytes_eq h g ≡ false
    → (bytes_eq x g ≡ false) × (bytes_eq g h ≡ false)
apart x h g same other = (
  rw (bytes_eq→eq x h same) other,
  elim (Bool-cases (bytes_eq g h)) [
    | inr different ↦ different
    | inl equal ↦ cc (other, bytes_eq→eq g h equal)
  ],
)

module _ (env : Env) where
  -- Two receivers of one AddressTransaction with new addresses, which differ, get one account: where
  -- both addresses carry their keys, the database knows neither, no account of the overlay has one
  -- of the keys, the first Reserved account that the database has is not in the overlay, and its
  -- balance and the two amounts do not overflow, the loop over the receivers succeeds. Behind it that
  -- account has the key of the second receiver and both amounts, and no account of the overlay has
  -- the key of the first.
  pub new_addresses_share :
      (a b : AddressReceiverInfo) (key_a key_b : Bytes) (accounts : List Account) (found : Account)
      (s : ExecState)
      → IsNew env a key_a s.modified
      → IsNew env b key_b s.modified
      → bytes_eq a.address.hash b.address.hash ≡ false
      → env.database.safebox ≡ ok accounts
      → find (is_reserved env) accounts ≡ some found
      → lookup found.account_number s.modified ≡ none
      → env.database.get_account found.account_number ≡ ok (some found)
      → found.balance + a.amount + b.amount ≤ u64_max
      → (u : ExecState) × ((after : Account) × ((each (credit_address env) (a ∷ b ∷ []) s
              ≡ ok (tt, u))
            × (lookup found.account_number u.modified ≡ some after)
            × (after.account_info.account_key ≡ key_b)
            × (after.balance ≡ found.balance + a.amount + b.amount)
            × (find_modified env a.address u.modified ≡ none)))
  unfolding load_account
  new_addresses_share a b key_a key_b accounts found s new_a new_b differ known reserved absent
        stored room =
      let n = found.account_number in
      let loaded = record s { original = or_insert n found s.original } in
      let first = credited env key_a a.amount found in
      let second = credited env key_b b.amount first in
      let t = with_account env n first loaded in
      let u = with_account env n second t in
      let (other_a, differ') =
        apart (address_of_key env.crypto key_a).hash a.address.hash b.address.hash new_a.is_of_key
          differ in
      let (other_b, _) =
        apart (address_of_key env.crypto key_b).hash b.address.hash a.address.hash new_b.is_of_key
          differ' in
      let run_a : credit_address env a s ≡ ok (tt, t) =
        credit_address-new env a key_a accounts found found s loaded new_a known reserved
          (ground (arith, absent, stored)) (omega (arith, room)) in
      let run_b : credit_address env b t ≡ ok (tt, u) =
        credit_address-new env b key_b accounts found first t t
          (insert-IsNew env b key_b key_a n first s.modified new_b refl other_a) known reserved
          (load_account-here env n first t (lookup-with_account env n first loaded)) room in
      let still_new : IsNew env a key_a (insert n second s.modified) =
        insert-IsNew env a key_a key_b n second s.modified new_a refl other_b in
      (
        u,
        (
          second,
          (
            each-two (credit_address env) a b s t u run_a run_b,
            lookup-with_account env n second t,
            refl,
            refl,
            rw (insert-insert n second first s.modified) still_new.unmodified,
          ),
        ),
      )
