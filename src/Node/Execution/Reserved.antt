-- ===== src/Node/Execution/Reserved.antt =====
-- crates/augecoin-node/src/execution.rs, `AddressTransaction`: two new addresses in one transaction.
pub mod Shared
use augecoin.Base.{
  ℕ, ◌+◌, ◌≤◌, ◌≡◌, refl, true, false, none, some, List, [], ◌∷◌, ok, ◌==◌, ap, find, lookup,
  lookup-insert, insert, Dict, Bytes, bytes_eq, bytes_eq→eq, ◌∙◌, or_insert, arith, u64_max,
  Bool-cases, inl, inr,
}
use augecoin.Core.Account.{AccountState, Account, add_balance}
use augecoin.Core.Address.{address_of_key}
use augecoin.Core.Operation.{AddressHash, AddressReceiverInfo}
use augecoin.Node.Execution.State.{Env, ExecState, Exec, each, load_account, put_account}
use augecoin.Node.Execution.Transfers.{
  address_eq, owns_address, find_modified, is_reserved, check_address, activate_reserved, resolve,
  credit_address,
}

pub insert-insert :
    {V : Type 0} (k : ℕ) (v w : V) (d : Dict V) → insert k v (insert k w d) ≡ insert k v d
unfolding insert
insert-insert k v w [] = ground arith
insert-insert k v w (e ∷ d) = ground (arith, insert-insert k v w d)

pub each-two :
    {A : Type 0} (step : A → Exec (Unit {0})) (a b : A) (s t u : ExecState)
    → step a s ≡ ok (tt, t)
    → step b t ≡ ok (tt, u)
    → each step (a ∷ b ∷ []) s ≡ ok (tt, u)
unfolding each
each-two step a b s t u first second = ground (arith, first, second)

module _ (env : Env) where
  -- The receiver's address carries its key, the database does not know it, and no account of the
  -- overlay has its key.
  pub record IsNew (r : AddressReceiverInfo) (key : Bytes) (modified : Dict Account) : Type 0 where
    pub has_key : r.address.public_key ≡ some key
    pub is_of_key : bytes_eq (address_of_key env.crypto key).hash r.address.hash ≡ true
    pub unknown : env.database.resolve_address r.address ≡ ok none
    pub unmodified : find_modified env r.address modified ≡ none

  -- the account as it is bound to a key, and with the amount that it then gets
  abbrev pub bound : Bytes → Account → Account
  bound key acc = record acc {
    account_info = record (acc.account_info) { state = AccountState.owned; account_key = key };
    updated_on_block_active_mode = env.block_number;
    n_operation = 0;
  }

  abbrev pub credited : Bytes → ℕ → Account → Account
  credited key amount acc = record (bound key acc) { balance = acc.balance + amount }

  abbrev pub with_account : ℕ → Account → ExecState → ExecState
  with_account n acc s = record s { modified = insert n acc s.modified }

  pub find_modified-insert :
      (address : AddressHash) (k : ℕ) (a : Account) (d : Dict Account)
      → find_modified env address d ≡ none
      → owns_address env address a ≡ false
      → find_modified env address (insert k a d) ≡ none
  unfolding find_modified insert
  find_modified-insert address k a [] gone other = ground (arith, other)
  find_modified-insert address k a (e ∷ d) gone other = elim (Bool-cases (k == e.0)) [
    | inl here ↦ ground (arith, here, gone, other)
    | inr elsewhere ↦ ground (arith, elsewhere, gone, find_modified-insert address k a d)
  ]

  activate_reserved-bound :
      (address : AddressHash) (key : Bytes) (accounts : List Account) (found acc : Account)
      (s t : ExecState)
      → address.public_key ≡ some key
      → env.database.safebox ≡ ok accounts
      → find (is_reserved env) accounts ≡ some found
      → load_account env found.account_number s ≡ ok (acc, t)
      → activate_reserved env address s
        ≡ ok (found.account_number, with_account found.account_number (bound key acc) t)
  unfolding activate_reserved put_account
  activate_reserved-bound address key accounts found acc s t has_key known reserved here =
      ground (arith, has_key, known, reserved, here)

  pub load_account-here :
      (n : ℕ) (acc : Account) (s : ExecState)
      → lookup n s.modified ≡ some acc
      → load_account env n s ≡ ok (acc, s)
  unfolding load_account
  load_account-here n acc s here = rw (load_account, here) refl

  pub lookup-with_account :
      (n : ℕ) (acc : Account) (s : ExecState) → lookup n (with_account n acc s).modified ≡ some acc
  lookup-with_account n acc s = rw (lookup-insert n n acc s.modified) (ground arith)

  check_address-passes :
      (r : AddressReceiverInfo) (key : Bytes) (s : ExecState)
      → IsNew r key s.modified
      → check_address env r.address s ≡ ok (tt, s)
  unfolding check_address address_eq
  check_address-passes r key s new = ground (arith, new.has_key, new.is_of_key)

  resolve-new :
      (r : AddressReceiverInfo) (key : Bytes) (s : ExecState)
      → IsNew r key s.modified
      → resolve env r.address s ≡ activate_reserved env r.address s
  unfolding resolve
  resolve-new r key s new = ground (arith, new.unknown, new.unmodified)

  with_account-again :
      (n : ℕ) (acc old : Account) (s : ExecState)
      → with_account n acc (with_account n old s) ≡ with_account n acc s
  with_account-again n acc old s =
      ap (λ modified. record s { modified = modified }) (insert-insert n acc old s.modified)

  -- One new receiver: the account that the search in the database finds gets the key and the amount.
  pub credit_address-new :
      (r : AddressReceiverInfo) (key : Bytes) (accounts : List Account) (found acc : Account)
      (s t : ExecState)
      → IsNew r key s.modified
      → env.database.safebox ≡ ok accounts
      → find (is_reserved env) accounts ≡ some found
      → load_account env found.account_number s ≡ ok (acc, t)
      → acc.balance + r.amount ≤ u64_max
      → credit_address env r s
        ≡ ok (tt, with_account found.account_number (credited key r.amount acc) t)
  unfolding credit_address check_address resolve add_balance put_account address_eq
  credit_address-new r key accounts found acc s t new known reserved here room =
      let n = found.account_number in
      let bound_in = with_account n (bound key acc) t in
      ground (
        arith,
        room,
        check_address-passes r key s new,
        resolve-new r key s new,
        activate_reserved-bound r.address key accounts found acc s t new.has_key known reserved
            here,
        load_account-here n (bound key acc) bound_in (lookup-with_account n (bound key acc) t),
        with_account-again n (credited key r.amount acc) (bound key acc) t,
      )

  pub owns_address-other :
      (address : AddressHash) (key : Bytes) (acc : Account)
      → acc.account_info.account_key ≡ key
      → bytes_eq (address_of_key env.crypto key).hash address.hash ≡ false
      → owns_address env address acc ≡ false
  unfolding owns_address address_eq
  owns_address-other address key acc has_key other = ground (arith, has_key, other)

  -- Writing an account with another key leaves a new address new.
  pub insert-IsNew :
      (r : AddressReceiverInfo) (key other : Bytes) (n : ℕ) (acc : Account) (d : Dict Account)
      → IsNew r key d
      → acc.account_info.account_key ≡ other
      → bytes_eq (address_of_key env.crypto other).hash r.address.hash ≡ false
      → IsNew r key (insert n acc d)
  insert-IsNew r key other n acc d new has_key apart = record {
    has_key = new.has_key;
    is_of_key = new.is_of_key;
    unknown = new.unknown;
    unmodified =
        find_modified-insert r.address n acc d new.unmodified
          (owns_address-other r.address other acc has_key apart);
  }
