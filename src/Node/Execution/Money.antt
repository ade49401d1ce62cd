-- ===== src/Node/Execution/Money.antt =====
-- The accounts as an execution sees them, and the AUGE in a list of them.
pub mod Transfer
pub mod Payment
pub mod Purchase
pub mod Supply
pub mod Reward
pub mod Accounts
pub mod Conservation
use augecoin.Base.{
  ℕ, ◌+◌, ◌≤◌, ◌≡◌, refl, Bool, true, false, ◌≢◌, ◌⊎◌, inl, inr, Option, none, some, List, [], ◌∷◌,
  ◌==◌, if◌then◌else◌, Dict, lookup, insert, lookup-insert, Result, ok, err, OnOk, arith,
}
use augecoin.Core.Account.{Account, new_account, empty_key}
use augecoin.Node.Execution.State.{Env, ExecState, load_account}

abbrev pub Absent : ℕ → List ℕ → Type 0
Absent k [] = Unit
Absent k (n ∷ ns) = (n ≢ k) × Absent k ns

-- The number stands in the list once.
abbrev pub Once : ℕ → List ℕ → Type 0
Once k [] = ⊥
Once k (n ∷ ns) = ((n ≡ k) × Absent k ns) ⊎ ((n ≢ k) × Once k ns)

module _ (env : Env) where
  -- The account that `load_account` gives, where the database does not fail.
  unfoldable pub account_at : Dict Account → ℕ → Account
  unfolding lookup new_account
  account_at m n = elim (lookup n m) [
    | some a ↦ a
    | none ↦ elim (env.database.get_account n) [
      | err e ↦ new_account n empty_key env.block_number
      | ok none ↦ new_account n empty_key env.block_number
      | ok (some a) ↦ a
    ]
  ]

  pub load_account-OnOk :
      (n : ℕ) (s : ExecState)
      → OnOk
          (λ r. (r.0 ≡ account_at s.modified n) × (r.1.modified ≡ s.modified))
          (load_account env n s)
  unfolding load_account account_at
  load_account-OnOk n s = ground arith

  pub account_at-insert :
      (m : Dict Account) (k : ℕ) (a : Account) (n : ℕ)
      → account_at (insert k a m) n ≡ (if n == k then a else account_at m n)
  unfolding account_at
  account_at-insert m k a n = ground (arith, lookup-insert n k a m)

  -- The AUGE of the listed accounts.
  unfoldable pub total : Dict Account → List ℕ → ℕ
  total m [] = 0
  total m (n ∷ ns) = (account_at m n).balance + total m ns

  -- Writing an account that is not listed leaves the total as it is.
  total-insert-Absent :
      (m : Dict Account) (k : ℕ) (a : Account) (ns : List ℕ)
      → Absent k ns
      → total (insert k a m) ns ≡ total m ns
  unfolding total
  total-insert-Absent m k a [] h = refl
  total-insert-Absent m k a (n ∷ ns) h =
      rw (account_at-insert m k a n, total-insert-Absent m k a ns h.1) (ground arith)

  -- Writing a listed account changes the total by the change of its balance.
  pub total-insert :
      (m : Dict Account) (k : ℕ) (a : Account) (ns : List ℕ)
      → Once k ns
      → total (insert k a m) ns + (account_at m k).balance ≡ total m ns + a.balance
  unfolding total
  total-insert m k a [] h = absurd h
  total-insert m k a (n ∷ ns) (inl (here, rest)) =
      rw (account_at-insert m k a n, total-insert-Absent m k a ns rest, here) (ground arith)
  total-insert m k a (n ∷ ns) (inr (other, more)) =
      rw (account_at-insert m k a n) (ground (arith, total-insert m k a ns more))

  pub balance-le-total :
      (m : Dict Account) (k : ℕ) (ns : List ℕ) → Once k ns → (account_at m k).balance ≤ total m ns
  unfolding total
  balance-le-total m k [] h = absurd h
  balance-le-total m k (n ∷ ns) (inl (here, rest)) = rw (← here) (omega arith)
  balance-le-total m k (n ∷ ns) (inr (other, more)) = omega (arith, balance-le-total m k ns more)
