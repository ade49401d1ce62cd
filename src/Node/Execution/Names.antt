-- ===== src/Node/Execution/Names.antt =====
-- crates/augecoin-node/src/execution.rs, `Transaction`: the claims of names within a block.
use augecoin.Base.{
  ℕ, ◌≡◌, ◌≢◌, ◌≤◌, ◌∙◌, ap, none, some, Bytes, length, lookup, lookup-insert, insert, text_lookup,
  text_remove, text_lookup-remove, text_insert, ok, arith,
}
use augecoin.Core.Account.{Account, increment_n_operation}
use augecoin.Core.Operation.{ChangerInfo}
use augecoin.Node.Execution.State.{Env, ExecState, ExecutionError, load_account, put_account}
use augecoin.Node.Execution.Steps.{
  change, changed, check_name_available, move_name_claim, validate_account_data_len,
}
use augecoin.Node.Execution.Money.{account_at, account_at-insert}
use augecoin.Node.Execution.Unsigned.{after_change, change-ok}

-- the overlays behind a change of a nameless account that claims a name
after_claim : Env → ChangerInfo → Bytes → Account → ExecState → ExecState
after_claim env c name acc s = record s {
  name_pending = text_insert name c.account s.name_pending;
  modified = insert c.account (increment_n_operation (changed env c acc)) s.modified;
}

change-claim :
    (env : Env) (wrong : ℕ → ℕ → ExecutionError) (c : ChangerInfo) (name : Bytes) (acc : Account)
    (s : ExecState)
    → lookup c.account s.modified ≡ some acc
    → c.n_operation ≡ acc.n_operation
    → c.new_name ≡ some name
    → acc.name ≡ none
    → text_lookup name env.existing_name_index ≡ none
    → text_lookup name s.name_pending ≡ none
    → length c.new_account_data ≤ 32
    → change env wrong c s ≡ ok (tt, after_claim env c name acc s)
unfolding change load_account check_name_available move_name_claim validate_account_data_len
    put_account after_claim
change-claim env wrong c name acc s found counter claims nameless stored pending short =
    ground arith

-- A change without a name takes the account's claim away, and the account keeps the name.
freed :
    (env : Env) (c : ChangerInfo) (name : Bytes) (acc : Account) (s : ExecState)
    → acc.name ≡ some name
    → text_lookup name (after_change env c acc s).name_pending ≡ none
unfolding after_change
freed env c name acc s named =
    ap
      (λ o.
        text_lookup name (elim o [ none ↦ s.name_pending | some n ↦ text_remove n s.name_pending ]))
      named
    ∙ text_lookup-remove name s.name_pending

-- Two accounts get one name in a block: where an account has a name that is not in the index of the
-- database, a changer of it without a new name, and then a changer of another account, which has
-- none, with that name are both executed, and both accounts have the name. The changers name the
-- counters of the accounts and have 32 bytes of data at most.
pub name_claimed_twice :
    (env : Env) (wrong : ℕ → ℕ → ExecutionError) (c d : ChangerInfo) (name : Bytes) (a b : Account)
    (s : ExecState)
    → lookup c.account s.modified ≡ some a
    → lookup d.account s.modified ≡ some b
    → d.account ≢ c.account
    → c.n_operation ≡ a.n_operation
    → d.n_operation ≡ b.n_operation
    → c.new_name ≡ none
    → d.new_name ≡ some name
    → a.name ≡ some name
    → b.name ≡ none
    → text_lookup name env.existing_name_index ≡ none
    → length c.new_account_data ≤ 32
    → length d.new_account_data ≤ 32
    → (t : ExecState) × ((u : ExecState) × ((change env wrong c s ≡ ok (tt, t))
          × ((change env wrong d t ≡ ok (tt, u))
              × (((account_at env u.modified c.account).name ≡ some name)
                  × ((account_at env u.modified d.account).name ≡ some name)))))
unfolding after_change after_claim changed increment_n_operation
name_claimed_twice env wrong c d name a b s here there other n m unnamed claims named nameless
      stored short₁ short₂ =
    let t = after_change env c a s in
    let a' = increment_n_operation (changed env c a) in
    let b' = increment_n_operation (changed env d b) in
    let still : lookup d.account t.modified ≡ some b =
      rw (lookup-insert d.account c.account a' s.modified) (ground (arith, other, there)) in
    (
      t,
      (
        after_claim env d name b t,
        (
          change-ok env wrong c a s here n unnamed short₁,
          (
            change-claim env wrong d name b t still m claims nameless stored
                (freed env c name a s named) short₂,
            (
              ground (
                arith,
                account_at-insert env t.modified d.account b' c.account,
                account_at-insert env s.modified c.account a' c.account,
                other,
                named,
                unnamed,
              ),
              ground (arith, account_at-insert env t.modified d.account b' d.account, claims),
            ),
          ),
        ),
      ),
    )
