-- ===== src/Node/Execution/Replay/Once.antt =====
-- crates/augecoin-node/src/execution.rs, `Transaction`: a transaction is executed once.
use augecoin.Base.{
  ℕ, suc, ◌+◌, ◌-◌, ◌≤◌, ◌<◌, ◌≡◌, sym, subst, ap, refl, List, [], ◌∷◌, ◌==◌, insert, map, OnOk,
  OnOk-map, IsErr, arith, Bool-cases, inl, inr, ==_iff, u64_max, saturating_add,
}
use augecoin.Core.Account.{Account, subtract_balance, add_balance, increment_n_operation}
use augecoin.Core.Operation.{SenderInfo, ReceiverInfo, ChangerInfo, OperationPayload, Operation}
use augecoin.Node.Execution.State.{
  Env, ExecState, ExecutionError, pure, each, load_account, put_account, operation_failed,
  invalid_changer_n_operation,
}
use augecoin.Node.Execution.Steps.{
  debit_active, debit_loaded, credit_active, credit_loaded, change, changed,
  validate_transfer_conservation,
}
use augecoin.Node.Execution.Transfers.{amount_sent, amount_received, execute_transaction}
use augecoin.Node.Execution.Contracts.{execute_payload}
use augecoin.Node.Execution.Rules.{then-OnOk, each-keeps}
use augecoin.Node.Execution.Money.Transfer.{changer_writes}
use augecoin.Node.Execution.Money.{account_at, account_at-insert}
use augecoin.Node.Execution.Replay.{counter_of, kept, execute_payload-Stale}

module _ (env : Env) where
  -- The counter of account `k` is at least `bound`.
  abbrev AtLeast : ℕ → ℕ → ExecState → Type 0
  AtLeast k bound s = bound ≤ (account_at env s.modified k).n_operation

  -- Every counter is a `u64`.
  abbrev pub CountersFit : ExecState → Type 0
  CountersFit s = (n : ℕ) → (account_at env s.modified n).n_operation ≤ u64_max

  -- A write that does not lower the counter lowers no counter.
  AtLeast-insert :
      (account k bound : ℕ) (a : Account) (s t : ExecState)
      → t.modified ≡ insert account a s.modified
      → (account_at env s.modified account).n_operation ≤ a.n_operation
      → AtLeast k bound s
      → AtLeast k bound t
  AtLeast-insert account k bound a s t written up start =
      rw (written, account_at-insert env s.modified account a k)
        (elim (Bool-cases (k == account)) [
          | inl e ↦ rw e (
              omega (
                arith,
                up,
                start,
                ap (λ n. (account_at env s.modified n).n_operation) ((==_iff k account).0 e),
              ))
          | inr e ↦ rw e start
        ])

  fit-insert :
      (account : ℕ) (a : Account) (s t : ExecState)
      → t.modified ≡ insert account a s.modified
      → a.n_operation ≤ u64_max
      → CountersFit s
      → CountersFit t
  fit-insert account a s t written small fit n =
      rw (written, account_at-insert env s.modified account a n)
        (elim (Bool-cases (n == account)) [ inl e ↦ rw e small | inr e ↦ rw e (fit n) ])

  abbrev Kept : ℕ → ℕ → ExecState → Type 0
  Kept k bound s = AtLeast k bound s × CountersFit s

  pub debit_active-writes :
      (fee : ℕ) (x : SenderInfo) (s : ExecState)
      → OnOk
          (λ r.
            let acc = account_at env s.modified x.account in
            (r.1.modified
              ≡ insert x.account
                  (increment_n_operation
                    (record acc { balance = acc.balance - saturating_add x.amount fee }))
                  s.modified)
            × (acc.n_operation ≡ x.n_operation))
          (debit_active env fee x s)
  unfolding debit_active debit_loaded load_account account_at put_account subtract_balance
  debit_active-writes fee x s = ground arith

  pub credit_active-writes :
      (x : ReceiverInfo) (s : ExecState)
      → OnOk
          (λ r.
            let acc = account_at env s.modified x.account in
            r.1.modified
            ≡ insert x.account (record acc { balance = acc.balance + x.amount }) s.modified)
          (credit_active env x s)
  unfolding credit_active credit_loaded load_account account_at put_account add_balance
  credit_active-writes x s = ground arith

  incremented :
      (a : Account)
      → a.n_operation < u64_max
      → (increment_n_operation a).n_operation ≡ suc a.n_operation
  unfolding increment_n_operation saturating_add
  incremented a small = ground arith

  increment_up :
      (a : Account)
      → a.n_operation ≤ u64_max
      → a.n_operation ≤ (increment_n_operation a).n_operation
  unfolding increment_n_operation saturating_add
  increment_up a small = ground arith

  increment_fit : (a : Account) → (increment_n_operation a).n_operation ≤ u64_max
  unfolding increment_n_operation saturating_add
  increment_fit a = ground arith

  -- The sender's counter is the one it names, and goes up; no counter goes down.
  debit_active-Kept :
      (fee k bound : ℕ) (x : SenderInfo) (s : ExecState)
      → Kept k bound s
      → OnOk (λ r. Kept k bound r.1) (debit_active env fee x s)
  debit_active-Kept fee k bound x s (start, fit) =
      OnOk-map _ _ (debit_active env fee x s)
        (λ (_, t) (written, _).
          let acc = account_at env s.modified x.account in
          let new = record acc { balance = acc.balance - saturating_add x.amount fee } in
          (
            AtLeast-insert x.account k bound (increment_n_operation new) s t written
                (increment_up new (fit x.account)) start,
            fit-insert x.account (increment_n_operation new) s t written (increment_fit new) fit,
          ))
        (debit_active-writes fee x s)

  debit_active-counts :
      (fee : ℕ) (x : SenderInfo) (s : ExecState)
      → x.n_operation < u64_max
      → CountersFit s
      → OnOk (λ r. Kept x.account (suc x.n_operation) r.1) (debit_active env fee x s)
  debit_active-counts fee x s small fit =
      OnOk-map _ _ (debit_active env fee x s)
        (λ (_, t) (written, named).
          let acc = account_at env s.modified x.account in
          let new = record acc { balance = acc.balance - saturating_add x.amount fee } in
          (
            rw
                (
                  written,
                  account_at-insert env s.modified x.account (increment_n_operation new) x.account,
                  (==_iff x.account x.account).1 refl,
                  incremented new (rw named small),
                  named,
                )
                (omega arith),
            fit-insert x.account (increment_n_operation new) s t written (increment_fit new) fit,
          ))
        (debit_active-writes fee x s)

  credit_active-Kept :
      (k bound : ℕ) (x : ReceiverInfo) (s : ExecState)
      → Kept k bound s
      → OnOk (λ r. Kept k bound r.1) (credit_active env x s)
  credit_active-Kept k bound x s (start, fit) =
      OnOk-map _ _ (credit_active env x s)
        (λ (_, t) written.
          let acc = account_at env s.modified x.account in
          let new = record acc { balance = acc.balance + x.amount } in
          (
            AtLeast-insert x.account k bound new s t written (omega arith) start,
            fit-insert x.account new s t written (fit x.account) fit,
          ))
        (credit_active-writes x s)

  change-Kept :
      (wrong : ℕ → ℕ → ExecutionError) (k bound : ℕ) (c : ChangerInfo) (s : ExecState)
      → Kept k bound s
      → OnOk (λ r. Kept k bound r.1) (change env wrong c s)
  unfolding changed
  change-Kept wrong k bound c s (start, fit) =
      OnOk-map _ _ (change env wrong c s)
        (λ (_, t) written.
          let new = changed env c (account_at env s.modified c.account) in
          (
            AtLeast-insert c.account k bound (increment_n_operation new) s t written
                (increment_up new (fit c.account)) start,
            fit-insert c.account (increment_n_operation new) s t written (increment_fit new) fit,
          ))
        (changer_writes env [] wrong c s)

  -- A transaction with a sender is executed once: where every counter is a `u64` and the one that
  -- the first sender names is not the largest, the same transaction fails on the accounts that a
  -- successful execution leaves.
  pub execute_transaction_replayed :
      (x : SenderInfo) (ss : List SenderInfo) (rs : List ReceiverInfo) (cs : List ChangerInfo)
      (fee : ℕ) (op : Operation) (s : ExecState)
      → x.n_operation < u64_max
      → CountersFit s
      → OnOk
          (λ r.
            IsErr (execute_payload env op (OperationPayload.transaction (x ∷ ss) rs cs fee) r.1))
          (execute_payload env op (OperationPayload.transaction (x ∷ ss) rs cs fee) s)
  unfolding execute_payload execute_transaction each counter_of
  execute_transaction_replayed x ss rs cs fee op s small fit =
      let k = x.account in
      let bound = suc x.n_operation in
      let p = OperationPayload.transaction (x ∷ ss) rs cs fee in
      OnOk-map (λ (r : ℕ × ExecState). Kept k bound r.1) _ (execute_payload env op p s)
        (λ (_, t) (up, _).
          execute_payload-Stale env op p t
            (λ e. absurd (not_itself (account_at env t.modified k).n_operation x.n_operation e up)))
        (then-OnOk _ _
          (validate_transfer_conservation (map amount_sent (x ∷ ss)) (map amount_received rs)) _ s
          (kept env (map amount_sent (x ∷ ss)) (map amount_received rs) s)
          (λ _ t same.
            then-OnOk (λ r. Kept k bound r.1) _ (each (debit_active env fee) (x ∷ ss)) _ t
              (then-OnOk (λ r. Kept k bound r.1) (λ r. Kept k bound r.1) (debit_active env fee x)
                (each (debit_active env fee) ss) t
                (debit_active-counts fee x t small (subst CountersFit (sym same) fit))
                (λ _ u h.
                  each-keeps (Kept k bound) (debit_active env fee) (debit_active-Kept fee k bound)
                    ss u h))
              (λ _ u h.
                then-OnOk (λ r. Kept k bound r.1) _ (each (credit_active env) rs) _ u
                  (each-keeps (Kept k bound) (credit_active env) (credit_active-Kept k bound) rs u
                    h)
                  (λ _ v i.
                    then-OnOk (λ r. Kept k bound r.1) _
                      (each (λ (c : ChangerInfo). change env (wrong c) c) cs) (pure fee) v
                      (each-keeps (Kept k bound) (λ (c : ChangerInfo). change env (wrong c) c)
                        (λ c. change-Kept (wrong c) k bound c) cs v i)
                      (λ _ w j. j)))))
    where
      wrong : ChangerInfo → ℕ → ℕ → ExecutionError
      wrong c expected got = operation_failed c.account (invalid_changer_n_operation expected got)

      not_itself : (a b : ℕ) → a ≡ b → suc b ≤ a → ⊥
      not_itself a b e h = omega (arith, e, h)
