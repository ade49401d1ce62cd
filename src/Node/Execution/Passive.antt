-- ===== src/Node/Execution/Passive.antt =====
-- crates/augecoin-node/src/execution.rs, `Transaction`: the accounts that neither send nor receive.
use augecoin.Base.{
  ℕ, ◌-◌, ◌+◌, ◌≡◌, ◌∙◌, sym, ap, refl, false, List, [], ◌∷◌, ◌==◌, insert, map, Result, ok, err,
  OnOk, OnOk-map, All, arith, Bool-cases, inl, inr, ==_iff, saturating_add,
}
use augecoin.Core.Account.{AccountState, Account, increment_n_operation}
use augecoin.Core.Operation.{SenderInfo, ReceiverInfo, ChangerInfo}
use augecoin.Node.Execution.State.{
  Env, ExecState, Exec, each, load_account, ◌>>◌, pure, operation_failed,
  invalid_changer_n_operation,
}
use augecoin.Node.Execution.Steps.{
  debit_active, credit_active, change, is_passive, validate_transfer_conservation,
}
use augecoin.Node.Execution.Transfers.{amount_sent, amount_received, execute_transaction}
use augecoin.Node.Execution.Rules.{then-OnOk}
use augecoin.Node.Execution.Money.{account_at, account_at-insert}
use augecoin.Node.Execution.Money.Conservation.{validate_transfer_conservation-OnOk}
use augecoin.Node.Execution.Replay.Once.{debit_active-writes, credit_active-writes}

module _ (env : Env) where
  abbrev pub state_of : ExecState → ℕ → AccountState
  state_of s n = (account_at env s.modified n).account_info.state

  abbrev pub MayMove : ExecState → ℕ → Type 0
  MayMove s n = is_passive (state_of s n) ≡ false

  abbrev SameStates : ExecState → ExecState → Type 0
  SameStates s t = (n : ℕ) → state_of t n ≡ state_of s n

  same-insert :
      (account : ℕ) (a : Account) (s t : ExecState)
      → t.modified ≡ insert account a s.modified
      → a.account_info.state ≡ state_of s account
      → SameStates s t
  same-insert account a s t written same n =
      ap (λ m. (account_at env m n).account_info.state) written ∙ inserted
    where
      inserted : (account_at env (insert account a s.modified) n).account_info.state ≡ state_of s n
      inserted =
          rw (account_at-insert env s.modified account a n) (elim (Bool-cases (n == account)) [
            | inl e ↦ rw e (same ∙ ap (state_of s) (sym ((==_iff n account).0 e)))
            | inr e ↦ rw e refl
          ])

  debit_active-MayMove :
      (fee : ℕ) (x : SenderInfo) (s : ExecState)
      → OnOk (λ r. MayMove s x.account) (debit_active env fee x s)
  unfolding debit_active load_account account_at
  debit_active-MayMove fee x s = ground arith

  credit_active-MayMove :
      (x : ReceiverInfo) (s : ExecState) → OnOk (λ r. MayMove s x.account) (credit_active env x s)
  unfolding credit_active load_account account_at
  credit_active-MayMove x s = ground arith

  OnOk-always : {A E : Type 0} {P : Type 0} (r : Result E A) → P → OnOk (λ _. P) r
  OnOk-always (ok a) p = p
  OnOk-always (err e) p = tt

  OnOk-both :
      {A E : Type 0} (P Q : A → Type 0) (r : Result E A)
      → OnOk P r
      → OnOk Q r
      → OnOk (λ a. P a × Q a) r
  OnOk-both P Q (ok a) p q = (p, q)
  OnOk-both P Q (err e) p q = tt

  debit_active-SameStates :
      (fee : ℕ) (x : SenderInfo) (s : ExecState)
      → OnOk (λ r. SameStates s r.1) (debit_active env fee x s)
  unfolding increment_n_operation
  debit_active-SameStates fee x s =
      OnOk-map _ _ (debit_active env fee x s)
        (λ (_, t) (written, _).
          let acc = account_at env s.modified x.account in
          same-insert x.account
            (increment_n_operation
              (record acc { balance = acc.balance - saturating_add x.amount fee }))
            s t written refl)
        (debit_active-writes env fee x s)

  credit_active-SameStates :
      (x : ReceiverInfo) (s : ExecState) → OnOk (λ r. SameStates s r.1) (credit_active env x s)
  credit_active-SameStates x s =
      OnOk-map _ _ (credit_active env x s)
        (λ (_, t) written.
          let acc = account_at env s.modified x.account in
          same-insert x.account (record acc { balance = acc.balance + x.amount }) s t written refl)
        (credit_active-writes env x s)

  -- A loop whose steps ask for an account that may move and leave the states as they are.
  each-MayMove :
      {A : Type 0} (number : A → ℕ) (step : A → Exec (Unit {0}))
      → ((x : A) (s : ExecState) → OnOk (λ r. MayMove s (number x)) (step x s))
      → ((x : A) (s : ExecState) → OnOk (λ r. SameStates s r.1) (step x s))
      → (xs : List A) (s t : ExecState) → SameStates s t
      → OnOk (λ r. All (λ x. MayMove s (number x)) xs × SameStates s r.1) (each step xs t)
  unfolding each
  each-MayMove number step may same [] s t e = (tt, e)
  each-MayMove number step may same (x ∷ xs) s t e =
      then-OnOk _ _ (step x) (each step xs) t
        (OnOk-both (λ _. MayMove t (number x)) (λ r. SameStates t r.1) (step x t) (may x t)
          (same x t))
        (λ _ u (moves, f).
          OnOk-map _ _ (each step xs u)
            (λ _ (all_move, g). ((rw (← e (number x)) moves, all_move), g))
            (each-MayMove number step may same xs s u (λ n. f n ∙ e n)))

  -- A transaction that does not fail has no sender and no receiver that was Reserved or GiftPending
  -- before it.
  pub execute_transaction-MayMove :
      (senders : List SenderInfo) (receivers : List ReceiverInfo) (changers : List ChangerInfo)
      (fee : ℕ) (s : ExecState)
      → OnOk
          (λ r.
            All (λ (x : SenderInfo). MayMove s x.account) senders
            × All (λ (x : ReceiverInfo). MayMove s x.account) receivers)
          (execute_transaction env senders receivers changers fee s)
  unfolding execute_transaction
  execute_transaction-MayMove senders receivers changers fee s =
      then-OnOk _ _
        (validate_transfer_conservation (map amount_sent senders) (map amount_received receivers)) _
        s
        (validate_transfer_conservation-OnOk (map amount_sent senders)
          (map amount_received receivers) s)
        (λ _ t (same, _).
          then-OnOk _ _ (each (debit_active env fee) senders) _ t
            (each-MayMove (λ (x : SenderInfo). x.account) (debit_active env fee)
              (debit_active-MayMove fee) (debit_active-SameStates fee) senders s t
              (λ n. ap (λ u. state_of u n) same))
            (λ _ u (sent, e).
              then-OnOk _ _ (each (credit_active env) receivers) _ u
                (each-MayMove (λ (x : ReceiverInfo). x.account) (credit_active env)
                  credit_active-MayMove credit_active-SameStates receivers s u e)
                (λ _ v (received, _).
                  OnOk-always
                    ((each
                          (λ (c : ChangerInfo).
                            change env
                              (λ expected got.
                                operation_failed c.account
                                  (invalid_changer_n_operation expected got))
                              c)
                          changers
                        >> pure fee)
                      v)
                    (sent, received))))
