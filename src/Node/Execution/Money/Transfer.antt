-- ===== src/Node/Execution/Money/Transfer.antt =====
-- The AUGE of the accounts through the operations that move it.
use augecoin.Base.{
  ℕ, ◌+◌, ◌-◌, ◌≤◌, ◌<◌, ◌≡◌, refl, sym, ap, ◌∙◌, List, insert, OnOk, OnOk-map, arith, u64_max,
  saturating_add,
}
use augecoin.Core.Account.{Account, increment_n_operation}
use augecoin.Core.Operation.{SenderInfo, ReceiverInfo, ChangerInfo}
use augecoin.Node.Execution.State.{Env, ExecState, ExecutionError, load_account, fail_if}
use augecoin.Node.Execution.Steps.{
  debit_loaded, debit_active, debit, credit_loaded, credit_active, credit, change, changed,
  check_name_available, move_name_claim, validate_account_data_len, is_passive,
}
use augecoin.Node.Execution.Rules.{bind-OnOk, then-OnOk}
use augecoin.Node.Execution.Money.{
  Once, account_at, load_account-OnOk, total, total-insert, balance-le-total,
}

module _ (env : Env) where
  -- What a sender's account is after its turn.
  pub debited : ℕ → SenderInfo → Account → Account
  debited fee sender acc =
      increment_n_operation
        (record acc { balance = acc.balance - saturating_add sender.amount fee })

  debit_loaded-OnOk :
      (fee : ℕ) (sender : SenderInfo) (acc : Account) (s : ExecState)
      → OnOk
          (λ r.
            (r.1.modified ≡ insert sender.account (debited fee sender acc) s.modified)
            × (saturating_add sender.amount fee ≤ acc.balance))
          (debit_loaded env fee sender acc s)
  unfolding debit_loaded debited
  debit_loaded-OnOk fee sender acc s = ground arith

  balance-debited :
      (fee : ℕ) (sender : SenderInfo) (acc : Account)
      → (debited fee sender acc).balance ≡ acc.balance - saturating_add sender.amount fee
  unfolding debited increment_n_operation
  balance-debited fee sender acc = refl

  -- A saturated sum is `u64::MAX`.
  saturating_add-lt : (a b : ℕ) → saturating_add a b < u64_max → saturating_add a b ≡ a + b
  unfolding saturating_add
  saturating_add-lt a b h = ground arith

  module _ (ns : List ℕ) where
    -- A sender pays its amount and the fee.
    debit_loaded-total :
        (fee : ℕ) (sender : SenderInfo) (acc : Account) (s : ExecState)
        → Once sender.account ns
        → total env s.modified ns < u64_max
        → acc ≡ account_at env s.modified sender.account
        → OnOk
            (λ r. total env r.1.modified ns + (sender.amount + fee) ≡ total env s.modified ns)
            (debit_loaded env fee sender acc s)
    debit_loaded-total fee sender acc s once room e =
        OnOk-map _ _ (debit_loaded env fee sender acc s)
          (λ (_, t) (written, covered).
            let new = debited fee sender acc in
            rw written (
              omega (
                arith,
                total-insert env s.modified sender.account new ns once,
                balance-debited fee sender acc,
                ap (λ (a : Account). a.balance) e,
                balance-le-total env s.modified sender.account ns once,
                saturating_add-lt sender.amount fee,
                covered,
              )))
          (debit_loaded-OnOk fee sender acc s)

    pub debit-total :
        (fee : ℕ) (sender : SenderInfo) (s : ExecState)
        → Once sender.account ns
        → total env s.modified ns < u64_max
        → OnOk
            (λ r. total env r.1.modified ns + (sender.amount + fee) ≡ total env s.modified ns)
            (debit env fee sender s)
    unfolding debit
    debit-total fee sender s once room =
        bind-OnOk _ _ (load_account env sender.account) (debit_loaded env fee sender) s
          (load_account-OnOk env sender.account s)
          (λ acc t (e, same). rw (← same) (
            debit_loaded-total fee sender acc t once (rw same room)
              (e ∙ ap (λ m. account_at env m sender.account) (sym same))))

    pub debit_active-total :
        (fee : ℕ) (sender : SenderInfo) (s : ExecState)
        → Once sender.account ns
        → total env s.modified ns < u64_max
        → OnOk
            (λ r. total env r.1.modified ns + (sender.amount + fee) ≡ total env s.modified ns)
            (debit_active env fee sender s)
    unfolding debit_active
    debit_active-total fee sender s once room =
        bind-OnOk _ _ (load_account env sender.account) _ s (load_account-OnOk env sender.account s)
          (λ acc t (e, same).
            then-OnOk (λ r. r.1 ≡ t) _ (fail_if (is_passive acc.account_info.state) _)
              (debit_loaded env fee sender acc) t (ground arith)
              (λ _ u p. rw p (
                rw (← same) (
                  debit_loaded-total fee sender acc t once (rw same room)
                    (e ∙ ap (λ m. account_at env m sender.account) (sym same))))))

    credited :
        (receiver : ReceiverInfo) (acc : Account) (s : ExecState)
        → OnOk
            (λ r.
              r.1.modified
              ≡ insert receiver.account
                  (record acc { balance = acc.balance + receiver.amount })
                  s.modified)
            (credit_loaded env receiver acc s)
    unfolding credit_loaded
    credited receiver acc s = ground arith

    -- A receiver gains its amount.
    credit_loaded-total :
        (receiver : ReceiverInfo) (acc : Account) (s : ExecState)
        → Once receiver.account ns
        → acc ≡ account_at env s.modified receiver.account
        → OnOk
            (λ r. total env r.1.modified ns ≡ total env s.modified ns + receiver.amount)
            (credit_loaded env receiver acc s)
    credit_loaded-total receiver acc s once e =
        OnOk-map _ _ (credit_loaded env receiver acc s)
          (λ (_, t) written.
            let new = record acc { balance = acc.balance + receiver.amount } in
            rw written (
              omega (
                arith,
                total-insert env s.modified receiver.account new ns once,
                ap (λ (a : Account). a.balance) e,
              )))
          (credited receiver acc s)

    pub credit_active-total :
        (receiver : ReceiverInfo) (s : ExecState)
        → Once receiver.account ns
        → OnOk
            (λ r. total env r.1.modified ns ≡ total env s.modified ns + receiver.amount)
            (credit_active env receiver s)
    unfolding credit_active
    credit_active-total receiver s once =
        bind-OnOk _ _ (load_account env receiver.account) _ s
          (load_account-OnOk env receiver.account s)
          (λ acc t (e, same).
            then-OnOk (λ r. r.1 ≡ t) _ (fail_if (is_passive acc.account_info.state) _)
              (credit_loaded env receiver acc) t (ground arith)
              (λ _ u p. rw p (
                rw (← same) (
                  credit_loaded-total receiver acc t once
                    (e ∙ ap (λ m. account_at env m receiver.account) (sym same))))))

    pub credit-total :
        (receiver : ReceiverInfo) (s : ExecState)
        → Once receiver.account ns
        → OnOk
            (λ r. total env r.1.modified ns ≡ total env s.modified ns + receiver.amount)
            (credit env receiver s)
    unfolding credit
    credit-total receiver s once =
        bind-OnOk _ _ (load_account env receiver.account) (credit_loaded env receiver) s
          (load_account-OnOk env receiver.account s)
          (λ acc t (e, same). rw (← same) (
            credit_loaded-total receiver acc t once
              (e ∙ ap (λ m. account_at env m receiver.account) (sym same))))

    -- What a changer writes has the balance that the account had.
    pub changer_writes :
        (wrong : ℕ → ℕ → ExecutionError) (changer : ChangerInfo) (s : ExecState)
        → OnOk
            (λ r.
              r.1.modified
              ≡ insert changer.account
                  (increment_n_operation
                    (changed env changer (account_at env s.modified changer.account)))
                  s.modified)
            (change env wrong changer s)
    unfolding change load_account account_at check_name_available move_name_claim
        validate_account_data_len
    changer_writes wrong changer s = ground arith

    pub change-total :
        (wrong : ℕ → ℕ → ExecutionError) (changer : ChangerInfo) (s : ExecState)
        → Once changer.account ns
        → OnOk
            (λ r. total env r.1.modified ns ≡ total env s.modified ns)
            (change env wrong changer s)
    unfolding changed increment_n_operation
    change-total wrong changer s once =
        OnOk-map _ _ (change env wrong changer s)
          (λ (_, t) written. rw written (
            omega (
              arith,
              total-insert env s.modified changer.account
                  (increment_n_operation
                    (changed env changer (account_at env s.modified changer.account)))
                  ns once,
            )))
          (changer_writes wrong changer s)
