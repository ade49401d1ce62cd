-- ===== src/Node/Execution/Money/Payment.antt =====
-- crates/augecoin-node/src/execution.rs, `BuyAccount`: the accounts that a purchase writes.
use augecoin.Base.{
  ℕ, ◌+◌, ◌-◌, ◌≤◌, ◌<◌, ◌≡◌, ◌∙◌, ap, ◌==◌, not, Dict, insert, OnOk, OnOk-map, arith, checked_add,
  u64_max,
}
use augecoin.Core.Account.{Account, subtract_balance, add_balance, increment_n_operation}
use augecoin.Core.Operation.{Purchase}
use augecoin.Node.Execution.State.{
  Env, ExecState, ◌>>=◌, ◌>>◌, pure, lift, Reason, operation_failed, fail_if, Exec, load_account,
  put_account,
}
use augecoin.Node.Execution.Accounts.{sold, check_listing, or_max, execute_buy_account}
use augecoin.Node.Execution.Rules.{bind-OnOk, then-OnOk}
use augecoin.Node.Execution.Money.{load_account-OnOk, account_at}

module _ (env : Env) where
  -- The buyer after the payment, and the accounts with it.
  unfoldable pub paid : Purchase → Account → Account
  paid p buyer =
      increment_n_operation (record buyer { balance = buyer.balance - (p.amount + p.fee) })

  unfoldable pub after_payment : Purchase → Dict Account → Dict Account
  after_payment p m = insert p.buyer_account (paid p (account_at env m p.buyer_account)) m

  unfoldable pub after_credit : ℕ → ℕ → Dict Account → Dict Account
  after_credit seller amount m =
      let acc = account_at env m seller in
      insert seller (record acc { balance = acc.balance + amount }) m

  -- the account that a listing of the purchased one names
  abbrev pub payee : Purchase → ExecState → ℕ
  payee p s = (account_at env s.modified p.account_to_purchase).account_info.account_to_pay

  -- the steps behind the buyer's check
  settle : Purchase → Account → Account → Exec ℕ
  settle p target buyer = do
    put_account p.buyer_account (increment_n_operation buyer)
    seller ← load_account env target.account_info.account_to_pay
    richer ←
        lift (add_balance p.amount seller)
          (λ e. operation_failed target.account_info.account_to_pay (Reason.balance e))
    put_account target.account_info.account_to_pay richer
    put_account p.account_to_purchase (sold env p target)
    pure p.fee

  shape : Purchase → Account → Account → Dict Account → Dict Account
  shape p target buyer m = insert p.account_to_purchase (sold env p target) (
      after_credit target.account_info.account_to_pay p.amount
        (insert p.buyer_account (increment_n_operation buyer) m))

  rewritten :
      (p : Purchase) {a a' b b' : Account} {m m' : Dict Account}
      → a ≡ a'
      → b ≡ b'
      → m ≡ m'
      → shape p a b m ≡ shape p a' b' m'
  rewritten p {a} {a'} {b} {b'} {m} {m'} e f g =
      ap (λ x. shape p x b m) e ∙ ap (λ x. shape p a' x m) f ∙ ap (shape p a' b') g

  settle-writes :
      (p : Purchase) (target buyer : Account) (s : ExecState)
      → OnOk
          (λ r. (r.0 ≡ p.fee) × (r.1.modified ≡ shape p target buyer s.modified))
          (settle p target buyer s)
  unfolding settle shape load_account account_at put_account add_balance after_credit
  settle-writes p target buyer s = ground arith

  check_listing-OnOk :
      (p : Purchase) (target : Account) (s : ExecState)
      → OnOk (λ r. r.1 ≡ s) (check_listing env p target s)
  unfolding check_listing
  check_listing-OnOk p target s = ground arith

  payment-OnOk :
      (p : Purchase) (buyer : Account) (s : ExecState)
      → buyer.balance < u64_max
      → OnOk
          (λ r.
            (r.1 ≡ s)
            × ((r.0 ≡ record buyer { balance = buyer.balance - (p.amount + p.fee) })
                × (p.amount + p.fee ≤ buyer.balance)))
          (lift
            (subtract_balance (or_max env (checked_add p.amount p.fee)) buyer)
            (λ e. operation_failed p.buyer_account (Reason.balance e))
            s)
  unfolding subtract_balance checked_add
  payment-OnOk p buyer s small = ground arith

  pub buy_account-writes :
      (p : Purchase) (s : ExecState)
      → (account_at env s.modified p.buyer_account).balance < u64_max
      → OnOk
          (λ r.
            (r.0 ≡ p.fee)
            × ((r.1.modified
                  ≡ insert p.account_to_purchase
                      (sold env p (account_at env s.modified p.account_to_purchase))
                      (after_credit (payee p s) p.amount (after_payment p s.modified)))
                × (p.amount + p.fee ≤ (account_at env s.modified p.buyer_account).balance)))
          (execute_buy_account env p s)
  unfolding execute_buy_account paid after_payment settle shape
  buy_account-writes p s small =
      bind-OnOk _ _ (load_account env p.account_to_purchase) _ s
        (load_account-OnOk env p.account_to_purchase s)
        (λ target t (e, same).
          then-OnOk _ _ (check_listing env p target) _ t (check_listing-OnOk p target t)
            (λ _ t' same'.
              bind-OnOk _ _ (load_account env p.buyer_account) _ t'
                (load_account-OnOk env p.buyer_account t')
                (λ buyer u (f, kept).
                  then-OnOk (λ r. r.1 ≡ u) _
                    (fail_if (not (p.n_operation == buyer.n_operation)) (
                      operation_failed p.buyer_account
                        (Reason.invalid_n_operation buyer.n_operation p.n_operation)))
                    _ u (ground arith)
                    (λ _ v still.
                      let b : buyer ≡ account_at env s.modified p.buyer_account =
                        f
                        ∙ ap (λ m. account_at env m p.buyer_account)
                            (ap (λ (x : ExecState). x.modified) same' ∙ same) in
                      bind-OnOk _ _
                        (lift (subtract_balance (or_max env (checked_add p.amount p.fee)) buyer) _)
                        _ v (payment-OnOk p buyer v (rw b small))
                        (λ after w (same'', (g, covered)).
                          let m : w.modified ≡ s.modified =
                            ap (λ (x : ExecState). x.modified) same''
                            ∙ ap (λ (x : ExecState). x.modified) still
                            ∙ kept
                            ∙ ap (λ (x : ExecState). x.modified) same'
                            ∙ same in
                          OnOk-map _ _ (settle p target after w)
                            (λ (_, x) (fee, written). (
                              fee,
                              (
                                written
                                    ∙ rewritten p e
                                        (g
                                          ∙ ap
                                              (λ (a : Account). record a {
                                                balance = a.balance - (p.amount + p.fee);
                                              })
                                              b)
                                        m,
                                rw (← b) covered,
                              ),
                            ))
                            (settle-writes p target after w))))))
