-- ===== src/Node/Execution/Money/Purchase.antt =====
-- crates/augecoin-node/src/execution.rs, `BuyAccount`: the AUGE of the accounts through a purchase.
use augecoin.Base.{ℕ, ◌+◌, ◌≤◌, ◌<◌, ◌≡◌, ◌≢◌, sym, subst, ap, List, OnOk, OnOk-map, arith, u64_max}
use augecoin.Core.Account.{increment_n_operation}
use augecoin.Core.Operation.{Purchase}
use augecoin.Node.Execution.State.{Env, ExecState}
use augecoin.Node.Execution.Accounts.{sold, execute_buy_account}
use augecoin.Node.Execution.Money.{
  Once, account_at, account_at-insert, total, total-insert, balance-le-total,
}
use augecoin.Node.Execution.Money.Payment.{
  paid, after_payment, after_credit, payee, buy_account-writes,
}

module _ (env : Env) where
  module _ (ns : List ℕ) where
    -- The total after the payment and the credit.
    after_credit-total :
        (p : Purchase) (s : ExecState)
        → Once p.buyer_account ns
        → Once (payee env p s) ns
        → p.amount + p.fee ≤ (account_at env s.modified p.buyer_account).balance
        → total env (after_credit env (payee env p s) p.amount (after_payment env p s.modified)) ns
            + p.fee
          ≡ total env s.modified ns
    unfolding after_credit after_payment paid increment_n_operation
    after_credit-total p s buyer seller covered =
        let m = after_payment env p s.modified in
        let payer = account_at env s.modified p.buyer_account in
        let gains = account_at env m (payee env p s) in
        omega (
          arith,
          total-insert env m (payee env p s) (record gains { balance = gains.balance + p.amount })
              ns seller,
          total-insert env s.modified p.buyer_account (paid env p payer) ns buyer,
          covered,
        )

    -- What the stale copy of the purchased account brings back.
    buy_account-total_stale :
        (p : Purchase) (s : ExecState)
        → Once p.buyer_account ns
        → Once (payee env p s) ns
        → Once p.account_to_purchase ns
        → total env s.modified ns < u64_max
        → OnOk
            (λ r.
              let m = after_credit env (payee env p s) p.amount (after_payment env p s.modified) in
              (r.0 ≡ p.fee)
              × ((total env r.1.modified ns
                      + p.fee
                      + (account_at env m p.account_to_purchase).balance
                    ≡ total env s.modified ns
                      + (account_at env s.modified p.account_to_purchase).balance)
                  × (p.amount + p.fee ≤ (account_at env s.modified p.buyer_account).balance)))
            (execute_buy_account env p s)
    unfolding sold
    buy_account-total_stale p s buyer seller bought room =
        OnOk-map _ _ (execute_buy_account env p s)
          (λ (_, t) (fee, (written, covered)).
            let m = after_credit env (payee env p s) p.amount (after_payment env p s.modified) in
            (
              fee,
              (
                rw written (
                    omega (
                      arith,
                      total-insert env m p.account_to_purchase
                          (sold env p (account_at env s.modified p.account_to_purchase)) ns bought,
                      after_credit-total p s buyer seller covered,
                    )),
                covered,
              ),
            ))
          (buy_account-writes env p s
            (omega (arith, balance-le-total env s.modified p.buyer_account ns buyer, room)))

    -- A purchase of an account that is neither the buyer's nor the payee's, and that does not fail,
    -- takes the fee, and nothing else, out of the accounts, where the three accounts are listed
    -- once and the listed accounts hold less than 2^64 - 1 AUGE.
    pub buy_account-total :
        (p : Purchase) (s : ExecState)
        → Once p.buyer_account ns
        → Once (payee env p s) ns
        → Once p.account_to_purchase ns
        → p.account_to_purchase ≢ p.buyer_account
        → p.account_to_purchase ≢ payee env p s
        → total env s.modified ns < u64_max
        → OnOk
            (λ r. (r.0 ≡ p.fee) × (total env r.1.modified ns + p.fee ≡ total env s.modified ns))
            (execute_buy_account env p s)
    unfolding after_credit after_payment
    buy_account-total p s buyer seller bought other not_paid room =
        OnOk-map _ _ (execute_buy_account env p s)
          (λ (_, t) (fee, (moved, covered)).
            let m = after_payment env p s.modified in
            let gains = account_at env m (payee env p s) in
            (
              fee,
              ground (
                arith,
                moved,
                account_at-insert env m (payee env p s)
                    (record gains { balance = gains.balance + p.amount }) p.account_to_purchase,
                account_at-insert env s.modified p.buyer_account
                    (paid env p (account_at env s.modified p.buyer_account)) p.account_to_purchase,
                other,
                not_paid,
              ),
            ))
          (buy_account-total_stale p s buyer seller bought room)

    -- The buyer of the own account gets the price back: where the account that is bought is the
    -- buyer's, and its payee is another one, a purchase that does not fail adds its price to the
    -- accounts and hands on a fee that nobody paid. The two accounts are listed once and the listed
    -- accounts hold less than 2^64 - 1 AUGE.
    pub buy_own_account-total :
        (p : Purchase) (s : ExecState)
        → Once p.buyer_account ns
        → Once (payee env p s) ns
        → p.account_to_purchase ≡ p.buyer_account
        → p.account_to_purchase ≢ payee env p s
        → total env s.modified ns < u64_max
        → OnOk
            (λ r. (r.0 ≡ p.fee) × (total env r.1.modified ns ≡ total env s.modified ns + p.amount))
            (execute_buy_account env p s)
    unfolding after_credit after_payment paid increment_n_operation
    buy_own_account-total p s buyer seller own not_paid room =
        OnOk-map _ _ (execute_buy_account env p s)
          (λ (_, t) (fee, (moved, covered)).
            let m = after_payment env p s.modified in
            let gains = account_at env m (payee env p s) in
            (
              fee,
              ground (
                arith,
                moved,
                covered,
                own,
                ap (λ n. (account_at env s.modified n).balance) own,
                account_at-insert env m (payee env p s)
                    (record gains { balance = gains.balance + p.amount }) p.account_to_purchase,
                account_at-insert env s.modified p.buyer_account
                    (paid env p (account_at env s.modified p.buyer_account)) p.account_to_purchase,
                not_paid,
              ),
            ))
          (buy_account-total_stale p s buyer seller (subst (λ n. Once n ns) (sym own) buyer) room)
