-- ===== src/Node/Execution/Replay.antt =====
-- crates/augecoin-node/src/execution.rs: the counters that keep an operation from a second execution.
pub mod Once
use augecoin.Base.{
  ℕ, suc, ◌+◌, ◌-◌, ◌≤◌, ◌<◌, ◌≡◌, ◌≢◌, sym, subst, ap, refl, Option, none, some, List, [], ◌∷◌,
  ◌==◌, insert, map, Result, ok, err, OnOk, OnOk-map, IsErr, arith, inl, inr, ==_iff, u64_max,
  saturating_add, Bool-cases, ltb, not, length,
}
use augecoin.Core.Account.{Account, subtract_balance, add_balance, increment_n_operation}
use augecoin.Core.Operation.{
  SenderInfo, ReceiverInfo, AddressReceiverInfo, DataOp, Purchase, ChangerInfo, OperationPayload,
  Operation,
}
use augecoin.Node.Execution.State.{
  Env, ExecState, ExecutionError, Exec, ◌>>=◌, ◌>>◌, pure, each, fail_if, load_account, put_account,
  operation_failed, invalid_changer_n_operation,
}
use augecoin.Node.Execution.Steps.{
  debit, debit_active, debit_loaded, credit_active, credit_loaded, change, changed,
  expect_n_operation, validate_transfer_conservation,
}
use augecoin.Node.Execution.Transfers.{
  ct_max_block_payload, amount_sent, amount_received, amount_addressed, debit_plain,
  execute_address_transaction, execute_data, execute_transaction, execute_multi_operation,
}
use augecoin.Node.Execution.Accounts.{
  check_listing, execute_buy_account, execute_change_key, execute_change_key_signed,
  execute_list_account_for_sale, execute_delist_account, execute_change_account_info,
  execute_gift_account, execute_accept_gift,
}
use augecoin.Node.Execution.Contracts.{execute_payload, execute_contract_call}
use augecoin.Node.Execution.Rules.{then-OnOk, each-keeps}
use augecoin.Node.Execution.Money.Transfer.{changer_writes}
use augecoin.Node.Execution.Money.Conservation.{validate_transfer_conservation-OnOk}
use augecoin.Node.Execution.Money.{account_at, account_at-insert, load_account-OnOk}

-- The account whose counter the operation names first, and the counter.
unfoldable pub counter_of : OperationPayload → Option (ℕ × ℕ)
counter_of (OperationPayload.change_key account n _ _) = some (account, n)
counter_of (OperationPayload.change_key_signed account n _ _ _) = some (account, n)
counter_of (OperationPayload.list_account_for_sale l) = some (l.account, l.n_operation)
counter_of (OperationPayload.delist_account account n _) = some (account, n)
counter_of (OperationPayload.change_account_info i) = some (i.account, i.n_operation)
counter_of (OperationPayload.gift_account account n _ _) = some (account, n)
counter_of (OperationPayload.accept_gift account n _) = some (account, n)
counter_of (OperationPayload.contract c) = some (c.account, c.n_operation)
counter_of (OperationPayload.transaction (x ∷ _) _ _ _) = some (x.account, x.n_operation)
counter_of (OperationPayload.multi_operation (x ∷ _) _ _ _) = some (x.account, x.n_operation)
counter_of (OperationPayload.address_transaction (x ∷ _) _ _) = some (x.account, x.n_operation)
counter_of (OperationPayload.data_operation d) = some (d.account, d.n_operation)
counter_of (OperationPayload.buy_account p) = some (p.buyer_account, p.n_operation)
counter_of p = none

module _ (env : Env) where
  -- A first step on an account with another counter.
  expects :
      {A : Type 0} (account n : ℕ) (f : Account → Exec A) (s : ExecState)
      → (account_at env s.modified account).n_operation ≢ n
      → IsErr ((do acc ← load_account env account; expect_n_operation account n acc; f acc) s)
  unfolding load_account account_at expect_n_operation
  expects account n f s stale = ground arith

  -- The account has another counter than the operation names.
  abbrev pub Stale : OperationPayload → ExecState → Type 0
  Stale p s = elim (counter_of p) [
    | none ↦ ⊥
    | some (account, n) ↦ (account_at env s.modified account).n_operation ≢ n
  ]

  fails_first :
      {A B : Type 0} (m : Exec A) (k : Exec B) (s : ExecState) → IsErr (m s) → IsErr ((m >> k) s)
  fails_first {A} m k s h = go (m s) h
    where
      go :
          (r : Result ExecutionError (A × ExecState))
          → IsErr r
          → IsErr (elim r [ ok (a, t) ↦ k t | err e ↦ err e ])
      go (err e) h = tt
      go (ok (a, t)) h = absurd h

  fails_then :
      {A B : Type 0} (m : Exec A) (k : Exec B) (s : ExecState)
      → OnOk (λ r. r.1 ≡ s) (m s)
      → IsErr (k s)
      → IsErr ((m >> k) s)
  fails_then {A} {B} m k s same h = go (m s) same
    where
      go :
          (r : Result ExecutionError (A × ExecState))
          → OnOk (λ (r : A × ExecState). r.1 ≡ s) r
          → IsErr (elim r [ ok (a, t) ↦ k t | err e ↦ err e ])
      go (err e) p = tt
      go (ok (a, t)) p = subst (λ u. IsErr (k u)) (sym p) h

  debit_active_stale :
      (fee : ℕ) (x : SenderInfo) (s : ExecState)
      → (account_at env s.modified x.account).n_operation ≢ x.n_operation
      → IsErr (debit_active env fee x s)
  unfolding debit_active debit_loaded load_account account_at
  debit_active_stale fee x s stale = ground arith

  debit_stale :
      (fee : ℕ) (x : SenderInfo) (s : ExecState)
      → (account_at env s.modified x.account).n_operation ≢ x.n_operation
      → IsErr (debit env fee x s)
  unfolding debit debit_loaded load_account account_at
  debit_stale fee x s stale = ground arith

  pub kept :
      (sent received : List ℕ) (s : ExecState)
      → OnOk (λ r. r.1 ≡ s) (validate_transfer_conservation sent received s)
  kept sent received s =
      OnOk-map _ _ (validate_transfer_conservation sent received s) (λ _ h. h.0)
        (validate_transfer_conservation-OnOk sent received s)

  debit_plain_stale :
      (fee : ℕ) (x : SenderInfo) (s : ExecState)
      → (account_at env s.modified x.account).n_operation ≢ x.n_operation
      → IsErr (debit_plain env fee x s)
  unfolding debit_plain load_account account_at
  debit_plain_stale fee x s stale = ground arith

  fails_bound :
      {A B : Type 0} (P : A × ExecState → Type 0) (m : Exec A) (f : A → Exec B) (s : ExecState)
      → OnOk P (m s)
      → ((a : A) (t : ExecState) → P (a, t) → IsErr (f a t))
      → IsErr ((m >>= f) s)
  fails_bound {A} {B} P m f s h behind = go (m s) h
    where
      go :
          (r : Result ExecutionError (A × ExecState))
          → OnOk P r
          → IsErr (elim r [ ok (a, t) ↦ f a t | err e ↦ err e ])
      go (err e) p = tt
      go (ok (a, t)) p = behind a t p

  check_listing_keeps :
      (p : Purchase) (target : Account) (s : ExecState)
      → OnOk (λ r. r.1 ≡ s) (check_listing env p target s)
  unfolding check_listing
  check_listing_keeps p target s = ground arith

  -- A purchase loads the account that it buys, and checks its listing, before it comes to the buyer.
  buy_account_stale :
      (p : Purchase) (s : ExecState)
      → (account_at env s.modified p.buyer_account).n_operation ≢ p.n_operation
      → IsErr (execute_buy_account env p s)
  unfolding execute_buy_account
  buy_account_stale p s stale =
      fails_bound _ (load_account env p.account_to_purchase) _ s
        (load_account-OnOk env p.account_to_purchase s)
        (λ target t loaded.
          fails_then (check_listing env p target) _ t (check_listing_keeps p target t) (
            fails_bound _ (load_account env p.buyer_account) _ t
              (load_account-OnOk env p.buyer_account t)
              (λ buyer u at_u.
                fails_first (fail_if (not (p.n_operation == buyer.n_operation)) _) _ u
                  (ground (arith, at_u, loaded, stale)))))

  address_transaction_stale :
      (fee : ℕ) (x : SenderInfo) (ss : List SenderInfo) (rs : List AddressReceiverInfo)
      (s : ExecState)
      → (account_at env s.modified x.account).n_operation ≢ x.n_operation
      → IsErr (execute_address_transaction env (x ∷ ss) rs fee s)
  unfolding execute_address_transaction each
  address_transaction_stale fee x ss rs s stale =
      fails_then
        (validate_transfer_conservation (map amount_sent (x ∷ ss)) (map amount_addressed rs)) _ s
        (kept (map amount_sent (x ∷ ss)) (map amount_addressed rs) s)
        (fails_first (each (debit_plain env fee) (x ∷ ss)) _ s (
          fails_first (debit_plain env fee x) (each (debit_plain env fee) ss) s
            (debit_plain_stale fee x s stale)))

  data_stale :
      (d : DataOp) (s : ExecState)
      → (account_at env s.modified d.account).n_operation ≢ d.n_operation
      → IsErr (execute_data env d s)
  unfolding execute_data
  data_stale d s stale =
      fails_then
        (validate_transfer_conservation (map amount_sent d.senders)
          (map amount_received d.receivers))
        _ s (kept (map amount_sent d.senders) (map amount_received d.receivers) s)
        (elim (Bool-cases (ltb ct_max_block_payload (length d.contents))) [
          | inl long ↦ rw long tt
          | inr short ↦ rw short (expects d.account d.n_operation _ s stale)
        ])

  -- An operation that names another counter than its account has, or than its first sender has, is
  -- refused: this is a transaction, an address transaction or a multi-operation with a sender, a
  -- change of a key, signed by the new key or not, a listing, a delisting, a purchase, a change of
  -- the info, a data operation, a gift, an accepted gift or a contract call.
  pub execute_payload-Stale :
      (op : Operation) (p : OperationPayload) (s : ExecState)
      → Stale p s
      → IsErr (execute_payload env op p s)
  unfolding counter_of execute_payload execute_change_key execute_change_key_signed
      execute_list_account_for_sale execute_delist_account execute_change_account_info
      execute_gift_account execute_accept_gift execute_contract_call execute_transaction
      execute_multi_operation each
  execute_payload-Stale op (OperationPayload.change_key a m fee key) s stale = expects a m _ s stale
  execute_payload-Stale op (OperationPayload.change_key_signed a m fee key _) s stale =
      expects a m _ s stale
  execute_payload-Stale op (OperationPayload.list_account_for_sale l) s stale =
      expects l.account l.n_operation _ s stale
  execute_payload-Stale op (OperationPayload.delist_account a m _) s stale = expects a m _ s stale
  execute_payload-Stale op (OperationPayload.change_account_info i) s stale =
      expects i.account i.n_operation _ s stale
  execute_payload-Stale op (OperationPayload.gift_account a m _ _) s stale = expects a m _ s stale
  execute_payload-Stale op (OperationPayload.accept_gift a m _) s stale = expects a m _ s stale
  execute_payload-Stale op (OperationPayload.contract c) s stale =
      expects c.account c.n_operation _ s stale
  execute_payload-Stale op (OperationPayload.transaction (x ∷ ss) rs cs fee) s stale =
      fails_then
        (validate_transfer_conservation (map amount_sent (x ∷ ss)) (map amount_received rs)) _ s
        (kept (map amount_sent (x ∷ ss)) (map amount_received rs) s)
        (fails_first (each (debit_active env fee) (x ∷ ss)) _ s (
          fails_first (debit_active env fee x) (each (debit_active env fee) ss) s
            (debit_active_stale fee x s stale)))
  execute_payload-Stale op (OperationPayload.multi_operation (x ∷ ss) rs cs fee) s stale =
      fails_then
        (validate_transfer_conservation (map amount_sent (x ∷ ss)) (map amount_received rs)) _ s
        (kept (map amount_sent (x ∷ ss)) (map amount_received rs) s)
        (fails_first (each (debit env fee) (x ∷ ss)) _ s
          (fails_first (debit env fee x) (each (debit env fee) ss) s (debit_stale fee x s stale)))
  execute_payload-Stale op (OperationPayload.address_transaction (x ∷ ss) rs fee) s stale =
      address_transaction_stale fee x ss rs s stale
  execute_payload-Stale op (OperationPayload.data_operation d) s stale = data_stale d s stale
  execute_payload-Stale op (OperationPayload.buy_account p) s stale = buy_account_stale p s stale
  execute_payload-Stale op p s stale = absurd stale
