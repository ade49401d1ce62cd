-- ===== src/Node/Execution/Money/Accounts.antt =====
-- crates/augecoin-node/src/execution.rs: the AUGE of the accounts through the operations on one
-- account, which pay their fee and move nothing else.
use augecoin.Base.{
  ℕ, ◌+◌, ◌-◌, ◌≤◌, ◌≡◌, refl, none, some, List, [], Bytes, insert, OnOk, OnOk-map, arith,
}
use augecoin.Core.Account.{AccountState, Account, state_eq, increment_n_operation}
use augecoin.Core.Operation.{ListForSale}
use augecoin.Node.Execution.State.{Env, ExecState, Exec, load_account, put_account}
use augecoin.Node.Execution.Steps.{charge_fee, expect_n_operation}
use augecoin.Node.Execution.Accounts.{
  with_key, execute_change_key, execute_list_account_for_sale, execute_delist_account,
  execute_gift_account, execute_accept_gift,
}
use augecoin.Node.Execution.Money.{Once, account_at, total, total-insert}

module _ (env : Env) where
  -- The fee is paid from the account, and the account is written.
  abbrev Paid : ℕ → ℕ → (Account → Account) → ExecState → ℕ × ExecState → Type 0
  Paid account fee after s (paid, t) =
      let acc = account_at env s.modified account in
      (paid ≡ fee)
      × ((t.modified
            ≡ insert account (after (record acc { balance = acc.balance - fee })) s.modified)
          × (fee ≤ acc.balance))

  Paid-total :
      (account fee : ℕ) (after : Account → Account) (run : Exec ℕ) (ns : List ℕ) (s : ExecState)
      → Once account ns
      → ((a : Account) → (after a).balance ≡ a.balance)
      → OnOk (Paid account fee after s) (run s)
      → OnOk
          (λ r. (r.0 ≡ fee) × (total env r.1.modified ns + fee ≡ total env s.modified ns))
          (run s)
  Paid-total account fee after run ns s once same =
      OnOk-map _ _ (run s) (λ (_, t) (paid, (written, covered)).
        let acc = account_at env s.modified account in
        let new = after (record acc { balance = acc.balance - fee }) in
        (
          paid,
          rw written (
              omega (
                arith,
                covered,
                same (record acc { balance = acc.balance - fee }),
                total-insert env s.modified account new ns once,
              )),
        ))

  change_key-Paid :
      (account n fee : ℕ) (key : Bytes) (s : ExecState)
      → OnOk
          (Paid (account) (fee) (λ a. increment_n_operation (with_key key a)) s)
          (execute_change_key env account n fee key s)
  unfolding execute_change_key load_account account_at charge_fee expect_n_operation put_account
  change_key-Paid account n fee key s = ground arith

  list_account_for_sale-Paid :
      (l : ListForSale) (s : ExecState)
      → OnOk
          (Paid
            (l.account)
            (l.fee)
            (λ a. increment_n_operation (record a {
              account_info = record (a.account_info) {
                state = AccountState.for_sale;
                price = l.sale_price;
                account_to_pay = l.account_to_pay;
                new_public_key = some l.new_ed25519_public_key;
                locked_until_block = l.locked_until_block;
              };
            }))
            s)
          (execute_list_account_for_sale env l s)
  unfolding execute_list_account_for_sale load_account account_at charge_fee expect_n_operation
      put_account state_eq
  list_account_for_sale-Paid l s = ground arith

  delist_account-Paid :
      (account n fee : ℕ) (s : ExecState)
      → OnOk
          (Paid
            (account)
            (fee)
            (λ a. increment_n_operation (record a {
              account_info = record (a.account_info) {
                state = AccountState.owned;
                price = 0;
                account_to_pay = 0;
                new_public_key = none;
                locked_until_block = 0;
              };
            }))
            s)
          (execute_delist_account env account n fee s)
  unfolding execute_delist_account load_account account_at charge_fee expect_n_operation put_account
  delist_account-Paid account n fee s = ground arith

  gift_account-Paid :
      (account n : ℕ) (recipient : Bytes) (fee : ℕ) (s : ExecState)
      → OnOk
          (Paid
            (account)
            (fee)
            (λ a. increment_n_operation (record a {
              account_info = record (a.account_info) {
                state = AccountState.gift_pending;
                new_public_key = some recipient;
              };
            }))
            s)
          (execute_gift_account env account n recipient fee s)
  unfolding execute_gift_account load_account account_at charge_fee expect_n_operation put_account
      state_eq
  gift_account-Paid account n recipient fee s = ground arith

  accept_gift-Paid :
      (account n fee : ℕ) (s : ExecState)
      → OnOk
          (Paid
            (account)
            (fee)
            (λ a. record a {
              account_info = record (a.account_info) {
                state = AccountState.owned;
                account_key = elim a.account_info.new_public_key [ none ↦ [] | some k ↦ k ];
                new_public_key = none;
              };
              updated_on_block_active_mode = env.block_number;
              n_operation = 0;
              account_seal = [];
            })
            s)
          (execute_accept_gift env account n fee s)
  unfolding execute_accept_gift load_account account_at charge_fee expect_n_operation put_account
      state_eq
  accept_gift-Paid account n fee s = ground arith

  pub change_key-total :
      (account n fee : ℕ) (key : Bytes) (ns : List ℕ) (s : ExecState)
      → Once (account) ns
      → OnOk
          (λ r. (r.0 ≡ fee) × (total env r.1.modified ns + fee ≡ total env s.modified ns))
          (execute_change_key env account n fee key s)
  unfolding increment_n_operation
  change_key-total account n fee key ns s once =
      Paid-total (account) (fee) (λ a. increment_n_operation (with_key key a))
        (execute_change_key env account n fee key) ns s once (λ a. refl)
        (change_key-Paid account n fee key s)

  pub list_account_for_sale-total :
      (l : ListForSale) (ns : List ℕ) (s : ExecState)
      → Once (l.account) ns
      → OnOk
          (λ r. (r.0 ≡ l.fee) × (total env r.1.modified ns + l.fee ≡ total env s.modified ns))
          (execute_list_account_for_sale env l s)
  unfolding increment_n_operation
  list_account_for_sale-total l ns s once =
      Paid-total (l.account) (l.fee)
        (λ a. increment_n_operation (record a {
          account_info = record (a.account_info) {
            state = AccountState.for_sale;
            price = l.sale_price;
            account_to_pay = l.account_to_pay;
            new_public_key = some l.new_ed25519_public_key;
            locked_until_block = l.locked_until_block;
          };
        }))
        (execute_list_account_for_sale env l) ns s once (λ a. refl) (list_account_for_sale-Paid l s)

  pub delist_account-total :
      (account n fee : ℕ) (ns : List ℕ) (s : ExecState)
      → Once (account) ns
      → OnOk
          (λ r. (r.0 ≡ fee) × (total env r.1.modified ns + fee ≡ total env s.modified ns))
          (execute_delist_account env account n fee s)
  unfolding increment_n_operation
  delist_account-total account n fee ns s once =
      Paid-total (account) (fee)
        (λ a. increment_n_operation (record a {
          account_info = record (a.account_info) {
            state = AccountState.owned;
            price = 0;
            account_to_pay = 0;
            new_public_key = none;
            locked_until_block = 0;
          };
        }))
        (execute_delist_account env account n fee) ns s once (λ a. refl)
        (delist_account-Paid account n fee s)

  pub gift_account-total :
      (account n : ℕ) (recipient : Bytes) (fee : ℕ) (ns : List ℕ) (s : ExecState)
      → Once (account) ns
      → OnOk
          (λ r. (r.0 ≡ fee) × (total env r.1.modified ns + fee ≡ total env s.modified ns))
          (execute_gift_account env account n recipient fee s)
  unfolding increment_n_operation
  gift_account-total account n recipient fee ns s once =
      Paid-total (account) (fee)
        (λ a. increment_n_operation (record a {
          account_info = record (a.account_info) {
            state = AccountState.gift_pending;
            new_public_key = some recipient;
          };
        }))
        (execute_gift_account env account n recipient fee) ns s once (λ a. refl)
        (gift_account-Paid account n recipient fee s)

  pub accept_gift-total :
      (account n fee : ℕ) (ns : List ℕ) (s : ExecState)
      → Once (account) ns
      → OnOk
          (λ r. (r.0 ≡ fee) × (total env r.1.modified ns + fee ≡ total env s.modified ns))
          (execute_accept_gift env account n fee s)
  unfolding increment_n_operation
  accept_gift-total account n fee ns s once =
      Paid-total (account) (fee)
        (λ a. record a {
          account_info = record (a.account_info) {
            state = AccountState.owned;
            account_key = elim a.account_info.new_public_key [ none ↦ [] | some k ↦ k ];
            new_public_key = none;
          };
          updated_on_block_active_mode = env.block_number;
          n_operation = 0;
          account_seal = [];
        })
        (execute_accept_gift env account n fee) ns s once (λ a. refl)
        (accept_gift-Paid account n fee s)
