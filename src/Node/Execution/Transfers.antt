-- ===== src/Node/Execution/Transfers.antt =====
-- crates/augecoin-node/src/execution.rs, `execute_operation`: the operations that move AUGE. Each
-- returns the fee that it hands to the block.
use augecoin.Base.{
  ℕ, ◌+◌, Bool, ◌&&◌, not, Option, none, some, List, [], ◌∷◌, ◌++◌, ltb, ◌==◌, if◌then◌else◌,
  bytes_eq, length, map, find, Dict, ok, saturating_add,
}
use augecoin.Core.Account.{
  AccountState, Account, state_eq, add_balance, subtract_balance, increment_n_operation,
}
use augecoin.Core.Address.{address_of_key}
use augecoin.Core.Operation.{
  SenderInfo, ReceiverInfo, AddressHash, AddressReceiverInfo, ChangerInfo, DataOp,
}
use augecoin.Node.Execution.State.{
  operation_failed, storage, sender_not_active, invalid_n_operation, invalid_n_operation_plain,
  invalid_changer_n_operation, balance, data_payload_too_large, address_key_mismatch,
  legacy_address, no_reserved_augeid, address_target_reserved, Env, Exec, ◌>>=◌, ◌>>◌, pure,
  fail_if, lift, or_fail, each, load_account, put_account,
}
use augecoin.Node.Execution.Steps.{
  validate_account_data_len, validate_transfer_conservation, is_passive, debit_active, debit,
  credit_active, credit, change, expect_n_operation, charge_fee,
}

abbrev pub ct_max_block_payload : ℕ
ct_max_block_payload = 255

abbrev pub amount_sent : SenderInfo → ℕ
amount_sent s = s.amount

abbrev pub amount_received : ReceiverInfo → ℕ
amount_received r = r.amount

abbrev pub amount_addressed : AddressReceiverInfo → ℕ
amount_addressed r = r.amount

-- `==` on addresses looks at the hash alone
unfoldable pub address_eq : AddressHash → AddressHash → Bool
address_eq a b = bytes_eq a.hash b.hash

module _ (env : Env) where
  unfoldable pub execute_transaction :
      List SenderInfo → List ReceiverInfo → List ChangerInfo → ℕ → Exec ℕ
  unfolding validate_transfer_conservation debit_active credit_active change each
  execute_transaction senders receivers changers fee = do
    validate_transfer_conservation (map amount_sent senders) (map amount_received receivers)
    each (debit_active env fee) senders
    each (credit_active env) receivers
    each
        (λ (c : ChangerInfo).
          change env
            (λ expected got. operation_failed c.account (invalid_changer_n_operation expected got))
            c)
        changers
    pure fee

  unfoldable pub execute_multi_operation :
      List SenderInfo → List ReceiverInfo → List ChangerInfo → ℕ → Exec ℕ
  unfolding validate_transfer_conservation debit credit change each
  execute_multi_operation senders receivers changers fee = do
    validate_transfer_conservation (map amount_sent senders) (map amount_received receivers)
    each (debit env fee) senders
    each (credit env) receivers
    each
        (λ (c : ChangerInfo).
          change env (λ expected got. operation_failed c.account (invalid_n_operation expected got))
            c)
        changers
    pure fee

  -- A sender of an `AddressTransaction`.
  unfoldable pub debit_plain : ℕ → SenderInfo → Exec (Unit {0})
  unfolding load_account is_passive subtract_balance increment_n_operation saturating_add
      put_account
  debit_plain fee sender = do
    acc ← load_account env sender.account
    fail_if (is_passive acc.account_info.state) (operation_failed sender.account sender_not_active)
    fail_if (not (sender.n_operation == acc.n_operation))
        (operation_failed sender.account invalid_n_operation_plain)
    paid ←
        lift (subtract_balance (saturating_add sender.amount fee) acc)
          (λ e. operation_failed sender.account (balance e))
    put_account sender.account (increment_n_operation paid)

  -- The key of the account is well formed and hashes to the address.
  unfoldable pub owns_address : AddressHash → Account → Bool
  unfolding address_of_key address_eq
  owns_address address a =
      env.crypto.valid_key a.account_info.account_key
      && address_eq (address_of_key env.crypto a.account_info.account_key) address

  -- `modified.values().find(..)`, in the order of the list
  unfoldable pub find_modified : AddressHash → Dict Account → Option ℕ
  unfolding owns_address
  find_modified address [] = none
  find_modified address ((k, a) ∷ d) =
      if owns_address address a then some a.account_number else find_modified address d

  abbrev pub is_reserved : Account → Bool
  is_reserved a = state_eq a.account_info.state AccountState.reserved

  -- The branch that binds a Reserved AUGEID of the database to the key of a new address.
  unfoldable pub activate_reserved : AddressHash → Exec ℕ
  unfolding load_account put_account state_eq
  activate_reserved address = do
    key ← or_fail address.public_key (operation_failed 0 legacy_address)
    accounts ← lift env.database.safebox storage
    found ← or_fail (find is_reserved accounts) (operation_failed 0 no_reserved_augeid)
    account ← load_account env found.account_number
    put_account found.account_number (record account {
      account_info = record (account.account_info) {
        state = AccountState.owned;
        account_key = key;
      };
      updated_on_block_active_mode = env.block_number;
      n_operation = 0;
    })
    pure found.account_number

  -- An address that carries a key must be the address of that key.
  unfoldable pub check_address : AddressHash → Exec (Unit {0})
  unfolding address_of_key address_eq
  check_address address = elim address.public_key [
    | none ↦ pure tt
    | some key ↦
        fail_if (not (address_eq (address_of_key env.crypto key) address))
          (operation_failed 0 address_key_mismatch)
  ]

  -- The number of the account that the address stands for.
  unfoldable pub resolve : AddressHash → Exec ℕ
  unfolding find_modified activate_reserved
  resolve address = do
    known ← lift (env.database.resolve_address address) storage
    elim known [
      | some number ↦ pure number
      | none ↦ λ s. elim (find_modified address s.modified) [
        | some number ↦ ok (number, s)
        | none ↦ activate_reserved address s
      ]
    ]

  -- A receiver of an `AddressTransaction`.
  unfoldable pub credit_address : AddressReceiverInfo → Exec (Unit {0})
  unfolding check_address resolve load_account add_balance put_account state_eq
  credit_address receiver = do
    check_address receiver.address
    number ← resolve receiver.address
    account ← load_account env number
    fail_if (is_reserved account) (operation_failed number address_target_reserved)
    richer ← lift (add_balance receiver.amount account) (λ e. operation_failed number (balance e))
    put_account number richer

  unfoldable pub execute_address_transaction :
      List SenderInfo → List AddressReceiverInfo → ℕ → Exec ℕ
  unfolding validate_transfer_conservation debit_plain credit_address each
  execute_address_transaction senders receivers fee = do
    validate_transfer_conservation (map amount_sent senders) (map amount_addressed receivers)
    each (debit_plain fee) senders
    each credit_address receivers
    pure fee

  -- The length of the new data cannot overflow a `usize`: both are lengths of vectors.
  unfoldable pub execute_data : DataOp → Exec ℕ
  unfolding validate_transfer_conservation load_account expect_n_operation validate_account_data_len
      charge_fee increment_n_operation put_account debit credit change each
  execute_data d = do
    validate_transfer_conservation (map amount_sent d.senders) (map amount_received d.receivers)
    fail_if (ltb ct_max_block_payload (length d.contents))
        (operation_failed d.account (data_payload_too_large (length d.contents)))
    acc ← load_account env d.account
    expect_n_operation d.account d.n_operation acc
    validate_account_data_len d.account (length acc.account_data + length d.contents)
    paid ← charge_fee d.account d.fee acc
    put_account d.account
        (increment_n_operation (record paid { account_data = paid.account_data ++ d.contents }))
    each (debit env d.fee) d.senders
    each (credit env) d.receivers
    each
        (λ (c : ChangerInfo).
          change env (λ expected got. operation_failed c.account (invalid_n_operation expected got))
            c)
        d.changers
    pure d.fee
