-- ===== src/Node/Execution/Steps.antt =====
-- crates/augecoin-node/src/execution.rs: the checks and the loop bodies that the operations share.
use augecoin.Base.{
  ℕ, Bool, false, ◌||◌, not, Option, none, some, List, [], ◌∷◌, ltb, ◌==◌, if◌then◌else◌, Bytes,
  bytes_eq, length, TextDict, text_lookup, text_insert, text_remove, Result, ok, err,
  saturating_add, checked_add,
}
use augecoin.Core.Account.{
  AccountState, Account, state_eq, add_balance, subtract_balance, increment_n_operation,
}
use augecoin.Core.Operation.{SenderInfo, ReceiverInfo, ChangerInfo}
use augecoin.Node.Execution.State.{
  ExecutionError, operation_failed, name_already_taken, cannot_send, cannot_receive,
  invalid_n_operation, balance, transfer_not_conserved, transfer_total_overflow,
  account_data_too_large, Env, Exec, ◌>>=◌, ◌>>◌, pure, fail, fail_if, lift, load_account,
  put_account,
}

abbrev pub ct_max_account_data : ℕ
ct_max_account_data = 32

unfoldable pub validate_account_data_len : ℕ → ℕ → Exec (Unit {0})
validate_account_data_len account len =
    fail_if (ltb ct_max_account_data len) (operation_failed account (account_data_too_large len))

-- `old.as_ref() == Some(name)`
abbrev pub is_some_of : Bytes → Option Bytes → Bool
is_some_of name none = false
is_some_of name (some old) = bytes_eq old name

-- A claim of the name by another account than `account`, or none.
abbrev pub taken_by_other : ℕ → Option ℕ → Option ℕ
taken_by_other account none = none
taken_by_other account (some owner) = if owner == account then none else some owner

unfoldable pub check_name_available :
    ℕ → Option Bytes → Option Bytes → TextDict ℕ → TextDict ℕ → Result ExecutionError (Unit {0})
unfolding text_lookup
check_name_available account none old existing pending = ok tt
check_name_available account (some name) old existing pending =
    if is_some_of name old
    then ok tt
    else elim (taken_by_other account (text_lookup name existing)) [
      | some owner ↦ err (name_already_taken name owner)
      | none ↦ elim (taken_by_other account (text_lookup name pending)) [
        | some owner ↦ err (name_already_taken name owner)
        | none ↦ ok tt
      ]
    ]

-- `try_fold(0u64, checked_add)`
unfoldable pub checked_sum : ℕ → List ℕ → Option ℕ
unfolding checked_add
checked_sum total [] = some total
checked_sum total (x ∷ xs) = elim (checked_add total x) [ none ↦ none | some t ↦ checked_sum t xs ]

unfoldable pub validate_transfer_conservation : List ℕ → List ℕ → Exec (Unit {0})
unfolding checked_sum
validate_transfer_conservation sender_amounts receiver_amounts =
    elim (checked_sum 0 sender_amounts) [
      | none ↦ fail (operation_failed 0 transfer_total_overflow)
      | some sent ↦ elim (checked_sum 0 receiver_amounts) [
        | none ↦ fail (operation_failed 0 transfer_total_overflow)
        | some received ↦
            fail_if (not (sent == received))
              (operation_failed 0 (transfer_not_conserved sent received))
      ]
    ]

-- `Reserved` or `GiftPending`
unfoldable pub is_passive : AccountState → Bool
unfolding state_eq
is_passive st = state_eq st AccountState.reserved || state_eq st AccountState.gift_pending

module _ (env : Env) where
  -- The rest of a sender's turn, the same in every loop over senders.
  unfoldable pub debit_loaded : ℕ → SenderInfo → Account → Exec (Unit {0})
  unfolding subtract_balance increment_n_operation saturating_add put_account
  debit_loaded fee sender acc = do
    fail_if (not (sender.n_operation == acc.n_operation))
        (operation_failed sender.account (invalid_n_operation acc.n_operation sender.n_operation))
    paid ←
        lift (subtract_balance (saturating_add sender.amount fee) acc)
          (λ e. operation_failed sender.account (balance e))
    put_account sender.account (increment_n_operation paid)

  -- A sender of a `Transaction`.
  unfoldable pub debit_active : ℕ → SenderInfo → Exec (Unit {0})
  unfolding load_account is_passive debit_loaded
  debit_active fee sender = do
    acc ← load_account env sender.account
    fail_if (is_passive acc.account_info.state)
        (operation_failed sender.account (cannot_send sender.account acc.account_info.state))
    debit_loaded fee sender acc

  -- A sender of a `MultiOperation` or of a `Data` operation: its state is not looked at.
  unfoldable pub debit : ℕ → SenderInfo → Exec (Unit {0})
  unfolding load_account debit_loaded
  debit fee sender = do acc ← load_account env sender.account; debit_loaded fee sender acc

  unfoldable pub credit_loaded : ReceiverInfo → Account → Exec (Unit {0})
  unfolding add_balance put_account
  credit_loaded receiver acc = do
    richer ←
        lift (add_balance receiver.amount acc) (λ e. operation_failed receiver.account (balance e))
    put_account receiver.account richer

  -- A receiver of a `Transaction`.
  unfoldable pub credit_active : ReceiverInfo → Exec (Unit {0})
  unfolding load_account is_passive credit_loaded
  credit_active receiver = do
    acc ← load_account env receiver.account
    fail_if (is_passive acc.account_info.state)
        (operation_failed receiver.account (cannot_receive receiver.account acc.account_info.state))
    credit_loaded receiver acc

  -- A receiver of a `MultiOperation` or of a `Data` operation.
  unfoldable pub credit : ReceiverInfo → Exec (Unit {0})
  unfolding load_account credit_loaded
  credit receiver = do acc ← load_account env receiver.account; credit_loaded receiver acc

  -- The claim of a name moves from the old name to the new one.
  unfoldable pub move_name_claim : ℕ → Option Bytes → Option Bytes → Exec (Unit {0})
  unfolding text_remove text_insert
  move_name_claim account old new s =
      let freed : TextDict ℕ = elim old [
        | none ↦ s.name_pending
        | some name ↦ text_remove name s.name_pending
      ] in
      ok (
        tt,
        record s {
          name_pending = elim new [ none ↦ freed | some name ↦ text_insert name account freed ];
        },
      )

  -- The account as a changer leaves it, before its counter goes up.
  unfoldable pub changed : ChangerInfo → Account → Account
  changed changer acc = record acc {
    account_info = record (acc.account_info) { account_key = changer.new_ed25519_public_key };
    name = elim changer.new_name [ none ↦ acc.name | some name ↦ some name ];
    account_type = if changer.new_type == 0 then acc.account_type else changer.new_type;
    account_data = elim changer.new_account_data [
      | [] ↦ acc.account_data
      | _ ∷ _ ↦ changer.new_account_data
    ];
    account_seal = elim changer.new_account_seal [
      | [] ↦ acc.account_seal
      | _ ∷ _ ↦ changer.new_account_seal
    ];
  }

  -- A changer, in all three loops over changers; the loop of `Transaction` names its error
  -- otherwise.
  unfoldable pub change : (ℕ → ℕ → ExecutionError) → ChangerInfo → Exec (Unit {0})
  unfolding load_account check_name_available move_name_claim validate_account_data_len changed
      increment_n_operation put_account
  change wrong_n_operation changer = do
    acc ← load_account env changer.account
    fail_if (not (changer.n_operation == acc.n_operation))
        (wrong_n_operation acc.n_operation changer.n_operation)
    (λ s.
        lift
          (check_name_available changer.account changer.new_name acc.name env.existing_name_index
            s.name_pending)
          (λ e. e) s)
    move_name_claim changer.account acc.name changer.new_name
    validate_account_data_len changer.account (length changer.new_account_data)
    put_account changer.account (increment_n_operation (changed changer acc))

-- The test of the counter that the operations of one account begin with.
unfoldable pub expect_n_operation : ℕ → ℕ → Account → Exec (Unit {0})
expect_n_operation account n acc =
    fail_if (not (n == acc.n_operation))
      (operation_failed account (invalid_n_operation acc.n_operation n))

-- `if fee > 0 { acc.subtract_balance(fee)? }`
unfoldable pub charge_fee : ℕ → ℕ → Account → Exec Account
unfolding subtract_balance
charge_fee account fee acc =
    if ltb 0 fee
    then lift (subtract_balance fee acc) (λ e. operation_failed account (balance e))
    else pure acc
