-- ===== src/Node/Execution/Contracts.antt =====
-- crates/augecoin-node/src/execution.rs, `execute_operation`: contract operations and changes of the
-- validator set; the dispatch over all operations.
use augecoin.Base.{
  ℕ, ◌&&◌, Option, none, some, List, [], ◌∷◌, ◌++◌, ltb, if◌then◌else◌, Bytes, lookup, text_insert,
  ok, err, saturating_add, saturating_mul, wrapping_add,
}
use augecoin.Core.Account.{Account, subtract_balance, increment_n_operation}
use augecoin.Core.Operation.{ContractCall, OperationPayload, Operation}
use augecoin.Consensus.Validator.{apply_validator_admin, process_pending_activations}
use augecoin.Node.Execution.State.{
  Reason, operation_failed, ApplyOutcome, ContractOverlay, Env, Exec, ◌>>=◌, ◌>>◌, pure, fail_if,
  lift, load_account, put_account,
}
use augecoin.Node.Execution.Steps.{expect_n_operation, charge_fee}
use augecoin.Node.Execution.Transfers.{
  execute_transaction, execute_address_transaction, execute_multi_operation, execute_data,
}
use augecoin.Node.Execution.Accounts.{
  execute_change_key, execute_change_key_signed, execute_recover_founds,
  execute_list_account_for_sale, execute_delist_account, execute_buy_account,
  execute_change_account_info, execute_create_account, execute_gift_account, execute_accept_gift,
}

-- crates/augecoin-contracts/src/lib.rs, `gas`
abbrev pub default_gas_limit : ℕ
default_gas_limit = 100_000

abbrev pub gas_price_augesat : ℕ
gas_price_augesat = 1

-- `contract_state.put` and `delete` write the overlay, and do not fail.
unfoldable pub apply_writes : List (Bytes × Option Bytes) → ContractOverlay → ContractOverlay
unfolding text_insert
apply_writes [] overlay = overlay
apply_writes ((key, value) ∷ writes) overlay = apply_writes writes (text_insert key value overlay)

module _ (env : Env) where
  -- The maximum gas cost and the fee must be covered before anything runs.
  unfoldable pub reserve_gas : ContractCall → Account → Exec (Unit {0})
  unfolding saturating_mul saturating_add
  reserve_gas c acc =
      let reserved = saturating_add c.fee (saturating_mul default_gas_limit gas_price_augesat) in
      fail_if (ltb 0 reserved && ltb acc.balance reserved)
        (operation_failed c.account (Reason.insufficient_for_gas acc.balance reserved))

  -- The gas that was used, charged to the account as the overlay has it.
  unfoldable pub charge_gas : ℕ → ℕ → Exec (Unit {0})
  unfolding lookup subtract_balance put_account
  charge_gas account gas_cost =
      if ltb 0 gas_cost
      then (λ s. elim (lookup account s.modified) [
        | none ↦ err (operation_failed account Reason.account_missing)
        | some acc ↦
            (lift (subtract_balance gas_cost acc) (λ e. operation_failed account (Reason.balance e))
                >>= put_account account)
              s
      ])
      else pure tt

  unfoldable pub record_outcome : ApplyOutcome → Exec (Unit {0})
  unfolding apply_writes
  record_outcome outcome s = ok (
    tt,
    record s {
      contract_overlay = apply_writes outcome.writes s.contract_overlay;
      contract_events = s.contract_events ++ outcome.events;
    },
  )

  -- The overlay that the engine reads is the one before its own writes.
  unfoldable pub run_contract : ContractCall → Exec ApplyOutcome
  run_contract c s = elim (env.host.decode c.contents) [
    | err e ↦ err (operation_failed c.account (Reason.invalid_contract_op e))
    | ok op ↦
        lift (env.host.run s.contract_overlay c.account op env.block_number default_gas_limit)
          (λ e. operation_failed c.account (Reason.contract_failed e)) s
  ]

  unfoldable pub execute_contract_call : ContractCall → Exec ℕ
  unfolding load_account expect_n_operation reserve_gas charge_fee increment_n_operation put_account
      run_contract charge_gas record_outcome saturating_mul wrapping_add
  execute_contract_call c = do
    acc ← load_account env c.account
    expect_n_operation c.account c.n_operation acc
    reserve_gas c acc
    paid ← charge_fee c.account c.fee acc
    put_account c.account (increment_n_operation paid)
    outcome ← run_contract c
    charge_gas c.account (saturating_mul outcome.gas_used gas_price_augesat)
    record_outcome outcome
    pure (wrapping_add c.fee (saturating_mul outcome.gas_used gas_price_augesat))

  unfoldable pub execute_validator_admin : Operation → Exec ℕ
  unfolding apply_validator_admin process_pending_activations
  execute_validator_admin op s = elim s.pending_validator_set [
    | none ↦ err (operation_failed 0 Reason.validator_set_missing)
    | some vs ↦ elim (apply_validator_admin env.crypto op env.block_number vs) [
      | err e ↦ err (operation_failed 0 (Reason.validator_set e))
      | ok vs' ↦ ok (
        0,
        record s {
          pending_validator_set = some (process_pending_activations env.block_number vs');
        },
      )
    ]
  ]

  -- The match of `execute_operation`.
  unfoldable pub execute_payload : Operation → OperationPayload → Exec ℕ
  execute_payload op (OperationPayload.transaction senders receivers changers fee) =
      execute_transaction env senders receivers changers fee
  execute_payload op (OperationPayload.address_transaction senders receivers fee) =
      execute_address_transaction env senders receivers fee
  execute_payload op (OperationPayload.multi_operation senders receivers changers fee) =
      execute_multi_operation env senders receivers changers fee
  execute_payload op (OperationPayload.change_key account n fee key) =
      execute_change_key env account n fee key
  execute_payload op (OperationPayload.change_key_signed account n fee key signature) =
      execute_change_key_signed env op account n fee key signature
  execute_payload op (OperationPayload.recover_founds account) = execute_recover_founds env account
  execute_payload op (OperationPayload.list_account_for_sale l) =
      execute_list_account_for_sale env l
  execute_payload op (OperationPayload.delist_account account n fee) =
      execute_delist_account env account n fee
  execute_payload op (OperationPayload.buy_account p) = execute_buy_account env p
  execute_payload op (OperationPayload.change_account_info i) = execute_change_account_info env i
  execute_payload op (OperationPayload.data_operation d) = execute_data env d
  execute_payload op (OperationPayload.validator_admin va) = execute_validator_admin op
  execute_payload op (OperationPayload.create_account number pubkey metadata) =
      execute_create_account env number pubkey metadata
  execute_payload op (OperationPayload.gift_account account n recipient fee) =
      execute_gift_account env account n recipient fee
  execute_payload op (OperationPayload.accept_gift account n fee) =
      execute_accept_gift env account n fee
  execute_payload op (OperationPayload.contract c) = execute_contract_call c

  unfoldable pub execute_operation : Operation → Exec ℕ
  unfolding execute_payload
  execute_operation op = execute_payload op op.payload
