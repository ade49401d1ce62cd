-- ===== src/Tests/Execution.antt =====
-- The theorems on crates/augecoin-node/src/execution.rs at concrete inputs.
use augecoin.Base.{
  text_lookup, Option, none, bytes_eq, ℕ, ◌+◌, ◌≡◌, refl, true, ◌&&◌, not, if◌then◌else◌, ◌==◌,
  some, [], ◌∷◌, replicate, lookup, Result, ok, OnOk, IsErr, arith,
}
use augecoin.Core.Account.{Account, AccountState, state_eq}
use augecoin.Node.Execution.Names.{name_claimed_twice}
use augecoin.Node.Execution.Steps.{change}
use augecoin.Node.Execution.Reserved.{IsNew}
use augecoin.Node.Execution.Reserved.Shared.{new_addresses_share}
use augecoin.Core.Address.{address_of_key}
use augecoin.Core.Operation.{ChangerInfo, AddressReceiverInfo, ContractCall, OperationPayload}
use augecoin.Node.Execution.State.{
  ExecutionError, operation_failed, invalid_changer_n_operation, Env, StorageError, ExecState, each,
}
use augecoin.Node.Execution.Transfers.{credit_address, find_modified}
use augecoin.Node.Execution.Contracts.{execute_payload, execute_operation, execute_contract_call}
use augecoin.Node.Execution.Signatures.{verify_operation_signatures}
use augecoin.Node.Execution.Block.{emit_slot, reserved_account}
use augecoin.Node.Execution.Money.{account_at}
use augecoin.Node.Execution.Replay.{counter_of, execute_payload-Stale}
use augecoin.Node.Execution.Replay.Once.{CountersFit, execute_transaction_replayed}
use augecoin.Node.Execution.Unsigned.{one_change, unsigned_change_takes_over}
use augecoin.Node.Execution.Gas.{execute_contract_call-succeeds}
use augecoin.Node.Execution.Rewards.{is_known, emit_slot-account_at}
use augecoin.Tests.Data.{
  account_in, toy, empty_storage, env, two_owners, state_with, pay_30, get_30, new_key, owned,
  transfer_op, outcome_five,
}

two_owners-CountersFit : CountersFit env two_owners
unfolding account_at lookup
two_owners-CountersFit n = ground arith

abbrev once_only : OperationPayload
once_only = OperationPayload.transaction (pay_30 ∷ []) (get_30 ∷ []) [] 2

execute_transaction_replayed_example :
    OnOk
      (λ r. IsErr (execute_payload env transfer_op once_only r.1))
      (execute_payload env transfer_op once_only two_owners)
execute_transaction_replayed_example =
    execute_transaction_replayed env pay_30 [] (get_30 ∷ []) [] 2 transfer_op two_owners
      (omega arith) two_owners-CountersFit

abbrev stale_key : OperationPayload
stale_key = OperationPayload.change_key 1 3 0 (replicate 32 9)

execute_payload-Stale_example : IsErr (execute_payload env transfer_op stale_key two_owners)
unfolding counter_of account_at lookup
execute_payload-Stale_example =
    execute_payload-Stale env transfer_op stale_key two_owners (omega arith)

unsigned_change_takes_over_example :
    (verify_operation_signatures toy empty_storage (one_change new_key 1 0 []) ≡ true)
    × ((t : ExecState) × ((execute_operation env (one_change new_key 1 0 []) two_owners ≡ ok (0, t))
          × ((account_at env t.modified 2).account_info.account_key ≡ replicate 32 9)))
unfolding lookup
unsigned_change_takes_over_example =
    unsigned_change_takes_over env new_key (owned 2 50 0) 1 0 [] two_owners refl refl refl
      (omega arith)

abbrev rich : ExecState
rich = state_with ((1, owned 1 200000 4) ∷ [])

abbrev call : ContractCall
call = record { account = 1; n_operation = 4; fee = 3; op_type = 14; contents = 7 ∷ [] }

execute_contract_call-succeeds_example :
    (t : ExecState) × ((execute_contract_call env call rich ≡ ok (8, t))
      × ((after : Account) × ((lookup 1 t.modified ≡ some after) × (after.balance + 8 ≡ 200000))))
unfolding lookup
execute_contract_call-succeeds_example =
    execute_contract_call-succeeds env call (owned 1 200000 4) _ outcome_five rich refl refl
      (omega arith) (omega arith) refl refl (omega arith)

emit_slot-account_at_example :
    OnOk
      (λ r. account_at env r.1.modified 30 ≡ (
        if (30 == 30) && not (is_known env 30 two_owners)
        then reserved_account env 30 (replicate 32 3)
        else account_at env two_owners.modified 30))
      (emit_slot env (replicate 32 3) 30 two_owners)
emit_slot-account_at_example = emit_slot-account_at env (replicate 32 3) 30 30 two_owners

-- account 30 is Reserved in the database
abbrev reserved_30 : Account
reserved_30 = account_in AccountState.reserved 30 12 0

abbrev stored_30 : ℕ → Result StorageError (Option Account)
stored_30 n = if n == 30 then ok (some reserved_30) else ok none

abbrev env_30 : Env
env_30 = record env {
  crypto = record toy { blake3_512 = λ bytes. bytes };
  database = record empty_storage { safebox = ok (reserved_30 ∷ []); get_account = stored_30 };
}

abbrev to_new : ℕ → ℕ → AddressReceiverInfo
to_new n amount = record {
  address = address_of_key env_30.crypto (replicate 32 n);
  amount = amount;
  payload = [];
}

abbrev to_six : AddressReceiverInfo
to_six = to_new 6 70

abbrev to_seven : AddressReceiverInfo
to_seven = to_new 7 20

abbrev sender_only : ExecState
sender_only = state_with ((1, owned 1 1000 5) ∷ [])

to_six-IsNew : IsNew env_30 to_six (replicate 32 6) sender_only.modified
unfolding address_of_key bytes_eq find_modified
to_six-IsNew = record { has_key = refl; is_of_key = refl; unknown = refl; unmodified = refl }

to_seven-IsNew : IsNew env_30 to_seven (replicate 32 7) sender_only.modified
unfolding address_of_key bytes_eq find_modified
to_seven-IsNew = record { has_key = refl; is_of_key = refl; unknown = refl; unmodified = refl }

new_addresses_share_example :
    (u : ExecState) × ((after : Account) × ((each
            (credit_address env_30)
            (to_six ∷ to_seven ∷ [])
            sender_only
          ≡ ok (tt, u))
        × (lookup 30 u.modified ≡ some after)
        × (after.account_info.account_key ≡ replicate 32 7)
        × (after.balance ≡ 102)
        × (find_modified env_30 to_six.address u.modified ≡ none)))
unfolding address_of_key bytes_eq lookup state_eq
new_addresses_share_example =
    new_addresses_share env_30 to_six to_seven (replicate 32 6) (replicate 32 7) (reserved_30 ∷ [])
      reserved_30 sender_only to_six-IsNew to_seven-IsNew refl refl refl refl refl (omega arith)

-- account 1 was named in the block that is executed
abbrev named_in_block : ExecState
named_in_block =
    record (state_with
      ((1, record (owned 1 1000 4) { name = some (120 ∷ []) }) ∷ (2, owned 2 50 0) ∷ [])) {
        name_pending = (120 ∷ [], 1) ∷ [];
      }

abbrev keep_name : ChangerInfo
keep_name = record new_key { account = 1; n_operation = 4 }

abbrev claim_name : ChangerInfo
claim_name = record new_key { new_name = some (120 ∷ []) }

abbrev wrong_counter : ℕ → ℕ → ExecutionError
wrong_counter expected got = operation_failed 0 (invalid_changer_n_operation expected got)

name_claimed_twice_example :
    (t : ExecState) × ((u : ExecState) × ((change env wrong_counter keep_name named_in_block
          ≡ ok (tt, t))
        × ((change env wrong_counter claim_name t ≡ ok (tt, u))
            × (((account_at env u.modified 1).name ≡ some (120 ∷ []))
                × ((account_at env u.modified 2).name ≡ some (120 ∷ []))))))
unfolding lookup text_lookup
name_claimed_twice_example =
    name_claimed_twice env wrong_counter keep_name claim_name (120 ∷ [])
      (record (owned 1 1000 4) { name = some (120 ∷ []) }) (owned 2 50 0) named_in_block refl refl
      (omega arith) refl refl refl refl refl refl refl (omega arith) (omega arith)
