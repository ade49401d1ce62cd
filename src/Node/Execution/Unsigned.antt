-- ===== src/Node/Execution/Unsigned.antt =====
-- crates/augecoin-node/src/execution.rs: a `Transaction` without senders, through
-- `verify_operation_signatures` and `execute_operation`.
use augecoin.Base.{
  ℕ, ◌≤◌, ◌≡◌, refl, true, none, some, List, [], ◌∷◌, length, text_remove, lookup, insert, ok,
  arith, le→leb,
}
use augecoin.Core.Account.{Account, increment_n_operation}
use augecoin.Core.Operation.{ChangerInfo, OperationPayload, Operation, Signature}
use augecoin.Node.Execution.State.{
  ExecutionError, operation_failed, invalid_changer_n_operation, Env, ExecState, load_account,
  put_account, each,
}
use augecoin.Node.Execution.Steps.{
  validate_transfer_conservation, change, changed, check_name_available, move_name_claim,
  validate_account_data_len, checked_sum,
}
use augecoin.Node.Execution.Money.{account_at, account_at-insert}
use augecoin.Node.Execution.Transfers.{execute_transaction}
use augecoin.Node.Execution.Contracts.{execute_payload, execute_operation}
use augecoin.Node.Execution.Signatures.{verify_operation_signatures, payload_signed, senders_signed}

-- A transaction that only changes one account.
abbrev pub one_change : ChangerInfo → ℕ → ℕ → List Signature → Operation
one_change c chain fee signatures = record {
  payload = OperationPayload.transaction [] [] (c ∷ []) fee;
  chain_id = chain;
  signatures = signatures;
}

-- the overlays behind the change
unfoldable pub after_change : Env → ChangerInfo → Account → ExecState → ExecState
after_change env c acc s = record s {
  name_pending = elim acc.name [
    | none ↦ s.name_pending
    | some name ↦ text_remove name s.name_pending
  ];
  modified = insert c.account (increment_n_operation (changed env c acc)) s.modified;
}

pub change-ok :
    (env : Env) (wrong : ℕ → ℕ → ExecutionError) (c : ChangerInfo) (acc : Account) (s : ExecState)
    → lookup c.account s.modified ≡ some acc
    → c.n_operation ≡ acc.n_operation
    → c.new_name ≡ none
    → length c.new_account_data ≤ 32
    → change env wrong c s ≡ ok (tt, after_change env c acc s)
unfolding change load_account check_name_available move_name_claim validate_account_data_len
    put_account after_change
change-ok env wrong c acc s found counter unnamed short = ground arith

-- Anyone can take over an account: a transaction without senders passes the check of the signatures
-- whatever they are, and where its one changer names the counter of the account, no name and no data
-- of more than 32 bytes, it is executed and the account has the changer's key.
pub unsigned_change_takes_over :
    (env : Env) (c : ChangerInfo) (acc : Account) (chain fee : ℕ) (signatures : List Signature)
    (s : ExecState)
    → lookup c.account s.modified ≡ some acc
    → c.n_operation ≡ acc.n_operation
    → c.new_name ≡ none
    → length c.new_account_data ≤ 32
    → (verify_operation_signatures env.crypto env.database (one_change c chain fee signatures)
        ≡ true)
      × ((t : ExecState) × ((execute_operation env (one_change c chain fee signatures) s
              ≡ ok (fee, t))
            × ((account_at env t.modified c.account).account_info.account_key
                ≡ c.new_ed25519_public_key)))
unfolding verify_operation_signatures payload_signed senders_signed execute_operation
    execute_payload execute_transaction each validate_transfer_conservation checked_sum after_change
    changed increment_n_operation
unsigned_change_takes_over env c acc chain fee signatures s found counter unnamed short = (
  rw (le→leb 0 (length signatures) (omega arith)) refl,
  (
    after_change env c acc s,
    (
      ground (
        arith,
        change-ok env
            (λ expected got. operation_failed c.account (invalid_changer_n_operation expected got))
            c acc s found counter unnamed short,
      ),
      ground (
        arith,
        account_at-insert env s.modified c.account (increment_n_operation (changed env c acc))
            c.account,
      ),
    ),
  ),
)
