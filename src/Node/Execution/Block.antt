-- ===== src/Node/Execution/Block.antt =====
-- crates/augecoin-node/src/execution.rs, `execute_block_inner`: the phases of one block. What
-- `commit_block_atomic_with_contracts` and the root after it give is the argument `commit`.
use augecoin.Base.{
  ℕ, ◌/◌, Bool, true, false, ◌||◌, Option, none, some, List, [], ◌∷◌, ltb, leb, if◌then◌else◌,
  Bytes, bytes_eq, replicate, Dict, contains_key, insert, Result, ok, err, saturating_add,
  saturating_mul,
}
use augecoin.Crypto.{Crypto}
use augecoin.Core.Account.{
  AccountState, Account, new_account, empty_key, add_balance, compute_account_seal,
}
use augecoin.Core.Emission.{block_reward, total_emission_blocks, hard_cap_augesat}
use augecoin.Core.Operation.{Operation}
use augecoin.Core.Block.{OperationBlock}
use augecoin.Core.Codec.Write.{operation_to_bytes}
use augecoin.Consensus.Validator.{ValidatorSet}
use augecoin.Consensus.Validator.Codec.{set_from_bytes, set_to_bytes}
use augecoin.Node.Execution.State.{
  StorageError, Storage, ContractHost, Reason, ExecutionError, operation_failed, storage, safe_box,
  Env, ExecState, Exec, ◌>>=◌, ◌>>◌, pure, fail_if, lift, each, load_account, put_account,
}
use augecoin.Node.Execution.Contracts.{execute_operation}
use augecoin.Node.Execution.Signatures.{first_unsigned}

abbrev pub ct_accounts_per_block : ℕ
ct_accounts_per_block = 3

-- The accounts that `before` has not are sealed with the hash of the operation.
unfoldable pub seal_new : (Bytes → Bytes) → Bytes → Dict Account → Dict Account → Dict Account
unfolding contains_key compute_account_seal
seal_new blake3_512 op_hash before [] = []
seal_new blake3_512 op_hash before ((k, a) ∷ d) =
    (
      k,
      if contains_key k before
          then a
          else record a { account_seal = compute_account_seal blake3_512 a.account_seal op_hash },
    )
    ∷ seal_new blake3_512 op_hash before d

module _ (env : Env) where
  -- One round of phase 2: the total of the fees after the operation.
  unfoldable pub execute_and_seal : ℕ → Operation → Exec ℕ
  unfolding execute_operation seal_new saturating_add
  execute_and_seal total_fee op s = elim (execute_operation env op s) [
    | err e ↦ err e
    | ok (op_fee, s') ↦ ok (
      saturating_add total_fee op_fee,
      record s' {
        modified =
            seal_new env.crypto.blake3_512 (env.crypto.blake3_512 (operation_to_bytes op))
              s.modified s'.modified;
      },
    )
  ]

  unfoldable pub execute_operations : ℕ → List Operation → Exec ℕ
  unfolding execute_and_seal
  execute_operations total_fee [] s = ok (total_fee, s)
  execute_operations total_fee (op ∷ ops) s = elim (execute_and_seal total_fee op s) [
    | err e ↦ err e
    | ok (total', s') ↦ execute_operations total' ops s'
  ]

  -- The check of the hard cap, made while there is a reward.
  unfoldable pub check_cap : ℕ → Exec (Unit {0})
  unfolding block_reward saturating_mul
  check_cap leader_id =
      fail_if
        (if ltb 0 (block_reward env.block_number)
          then leb hard_cap_augesat
              (saturating_mul env.block_number (hard_cap_augesat / total_emission_blocks))
          else false)
        (operation_failed leader_id (Reason.emission_cap_exceeded env.block_number))

  -- A leader account that has the zero key gets the key of the header.
  unfoldable pub bind_leader_key : Bytes → Account → Account
  unfolding bytes_eq
  bind_leader_key header_key a =
      if bytes_eq a.account_info.account_key empty_key
      then record a { account_info = record (a.account_info) { account_key = header_key } }
      else a

  -- Phase 3: the leader's key after it.
  unfoldable pub pay_leader : ℕ → Bytes → ℕ → Exec Bytes
  unfolding check_cap load_account bind_leader_key add_balance put_account block_reward
      saturating_add
  pay_leader leader_id header_key total_fees = do
    check_cap leader_id
    loaded ← load_account env leader_id
    paid ←
        lift
          (add_balance (saturating_add (block_reward env.block_number) total_fees)
            (bind_leader_key header_key loaded))
          (λ e. operation_failed leader_id (Reason.balance e))
    put_account leader_id paid
    pure paid.account_info.account_key

  -- A new AUGEID of the leader.
  unfoldable pub reserved_account : ℕ → Bytes → Account
  reserved_account number leader_key = record {
    account_number = number;
    account_info = record {
      state = AccountState.reserved;
      account_key = leader_key;
      locked_until_block = 0;
      price = 0;
      account_to_pay = 0;
      new_public_key = none;
      hashed_secret = replicate 32 0;
    };
    balance = 0;
    updated_on_block_passive_mode = env.block_number;
    updated_on_block_active_mode = env.block_number;
    n_operation = 0;
    name = none;
    account_type = 0;
    account_data = [];
    account_seal = [];
  }

  -- One slot of phase 4. A number that is known already is passed over.
  unfoldable pub emit_slot : Bytes → ℕ → Exec (Unit {0})
  unfolding contains_key new_account reserved_account insert
  emit_slot leader_key number s =
      if contains_key number s.original || contains_key number s.modified
      then ok (tt, s)
      else elim (env.database.get_account number) [
        | err e ↦ err (storage e)
        | ok (some _) ↦ ok (tt, s)
        | ok none ↦ ok (
          tt,
          record s {
            original = insert number (new_account number empty_key env.block_number) s.original;
            modified = insert number (reserved_account number leader_key) s.modified;
          },
        )
      ]

  -- the numbers of the block's slots
  unfoldable pub slots : List ℕ
  unfolding saturating_mul saturating_add
  slots =
      let start = saturating_mul env.block_number ct_accounts_per_block in
      saturating_add start 0 ∷ saturating_add start 1 ∷ saturating_add start 2 ∷ []

  -- Phases 2 to 4.
  unfoldable pub transition : OperationBlock → Exec (Unit {0})
  unfolding execute_operations pay_leader emit_slot slots each
  transition block = do
    total_fees ← execute_operations 0 block.operations
    leader_key ← pay_leader block.header.leader_id block.header.account_key total_fees
    each (emit_slot leader_key) slots

-- The stored validator set, decoded.
unfoldable pub load_validator_set : Crypto → Storage → Result ExecutionError (Option ValidatorSet)
unfolding set_from_bytes
load_validator_set c st = elim st.get_validator_set_bytes [
  | err e ↦ err (storage e)
  | ok none ↦ ok none
  | ok (some raw) ↦ elim (set_from_bytes c raw) [
    | err e ↦ err (operation_failed 0 (Reason.validator_set_invalid e))
    | ok vs ↦ ok (some vs)
  ]
]

abbrev pub start_state : Option ValidatorSet → ExecState
start_state vs = record {
  modified = [];
  original = [];
  name_pending = [];
  pending_validator_set = vs;
  contract_overlay = [];
  contract_events = [];
}

-- What is handed to the database: the accounts, the validator set and the contract state.
pub record Commit : Type 0 where
  pub accounts : Dict Account
  pub validator_set_bytes : Option Bytes
  pub contract_writes : List (Bytes × Option Bytes)
  pub contract_events : List Bytes

unfoldable pub commit_of : ExecState → Commit
unfolding set_to_bytes
commit_of s = record {
  accounts = s.modified;
  validator_set_bytes = elim s.pending_validator_set [
    | none ↦ none
    | some vs ↦ some (set_to_bytes vs)
  ];
  contract_writes = s.contract_overlay;
  contract_events = s.contract_events;
}

module _ (c : Crypto) (st : Storage) (host : ContractHost) where
  -- All that is done before the `commit` flag is looked at.
  unfoldable pub run_block : OperationBlock → Result ExecutionError ExecState
  unfolding load_validator_set first_unsigned transition
  run_block block = elim st.safebox_name_index [
    | err e ↦ err (storage e)
    | ok names ↦ elim (load_validator_set c st) [
      | err e ↦ err e
      | ok vs ↦ elim (first_unsigned c st 0 block.operations) [
        | some i ↦ err (operation_failed 0 (Reason.bad_signature i))
        | none ↦
            elim (transition
              (record {
                crypto = c;
                database = st;
                host = host;
                block_number = block.header.block_number;
                existing_name_index = names;
              })
              block (start_state vs)) [ err e ↦ err e | ok (_, s) ↦ ok s ]
      ]
    ]
  ]

  unfoldable pub execute_block_inner :
      (Commit → Result StorageError (Result StorageError Bytes))
      → OperationBlock
      → Bool
      → Result ExecutionError Bytes
  unfolding run_block commit_of
  execute_block_inner commit block false = elim (run_block block) [
    | err e ↦ err e
    | ok s ↦ ok (replicate 64 0)
  ]
  execute_block_inner commit block true = elim (run_block block) [
    | err e ↦ err e
    | ok s ↦ elim (commit (commit_of s)) [
      | err e ↦ err (safe_box e)
      | ok (err e) ↦ err (storage e)
      | ok (ok root) ↦ ok root
    ]
  ]

  unfoldable pub execute_block :
      (Commit → Result StorageError (Result StorageError Bytes))
      → OperationBlock
      → Result ExecutionError Bytes
  unfolding execute_block_inner
  execute_block commit block = execute_block_inner commit block true

  unfoldable pub validate_block_execution :
      (Commit → Result StorageError (Result StorageError Bytes))
      → OperationBlock
      → Result ExecutionError (Unit {0})
  unfolding execute_block_inner
  validate_block_execution commit block = elim (execute_block_inner commit block false) [
    | err e ↦ err e
    | ok root ↦ ok tt
  ]
