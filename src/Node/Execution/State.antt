-- ===== src/Node/Execution/State.antt =====
-- crates/augecoin-node/src/execution.rs: what a block's execution reads, the overlays that it
-- writes, and its errors.
use augecoin.Base.{
  ℕ, Bool, Option, none, some, List, [], ◌∷◌, Bytes, Dict, TextDict, lookup, insert, or_insert,
  Result, ok, err, if◌then◌else◌,
}
use augecoin.Crypto.{Crypto}
use augecoin.Core.Account.{AccountState, AccountError, Account, new_account, empty_key}
use augecoin.Core.Operation.{AddressHash}
use augecoin.Consensus.Validator.{ValidatorSet, ValidatorSetError}
use augecoin.Consensus.Validator.Codec.{DecodeError}

-- the text of a database error
abbrev pub StorageError : Type 0
StorageError = Bytes

-- The database (crates/augecoin-storage) as one execution reads it: every read may fail.
pub record Storage : Type 0 where
  pub get_account : ℕ → Result StorageError (Option Account)
  pub safebox_name_index : Result StorageError (TextDict ℕ)
  pub get_validator_set_bytes : Result StorageError (Option Bytes)
  pub resolve_address : AddressHash → Result StorageError (Option ℕ)
  -- the accounts of the resident SafeBox, in the order of their numbers
  pub safebox : Result StorageError (List Account)
  pub consensus_state_root : Result StorageError Bytes

-- crates/augecoin-contracts: a decoded contract operation, and what running it asks for.
pub data ContractOp : Type 0 where
  store_code : Bytes → ContractOp
  create_contract : ℕ → Bytes → ContractOp
  execute_contract : Bytes → Bytes → ContractOp

pub record ApplyOutcome : Type 0 where
  pub gas_used : ℕ
  pub writes : List (Bytes × Option Bytes)
  pub events : List Bytes

-- The overlay of contract writes; `none` marks a deleted key.
abbrev pub ContractOverlay : Type 0
ContractOverlay = TextDict (Option Bytes)

-- The contract engine and the decoder of its operations. A `ContractError` is its text. The engine
-- has the overlay, the account, the operation, the height and the gas limit.
pub record ContractHost : Type 0 where
  pub decode : Bytes → Result Bytes ContractOp
  pub run : ContractOverlay → ℕ → ContractOp → ℕ → ℕ → Result Bytes ApplyOutcome

pub data Reason : Type 0 where
  cannot_send cannot_receive : ℕ → AccountState → Reason
  sender_not_active : Reason
  -- expected, got
  invalid_n_operation invalid_changer_n_operation : ℕ → ℕ → Reason
  invalid_n_operation_plain : Reason
  balance : AccountError → Reason
  transfer_not_conserved : ℕ → ℕ → Reason
  transfer_total_overflow : Reason
  account_data_too_large data_payload_too_large initial_metadata_too_large : ℕ → Reason
  account_data_length_overflow : Reason
  address_key_mismatch legacy_address no_reserved_augeid address_target_reserved : Reason
  invalid_new_key new_key_signature : Reason
  still_has_balance : Reason
  gift_pending_cannot_be_listed : Reason
  not_for_sale : AccountState → Reason
  price_mismatch : ℕ → ℕ → Reason
  account_locked seller_mismatch : Reason
  validator_set_missing : Reason
  validator_set_invalid : DecodeError → Reason
  validator_set : ValidatorSetError → Reason
  invalid_public_key : Reason
  not_reserved : ℕ → AccountState → Reason
  invalid_recipient_key pending_gift not_awaiting_gift no_recipient_key : Reason
  insufficient_for_gas : ℕ → ℕ → Reason
  invalid_contract_op contract_failed : Bytes → Reason
  account_missing : Reason
  -- the index of the operation
  bad_signature : ℕ → Reason
  emission_cap_exceeded : ℕ → Reason
  state_root_mismatch : Reason

pub data ExecutionError : Type 0 where
  operation_failed : ℕ → Reason → ExecutionError
  storage : StorageError → ExecutionError
  leader_not_found : ℕ → ExecutionError
  safe_box : StorageError → ExecutionError
  name_already_taken : Bytes → ℕ → ExecutionError
  invalid_leader_signature : ExecutionError
  insufficient_quorum : ℕ → ℕ → ExecutionError
  operations_hash_mismatch : Bytes → Bytes → ExecutionError
  future_timestamp : ℕ → ℕ → ℕ → ExecutionError

-- What every operation of one block can read.
pub record Env : Type 0 where
  pub crypto : Crypto
  pub database : Storage
  pub host : ContractHost
  pub block_number : ℕ
  pub existing_name_index : TextDict ℕ

-- The overlays of `execute_block_inner`.
pub record ExecState : Type 0 where
  pub modified : Dict Account
  pub original : Dict Account
  pub name_pending : TextDict ℕ
  pub pending_validator_set : Option ValidatorSet
  pub contract_overlay : ContractOverlay
  pub contract_events : List Bytes

-- A step that may write the overlays. On an error the block is given up with them.
abbrev pub Exec : Type 0 → Type 0
Exec A = ExecState → Result ExecutionError (A × ExecState)

infixl 5 ◌>>=◌ ◌>>◌
abbrev pub ◌>>=◌ : {A B : Type 0} → Exec A → (A → Exec B) → Exec B
◌>>=◌ m f s = elim (m s) [ ok (a, s') ↦ f a s' | err e ↦ err e ]

abbrev pub ◌>>◌ : {A B : Type 0} → Exec A → Exec B → Exec B
◌>>◌ m k s = elim (m s) [ ok (a, s') ↦ k s' | err e ↦ err e ]

abbrev pub pure : {A : Type 0} → A → Exec A
pure a s = ok (a, s)

abbrev pub fail : {A : Type 0} → ExecutionError → Exec A
fail e s = err e

-- `if c { return Err(e) }`
abbrev pub fail_if : Bool → ExecutionError → Exec (Unit {0})
fail_if c e s = if c then err e else ok (tt, s)

-- A result with its error mapped, and `?`.
abbrev pub lift : {A E : Type 0} → Result E A → (E → ExecutionError) → Exec A
lift (ok a) f s = ok (a, s)
lift (err e) f s = err (f e)

abbrev pub or_fail : {A : Type 0} → Option A → ExecutionError → Exec A
or_fail none e s = err e
or_fail (some a) e s = ok (a, s)

-- `for x in xs { step(x)?; }`
unfoldable pub each : {A : Type 0} → (A → Exec (Unit {0})) → List A → Exec (Unit {0})
each step [] = pure tt
each step (x ∷ xs) = step x >> each step xs

module _ (env : Env) where
  -- The closure `load_account`: the overlay first, then the database, then a new account.
  unfoldable pub load_account : ℕ → Exec Account
  unfolding lookup or_insert new_account
  load_account number s = elim (lookup number s.modified) [
    | some acc ↦ ok (acc, s)
    | none ↦ elim (env.database.get_account number) [
      | err e ↦ err (storage e)
      | ok none ↦
          let acc = new_account number empty_key env.block_number in
          ok (acc, record s { original = or_insert number acc s.original })
      | ok (some acc) ↦ ok (acc, record s { original = or_insert number acc s.original })
    ]
  ]

-- `modified.insert(number, acc)`
unfoldable pub put_account : ℕ → Account → Exec (Unit {0})
unfolding insert
put_account number acc s = ok (tt, record s { modified = insert number acc s.modified })
