-- ===== src/Core/Mempool.antt =====
-- crates/augecoin-core/src/mempool.rs: the pending operations of a node and their indexes.
pub mod Checks
pub mod Fees
pub mod Methods
pub mod Evict
pub mod Invariant
pub mod Admits
pub mod Runs
pub mod Counters
pub mod Bounds
use augecoin.Base.{
  ℕ, ◌+◌, Bool, true, false, ◌&&◌, Option, none, some, List, [], ◌∷◌, ◌++◌, leb, ltb, ◌==◌,
  if◌then◌else◌, Bytes, length, map, Dict, TextDict, lookup, insert, Result, ok, err,
}
use augecoin.Core.Account.{Account}
use augecoin.Core.Operation.{SenderInfo, OperationPayload, Operation}

-- The reads that the mempool makes of the accounts; any of them may fail.
pub record AccountLookup : Type 0 where
  pub get_account : ℕ → Result Bytes (Option Account)

-- The texts of `InvalidAccountState` are left out.
pub data MempoolError : Type 0 where
  invalid_signature : MempoolError
  sender_not_found : ℕ → MempoolError
  -- sender, expected, actual
  invalid_n_operation : ℕ → ℕ → ℕ → MempoolError
  -- account, balance, required
  insufficient_balance : ℕ → ℕ → ℕ → MempoolError
  -- fee, minimum
  fee_too_low : ℕ → ℕ → MempoolError
  -- sender, n_operation
  duplicate_operation : ℕ → ℕ → MempoolError
  duplicate_op_hash : MempoolError
  invalid_account_state : ℕ → MempoolError
  storage : Bytes → MempoolError
  mempool_full : MempoolError
  -- expected, actual
  wrong_chain_id : ℕ → ℕ → MempoolError
  admin_key_not_configured : MempoolError
  -- sent, received
  unbalanced_transfer : ℕ → ℕ → MempoolError
  transfer_value_overflow : MempoolError

pub record MempoolConfig : Type 0 where
  pub min_fee : ℕ
  pub max_operations : ℕ
  pub chain_id : ℕ
  pub ttl_seconds : ℕ
  pub contract_gas_reserve : ℕ

-- An account and one of its counters.
abbrev pub Nonce : Type 0
Nonce = ℕ × ℕ

abbrev pub nonce_eq : Nonce → Nonce → Bool
nonce_eq (a, n) (b, k) = (a == b) && (n == k)

-- the map from nonces to positions
abbrev pub NonceDict : Type 0
NonceDict = List (Nonce × ℕ)

unfoldable pub nonce_lookup : Nonce → NonceDict → Option ℕ
nonce_lookup k [] = none
nonce_lookup k ((j, v) ∷ d) = if nonce_eq k j then some v else nonce_lookup k d

unfoldable pub nonce_insert : Nonce → ℕ → NonceDict → NonceDict
nonce_insert k v [] = (k, v) ∷ []
nonce_insert k v (e ∷ d) = if nonce_eq k e.0 then (k, v) ∷ d else e ∷ nonce_insert k v d

unfoldable pub nonce_remove : Nonce → NonceDict → NonceDict
nonce_remove k [] = []
nonce_remove k (e ∷ d) = if nonce_eq k e.0 then nonce_remove k d else e ∷ nonce_remove k d

-- `operations[i]` was admitted at `admitted_at[i]`.
pub record Mempool : Type 0 where
  pub config : MempoolConfig
  pub operations : List Operation
  pub admitted_at : List ℕ
  pub sender_n_ops : Dict ℕ
  pub op_index : NonceDict
  pub by_hash : TextDict Operation
  pub admin_pubkey : Option Bytes

unfoldable pub new : MempoolConfig → Mempool
new config = record {
  config = config;
  operations = [];
  admitted_at = [];
  sender_n_ops = [];
  op_index = [];
  by_hash = [];
  admin_pubkey = none;
}

unfoldable pub is_full : Mempool → Bool
is_full m = leb m.config.max_operations (length m.operations)

unfoldable pub payload_senders : OperationPayload → List SenderInfo
payload_senders (OperationPayload.transaction senders _ _ _) = senders
payload_senders (OperationPayload.address_transaction senders _ _) = senders
payload_senders (OperationPayload.multi_operation senders _ _ _) = senders
payload_senders (OperationPayload.data_operation d) = d.senders
payload_senders _ = []

-- `account_for_payload`
unfoldable pub account_for_payload : OperationPayload → Option ℕ
account_for_payload (OperationPayload.change_key account _ _ _) = some account
account_for_payload (OperationPayload.change_key_signed account _ _ _ _) = some account
account_for_payload (OperationPayload.list_account_for_sale l) = some l.account
account_for_payload (OperationPayload.delist_account account _ _) = some account
account_for_payload (OperationPayload.buy_account p) = some p.buyer_account
account_for_payload (OperationPayload.change_account_info i) = some i.account
account_for_payload (OperationPayload.data_operation d) = some d.account
account_for_payload (OperationPayload.contract call) = some call.account
account_for_payload _ = none

unfoldable pub payload_n_operation : OperationPayload → Option ℕ
payload_n_operation (OperationPayload.change_key _ n _ _) = some n
payload_n_operation (OperationPayload.change_key_signed _ n _ _ _) = some n
payload_n_operation (OperationPayload.list_account_for_sale l) = some l.n_operation
payload_n_operation (OperationPayload.delist_account _ n _) = some n
payload_n_operation (OperationPayload.buy_account p) = some p.n_operation
payload_n_operation (OperationPayload.change_account_info i) = some i.n_operation
payload_n_operation (OperationPayload.data_operation d) = some d.n_operation
payload_n_operation (OperationPayload.gift_account _ n _ _) = some n
payload_n_operation (OperationPayload.accept_gift _ n _) = some n
payload_n_operation (OperationPayload.contract call) = some call.n_operation
payload_n_operation _ = none

abbrev pub nonce_of : SenderInfo → Nonce
nonce_of s = (s.account, s.n_operation)

abbrev pub pair_of : Option ℕ → Option ℕ → List Nonce
pair_of (some account) (some n) = (account, n) ∷ []
pair_of _ _ = []

unfoldable pub op_nonce_pairs : OperationPayload → List Nonce
unfolding account_for_payload payload_n_operation
op_nonce_pairs (OperationPayload.transaction senders _ _ _) = map nonce_of senders
op_nonce_pairs (OperationPayload.address_transaction senders _ _) = map nonce_of senders
op_nonce_pairs (OperationPayload.multi_operation senders _ _ _) = map nonce_of senders
op_nonce_pairs (OperationPayload.data_operation d) =
    (d.account, d.n_operation) ∷ map nonce_of d.senders
op_nonce_pairs p = pair_of (account_for_payload p) (payload_n_operation p)

unfoldable pub payload_fee : OperationPayload → ℕ
payload_fee (OperationPayload.transaction _ _ _ fee) = fee
payload_fee (OperationPayload.address_transaction _ _ fee) = fee
payload_fee (OperationPayload.multi_operation _ _ _ fee) = fee
payload_fee (OperationPayload.change_key _ _ fee _) = fee
payload_fee (OperationPayload.change_key_signed _ _ fee _ _) = fee
payload_fee (OperationPayload.list_account_for_sale l) = l.fee
payload_fee (OperationPayload.delist_account _ _ fee) = fee
payload_fee (OperationPayload.buy_account p) = p.fee
payload_fee (OperationPayload.change_account_info i) = i.fee
payload_fee (OperationPayload.data_operation d) = d.fee
payload_fee (OperationPayload.recover_founds _) = 0
payload_fee (OperationPayload.validator_admin _) = 0
payload_fee (OperationPayload.create_account _ _ _) = 0
payload_fee (OperationPayload.gift_account _ _ _ fee) = fee
payload_fee (OperationPayload.accept_gift _ _ fee) = fee
payload_fee (OperationPayload.contract call) = call.fee
