-- ===== src/Core/Operation.antt =====
-- crates/augecoin-core/src/operation.rs: the operations that a block carries.
use augecoin.Base.{ℕ, Option, Bytes, List}

abbrev pub Signature : Type 0
Signature = Bytes

pub record SenderInfo : Type 0 where
  pub account : ℕ
  pub n_operation : ℕ
  pub amount : ℕ
  pub payload : Bytes

pub record ReceiverInfo : Type 0 where
  pub account : ℕ
  pub amount : ℕ
  pub payload : Bytes

-- crates/augecoin-crypto/src/address.rs: the hash of a key, and the key where the address has it
pub record AddressHash : Type 0 where
  pub hash : Bytes
  pub public_key : Option Bytes

pub record AddressReceiverInfo : Type 0 where
  pub address : AddressHash
  pub amount : ℕ
  pub payload : Bytes

pub record ChangerInfo : Type 0 where
  pub account : ℕ
  pub n_operation : ℕ
  pub new_ed25519_public_key : Bytes
  pub new_name : Option Bytes
  pub new_type : ℕ
  pub new_account_data : Bytes
  pub new_account_seal : Bytes
  pub fee : ℕ

pub data ValidatorAdminOp : Type 0 where
  add : Bytes → ℕ → ValidatorAdminOp
  remove activate deactivate : ℕ → ℕ → ValidatorAdminOp

-- the fields of the variants that have more than four
pub record ListForSale : Type 0 where
  pub account : ℕ
  pub n_operation : ℕ
  pub sale_price : ℕ
  pub account_to_pay : ℕ
  pub new_ed25519_public_key : Bytes
  pub locked_until_block : ℕ
  pub fee : ℕ

pub record Purchase : Type 0 where
  pub buyer_account : ℕ
  pub n_operation : ℕ
  pub account_to_purchase : ℕ
  pub amount : ℕ
  pub fee : ℕ
  pub new_ed25519_public_key : Bytes
  pub seller_account : ℕ

pub record InfoChange : Type 0 where
  pub account : ℕ
  pub n_operation : ℕ
  pub fee : ℕ
  pub new_ed25519_public_key : Bytes
  pub new_name : Option Bytes
  pub new_type : ℕ
  pub new_account_data : Bytes
  pub new_account_seal : Bytes

pub record DataOp : Type 0 where
  pub account : ℕ
  pub n_operation : ℕ
  pub fee : ℕ
  pub contents : Bytes
  pub senders : List SenderInfo
  pub receivers : List ReceiverInfo
  pub changers : List ChangerInfo

pub record ContractCall : Type 0 where
  pub account : ℕ
  pub n_operation : ℕ
  pub fee : ℕ
  pub op_type : ℕ
  pub contents : Bytes

pub data OperationPayload : Type 0 where
  transaction : List SenderInfo → List ReceiverInfo → List ChangerInfo → ℕ → OperationPayload
  address_transaction : List SenderInfo → List AddressReceiverInfo → ℕ → OperationPayload
  -- account, n_operation, fee, new key
  change_key : ℕ → ℕ → ℕ → Bytes → OperationPayload
  recover_founds : ℕ → OperationPayload
  list_account_for_sale : ListForSale → OperationPayload
  -- account, n_operation, fee
  delist_account : ℕ → ℕ → ℕ → OperationPayload
  buy_account : Purchase → OperationPayload
  -- account, n_operation, fee, new key, its signature
  change_key_signed : ℕ → ℕ → ℕ → Bytes → Signature → OperationPayload
  change_account_info : InfoChange → OperationPayload
  multi_operation : List SenderInfo → List ReceiverInfo → List ChangerInfo → ℕ → OperationPayload
  data_operation : DataOp → OperationPayload
  validator_admin : ValidatorAdminOp → OperationPayload
  -- account number, key, initial metadata
  create_account : ℕ → Bytes → Bytes → OperationPayload
  -- account, n_operation, recipient key, fee
  gift_account : ℕ → ℕ → Bytes → ℕ → OperationPayload
  -- account, n_operation, fee
  accept_gift : ℕ → ℕ → ℕ → OperationPayload
  contract : ContractCall → OperationPayload

-- `op_type` is derived from the payload and is left out.
pub record Operation : Type 0 where
  pub payload : OperationPayload
  pub chain_id : ℕ
  pub signatures : List Signature
