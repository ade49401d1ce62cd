-- ===== src/Core/Account.antt =====
-- crates/augecoin-core/src/account.rs: the states of an AUGEID, its record, and the operations on
-- its balance and its counter. A 32-byte key and a UTF-8 name are their bytes.
pub mod Codec
pub mod RoundTrip
use augecoin.Base.{
  ℕ, ◌+◌, ◌≡◌, Bool, Option, none, some, [], ◌++◌, leb, ltb, ◌==◌, if◌then◌else◌, Bytes, replicate,
  take, Result, ok, err, saturating_add, checked_add, checked_sub, u64_max, arith,
}

pub data AccountState : Type 0 where
  unknown normal for_sale for_atomic_account_swap for_atomic_coin_swap : AccountState
  reserved owned gift_pending : AccountState

unfoldable pub state_to_u8 : AccountState → ℕ
state_to_u8 AccountState.unknown = 0
state_to_u8 AccountState.normal = 1
state_to_u8 AccountState.for_sale = 2
state_to_u8 AccountState.for_atomic_account_swap = 3
state_to_u8 AccountState.for_atomic_coin_swap = 4
state_to_u8 AccountState.reserved = 5
state_to_u8 AccountState.owned = 6
state_to_u8 AccountState.gift_pending = 7

unfoldable pub state_from_u8 : ℕ → Option AccountState
state_from_u8 v =
    if v == 0
    then some AccountState.unknown
    else if v == 1
    then some AccountState.normal
    else if v == 2
    then some AccountState.for_sale
    else if v == 3
    then some AccountState.for_atomic_account_swap
    else if v == 4
    then some AccountState.for_atomic_coin_swap
    else if v == 5
    then some AccountState.reserved
    else if v == 6
    then some AccountState.owned
    else if v == 7
    then some AccountState.gift_pending
    else none

-- `==` on the states
unfoldable pub state_eq : AccountState → AccountState → Bool
unfolding state_to_u8
state_eq a b = state_to_u8 a == state_to_u8 b

abbrev pub AccountKey : Type 0
AccountKey = Bytes

-- `[0u8; 32]`
abbrev pub empty_key : AccountKey
empty_key = replicate 32 0

pub record AccountInfo : Type 0 where
  pub state : AccountState
  pub account_key : AccountKey
  pub locked_until_block : ℕ
  pub price : ℕ
  pub account_to_pay : ℕ
  pub new_public_key : Option AccountKey
  pub hashed_secret : Bytes

pub record Account : Type 0 where
  pub account_number : ℕ
  pub account_info : AccountInfo
  pub balance : ℕ
  pub updated_on_block_passive_mode : ℕ
  pub updated_on_block_active_mode : ℕ
  pub n_operation : ℕ
  pub name : Option Bytes
  pub account_type : ℕ
  pub account_data : Bytes
  pub account_seal : Bytes

-- the errors of the balance operations
pub data AccountError : Type 0 where
  insufficient_balance : ℕ → ℕ → AccountError
  balance_overflow : AccountError

-- `AccountInfo::default`
unfoldable pub default_info : AccountInfo
default_info = record {
  state = AccountState.normal;
  account_key = empty_key;
  locked_until_block = 0;
  price = 0;
  account_to_pay = 0;
  new_public_key = none;
  hashed_secret = replicate 32 0;
}

-- `Account::new`
unfoldable pub new_account : ℕ → AccountKey → ℕ → Account
new_account number key block = record {
  account_number = number;
  account_info = record {
    state = AccountState.normal;
    account_key = key;
    locked_until_block = 0;
    price = 0;
    account_to_pay = 0;
    new_public_key = none;
    hashed_secret = replicate 32 0;
  };
  balance = 0;
  updated_on_block_passive_mode = block;
  updated_on_block_active_mode = block;
  n_operation = 0;
  name = none;
  account_type = 0;
  account_data = [];
  account_seal = [];
}

unfoldable pub add_balance : ℕ → Account → Result AccountError Account
unfolding checked_add
add_balance amount a = elim (checked_add a.balance amount) [
  | none ↦ err balance_overflow
  | some b ↦ ok (record a { balance = b })
]

unfoldable pub subtract_balance : ℕ → Account → Result AccountError Account
unfolding checked_sub
subtract_balance amount a = elim (checked_sub a.balance amount) [
  | none ↦ err (insufficient_balance a.balance amount)
  | some b ↦ ok (record a { balance = b })
]

unfoldable pub increment_n_operation : Account → Account
unfolding saturating_add
increment_n_operation a = record a { n_operation = saturating_add a.n_operation 1 }

unfoldable pub is_locked : Account → ℕ → Bool
is_locked a current_block = leb current_block a.account_info.locked_until_block

-- The first 32 bytes of the hash of the previous seal and the operation's hash.
unfoldable pub compute_account_seal : (Bytes → Bytes) → Bytes → Bytes → Bytes
compute_account_seal blake3_512 previous_seal operation_hash =
    take 32 (blake3_512 (previous_seal ++ operation_hash))
