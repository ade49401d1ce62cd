-- ===== src/Tests/Data.antt =====
-- Inputs of the tests: a toy hash and signature scheme, a database, accounts, a validator set.
use augecoin.Base.{
  ℕ, ◌%◌, true, none, some, List, [], ◌∷◌, Bytes, bytes_eq, length, replicate, Dict, ok,
}
use augecoin.Crypto.{Crypto}
use augecoin.Core.Account.{AccountState, Account}
use augecoin.Core.Operation.{SenderInfo, ReceiverInfo, ChangerInfo, Operation, OperationPayload}
use augecoin.Core.Block.{OperationBlockHeader, OperationBlock}
use augecoin.Core.SafeBox.{SafeBox}
use augecoin.Consensus.Validator.{ValidatorStatus, ValidatorInfo, ValidatorSet}
use augecoin.Node.Execution.State.{Storage, ContractHost, ContractOp, ApplyOutcome, Env, ExecState}

-- A "hash" that counts, and a "signature" that is the key.
abbrev pub toy_hash : Bytes → Bytes
toy_hash bs = replicate 64 (length bs % 256)

abbrev pub toy : Crypto
toy = record {
  blake3_512 = toy_hash;
  valid_key = λ key. true;
  verify = λ key sig message. bytes_eq key sig;
}

abbrev pub empty_storage : Storage
empty_storage = record {
  get_account = λ n. ok none;
  safebox_name_index = ok [];
  get_validator_set_bytes = ok none;
  resolve_address = λ a. ok none;
  safebox = ok [];
  consensus_state_root = ok (replicate 64 0);
}

abbrev pub outcome_five : ApplyOutcome
outcome_five = record { gas_used = 5; writes = ((7 ∷ []), some (8 ∷ [])) ∷ []; events = [] }

abbrev pub toy_host : ContractHost
toy_host = record {
  decode = λ bytes. ok (ContractOp.store_code bytes);
  run = λ overlay account op height limit. ok outcome_five;
}

abbrev pub env_at : ℕ → Env
env_at height = record {
  crypto = toy;
  database = empty_storage;
  host = toy_host;
  block_number = height;
  existing_name_index = [];
}

abbrev pub env : Env
env = env_at 10

abbrev pub account_in : AccountState → ℕ → ℕ → ℕ → Account
account_in state number balance n = record {
  account_number = number;
  account_info = record {
    state = state;
    account_key = replicate 32 number;
    locked_until_block = 0;
    price = 0;
    account_to_pay = 0;
    new_public_key = none;
    hashed_secret = replicate 32 0;
  };
  balance = balance;
  updated_on_block_passive_mode = 0;
  updated_on_block_active_mode = 0;
  n_operation = n;
  name = none;
  account_type = 0;
  account_data = [];
  account_seal = [];
}

abbrev pub owned : ℕ → ℕ → ℕ → Account
owned = account_in AccountState.owned

abbrev pub listed : ℕ → ℕ → ℕ → ℕ → Account
listed number balance price payee =
    let a = account_in AccountState.for_sale number balance 0 in
    record a { account_info = record (a.account_info) { price = price; account_to_pay = payee } }

abbrev pub state_with : Dict Account → ExecState
state_with accounts = record {
  modified = accounts;
  original = [];
  name_pending = [];
  pending_validator_set = none;
  contract_overlay = [];
  contract_events = [];
}

abbrev pub two_owners : ExecState
two_owners = state_with ((1, owned 1 1000 4) ∷ (2, owned 2 50 0) ∷ [])

abbrev pub pay_30 : SenderInfo
pay_30 = record { account = 1; n_operation = 4; amount = 30; payload = [] }

abbrev pub get_30 : ReceiverInfo
get_30 = record { account = 2; amount = 30; payload = [] }

abbrev pub new_key : ChangerInfo
new_key = record {
  account = 2;
  n_operation = 0;
  new_ed25519_public_key = replicate 32 9;
  new_name = none;
  new_type = 0;
  new_account_data = [];
  new_account_seal = [];
  fee = 0;
}

abbrev pub validator : ℕ → ValidatorInfo
validator id = record {
  id = id;
  ed25519_public_key = replicate 32 id;
  status = ValidatorStatus.active;
}

abbrev pub two_validators : ValidatorSet
two_validators = record {
  admin_public_key = replicate 32 5;
  validators = validator 0 ∷ validator 1 ∷ [];
  next_validator_id = 2;
}

abbrev pub one_validator : ValidatorSet
one_validator = record {
  admin_public_key = replicate 32 5;
  validators = validator 0 ∷ [];
  next_validator_id = 1;
}

abbrev pub both_sign : List Bytes
both_sign = replicate 32 0 ∷ replicate 32 1 ∷ []

abbrev pub header_of : ℕ → Bytes → ℕ → OperationBlockHeader
header_of number operations_hash leader = record {
  block_number = number;
  account_key = replicate 32 3;
  reward = 0;
  fee = 0;
  protocol_version = 1;
  protocol_available = 1;
  timestamp = 100;
  initial_safe_box_hash = replicate 64 0;
  operations_hash = operations_hash;
  block_payload = [];
  proof_of_work = [];
  previous_proof_of_work = [];
  leader_id = leader;
  chain_id = 1;
}

abbrev pub block_of : ℕ → Bytes → ℕ → List Operation → OperationBlock
block_of number operations_hash leader operations = record {
  header = header_of number operations_hash leader;
  operations = operations;
  leader_signature = replicate 32 leader;
  quorum_signatures = both_sign;
  block_hash = [];
}

abbrev pub transfer_op : Operation
transfer_op = record {
  payload = OperationPayload.transaction (pay_30 ∷ []) (get_30 ∷ []) [] 2;
  chain_id = 1;
  signatures = [];
}

-- A signature of 64 bytes, and a transfer and a header that the readers take.
abbrev pub some_sig : Bytes
some_sig = replicate 64 7

abbrev pub signed_op : Operation
signed_op = record transfer_op { signatures = some_sig ∷ [] }

abbrev pub full_header : OperationBlockHeader
full_header = record (header_of 1 (replicate 64 0) 0) {
  proof_of_work = replicate 32 0;
  previous_proof_of_work = replicate 32 0;
}

abbrev pub small_box : SafeBox
small_box = record {
  accounts = (1, owned 1 1000 4) ∷ (2, owned 2 50 0) ∷ (5, owned 5 1 0) ∷ [];
  name_index = [];
}
