-- ===== src/Tests/Mempool.antt =====
-- The theorems on the mempool, on what it lets through and on the leader's block at concrete inputs.
use augecoin.Base.{
  ℕ, zero, suc, ◌≤◌, ◌<◌, ◌≡◌, refl, false, Option, none, some, List, [], ◌∷◌, Bytes, bytes_eq,
  length, replicate, ok, to_be_bytes, arith,
}
use augecoin.Core.Account.{AccountState, Account}
use augecoin.Core.Operation.{Operation, OperationPayload}
use augecoin.Core.Block.Hash.{op_hash}
use augecoin.Core.Mempool.{AccountLookup, MempoolConfig, Mempool, new, payload_senders}
use augecoin.Core.Mempool.Invariant.{IsValid}
use augecoin.Core.Mempool.Methods.{admissible, admitted, validate_and_admit, set_admin_pubkey}
use augecoin.Core.Mempool.Evict.{evict_expired, evict_lowest_priority}
use augecoin.Core.Mempool.Bounds.{Reach-IsBounded}
use augecoin.Core.Mempool.Runs.{Reach, start, next, sets_admin, admits, expires, Reach-IsValid}
use augecoin.Core.Mempool.Counters.{senderless_untracked}
use augecoin.Tests.Data.{toy, owned, account_in, transfer_op}

abbrev pub pool_config : MempoolConfig
pool_config = record {
  min_fee = 1;
  max_operations = 10;
  chain_id = 1;
  ttl_seconds = 100;
  contract_gas_reserve = 0;
}

abbrev pub accounts_of : ℕ → Option Account
accounts_of (suc zero) = some (owned 1 1000 4)
accounts_of (suc (suc zero)) = some (owned 2 50 0)
accounts_of (suc (suc (suc zero))) = some (account_in AccountState.reserved 3 0 0)
accounts_of _ = none

abbrev pub accounts : AccountLookup
accounts = record { get_account = λ n. ok (accounts_of n) }

abbrev pub key_1 : Bytes
key_1 = replicate 32 1

abbrev pub pay_op : Operation
pay_op = record transfer_op { signatures = key_1 ∷ [] }

abbrev with_admin : Mempool
with_admin = set_admin_pubkey (new pool_config) key_1

abbrev pub with_pay : Mempool
with_pay = admitted toy accounts with_admin pay_op 50

pay_admissible : admissible toy accounts with_admin pay_op ≡ ok tt
unfolding admissible set_admin_pubkey new bytes_eq
pay_admissible = refl

pays : validate_and_admit toy accounts with_admin pay_op 50 ≡ ok with_pay
unfolding validate_and_admit
pays = rw (validate_and_admit, pay_admissible) refl

abbrev reached : Reach toy pool_config (evict_expired toy with_pay 200).0
reached =
    next
      (next (next start (sets_admin (new pool_config) key_1))
        (admits accounts with_admin pay_op 50 pays))
      (expires with_pay 200)

Reach-IsValid_example : IsValid toy (evict_expired toy with_pay 200).0
Reach-IsValid_example = Reach-IsValid toy reached

Reach-IsBounded_example :
    (length (evict_expired toy with_pay 200).0.operations ≤ 10)
    × (evict_lowest_priority toy (evict_expired toy with_pay 200).0
        ≡ ((evict_expired toy with_pay 200).0, 0))
Reach-IsBounded_example = Reach-IsBounded toy reached

abbrev change_1 : List Bytes → Operation
change_1 sigs = record {
  payload = OperationPayload.change_key 1 4 2 (replicate 32 9);
  chain_id = 1;
  signatures = sigs;
}

abbrev one_change : Operation
one_change = change_1 (key_1 ∷ [])

abbrev other_change : Operation
other_change = change_1 (key_1 ∷ key_1 ∷ [])

other_hash : bytes_eq (op_hash toy other_change) (op_hash toy one_change) ≡ false
unfolding op_hash bytes_eq to_be_bytes
other_hash = refl

one_admissible : admissible toy accounts (new pool_config) one_change ≡ ok tt
unfolding admissible new bytes_eq
one_admissible = refl

other_admissible : admissible toy accounts (new pool_config) other_change ≡ ok tt
unfolding admissible new bytes_eq
other_admissible = refl

roomy : suc (length (new pool_config).operations) < (new pool_config).config.max_operations
unfolding new
roomy = omega arith

senderless_untracked_example :
    (m' : Mempool) × (m'' : Mempool) × (validate_and_admit toy accounts
        (new pool_config)
        one_change
        5
      ≡ ok m')
    × (validate_and_admit toy accounts m' other_change 6 ≡ ok m'')
unfolding payload_senders
senderless_untracked_example =
    senderless_untracked toy accounts (new pool_config) one_change other_change 5 6 refl roomy
      other_hash one_admissible other_admissible
