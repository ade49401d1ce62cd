-- ===== src/Tests/Money.antt =====
-- The theorems on the AUGE of the accounts at concrete inputs.
use augecoin.Base.{
  ℕ, ◌+◌, ◌*◌, ◌≡◌, refl, inl, inr, List, [], ◌∷◌, map, lookup, replicate, OnOk, arith,
}
use augecoin.Core.Emission.{block_reward}
use augecoin.Core.Operation.{Purchase}
use augecoin.Core.Block.{OperationBlock}
use augecoin.Node.Execution.State.{ExecState}
use augecoin.Node.Execution.Transfers.{execute_transaction}
use augecoin.Node.Execution.Accounts.{execute_buy_account}
use augecoin.Node.Execution.Block.{transition}
use augecoin.Node.Execution.Money.{Once, account_at, total}
use augecoin.Node.Execution.Money.Conservation.{sum, execute_transaction-total}
use augecoin.Node.Execution.Money.Supply.{given_of, taken_of, fee_given, fees_taken}
use augecoin.Node.Execution.Money.Reward.{transition-total}
use augecoin.Node.Execution.Money.Purchase.{buy_own_account-total}
use augecoin.Tests.Data.{
  env, two_owners, state_with, pay_30, get_30, new_key, owned, listed, transfer_op, block_of,
}

abbrev both : List ℕ
both = 1 ∷ 2 ∷ []

Once-1 : Once 1 both
Once-1 = inl (refl, (omega arith, tt))

Once-2 : Once 2 both
Once-2 = inr (omega arith, inl (refl, tt))

execute_transaction-total_example :
    OnOk
      (λ r. (r.0 ≡ 2) × (total env r.1.modified both + 1 * 2 ≡ total env two_owners.modified both))
      (execute_transaction env (pay_30 ∷ []) (get_30 ∷ []) (new_key ∷ []) 2 two_owners)
unfolding total account_at lookup
execute_transaction-total_example =
    execute_transaction-total env both (pay_30 ∷ []) (get_30 ∷ []) (new_key ∷ []) 2 two_owners
      (Once-1, tt) (Once-2, tt) (Once-2, tt) (omega arith)

abbrev transfer_block : OperationBlock
transfer_block = block_of 10 [] 2 (transfer_op ∷ [])

transition-total_example :
    OnOk
      (λ r.
        total env r.1.modified both + sum (map taken_of (transfer_op ∷ []))
        ≡ total env two_owners.modified both
          + (block_reward 10 + sum (map given_of (transfer_op ∷ []))))
      (transition env transfer_block two_owners)
unfolding total account_at lookup block_reward sum fee_given fees_taken
transition-total_example =
    transition-total env both transfer_block two_owners (((Once-1, tt), ((Once-2, tt), tt)), tt)
      Once-2 (omega arith) (omega arith)

-- account 1 is for sale and is to be paid to account 2
abbrev on_sale : ExecState
on_sale = state_with ((1, listed 1 500 40 2) ∷ (2, owned 2 50 0) ∷ (3, owned 3 90 6) ∷ [])

abbrev three : List ℕ
three = 1 ∷ 2 ∷ 3 ∷ []

first_of_three : Once 1 three
first_of_three = inl (refl, (omega arith, (omega arith, tt)))

second_of_three : Once 2 three
second_of_three = inr (omega arith, inl (refl, (omega arith, tt)))

third_of_three : Once 3 three
third_of_three = inr (omega arith, inr (omega arith, inl (refl, tt)))

abbrev purchase : Purchase
purchase = record {
  buyer_account = 3;
  n_operation = 6;
  account_to_purchase = 1;
  amount = 40;
  fee = 3;
  new_ed25519_public_key = replicate 32 3;
  seller_account = 2;
}

abbrev own_purchase : Purchase
own_purchase = record purchase { buyer_account = 1; n_operation = 0 }

buy_own_account-total_example :
    OnOk
      (λ r. (r.0 ≡ 3) × (total env r.1.modified three ≡ total env on_sale.modified three + 40))
      (execute_buy_account env own_purchase on_sale)
unfolding total account_at lookup
buy_own_account-total_example =
    buy_own_account-total env three own_purchase on_sale first_of_three second_of_three refl
      (omega arith) (omega arith)
