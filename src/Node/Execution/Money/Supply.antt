-- ===== src/Node/Execution/Money/Supply.antt =====
-- crates/augecoin-node/src/execution.rs: the AUGE of the accounts through the operations of a block
-- and the leader's reward.
use augecoin.Base.{
  ℕ, ◌+◌, ◌*◌, ◌<◌, ◌≡◌, refl, List, [], ◌∷◌, length, map, Bytes, Dict, lookup, Result, ok, err,
  OnOk, OnOk-map, All, arith, u64_max, saturating_add,
}
use augecoin.Core.Account.{Account}
use augecoin.Core.Operation.{OperationPayload, Operation}
use augecoin.Core.Codec.Write.{operation_to_bytes}
use augecoin.Node.Execution.State.{Env, ExecState, ExecutionError}
use augecoin.Node.Execution.Contracts.{execute_payload, execute_operation}
use augecoin.Node.Execution.Block.{seal_new, execute_and_seal, execute_operations}
use augecoin.Node.Execution.Rules.{bind-OnOk}
use augecoin.Node.Execution.Money.{Once, account_at, total}
use augecoin.Node.Execution.Money.Conservation.{
  sum, SendersListed, ReceiversListed, ChangersListed, execute_transaction-total,
  execute_multi_operation-total,
}
use augecoin.Node.Execution.Money.Accounts.{
  change_key-total, list_account_for_sale-total, delist_account-total, gift_account-total,
  accept_gift-total,
}

pub saturating_add-exact : (a b : ℕ) → a + b < u64_max → saturating_add a b ≡ a + b
unfolding saturating_add
saturating_add-exact a b h = ground arith

-- The fees that the payload takes out of the accounts, and the one that it hands to the block.
unfoldable pub fees_taken : OperationPayload → ℕ
fees_taken (OperationPayload.transaction senders _ _ fee) = length senders * fee
fees_taken (OperationPayload.multi_operation senders _ _ fee) = length senders * fee
fees_taken (OperationPayload.change_key _ _ fee _) = fee
fees_taken (OperationPayload.list_account_for_sale l) = l.fee
fees_taken (OperationPayload.delist_account _ _ fee) = fee
fees_taken (OperationPayload.gift_account _ _ _ fee) = fee
fees_taken (OperationPayload.accept_gift _ _ fee) = fee
fees_taken p = 0

unfoldable pub fee_given : OperationPayload → ℕ
fee_given (OperationPayload.transaction _ _ _ fee) = fee
fee_given (OperationPayload.multi_operation _ _ _ fee) = fee
fee_given (OperationPayload.change_key _ _ fee _) = fee
fee_given (OperationPayload.list_account_for_sale l) = l.fee
fee_given (OperationPayload.delist_account _ _ fee) = fee
fee_given (OperationPayload.gift_account _ _ _ fee) = fee
fee_given (OperationPayload.accept_gift _ _ fee) = fee
fee_given p = 0

abbrev pub taken_of : Operation → ℕ
taken_of op = fees_taken op.payload

abbrev pub given_of : Operation → ℕ
given_of op = fee_given op.payload

module _ (env : Env) (ns : List ℕ) where
  -- The payload is one of those above, and its accounts are listed.
  abbrev pub Listed : OperationPayload → Type 0
  Listed (OperationPayload.transaction ss rs cs _) =
      SendersListed env ns ss × (ReceiversListed env ns rs × ChangersListed env ns cs)
  Listed (OperationPayload.multi_operation ss rs cs _) =
      SendersListed env ns ss × (ReceiversListed env ns rs × ChangersListed env ns cs)
  Listed (OperationPayload.change_key account _ _ _) = Once account ns
  Listed (OperationPayload.list_account_for_sale l) = Once l.account ns
  Listed (OperationPayload.delist_account account _ _) = Once account ns
  Listed (OperationPayload.gift_account account _ _ _) = Once account ns
  Listed (OperationPayload.accept_gift account _ _) = Once account ns
  Listed p = ⊥

  execute_payload-total :
      (op : Operation) (p : OperationPayload) (s : ExecState)
      → Listed p
      → total env s.modified ns < u64_max
      → OnOk
          (λ r.
            (r.0 ≡ fee_given p)
            × (total env r.1.modified ns + fees_taken p ≡ total env s.modified ns))
          (execute_payload env op p s)
  unfolding execute_payload fees_taken fee_given
  execute_payload-total op (OperationPayload.transaction ss rs cs fee) s (l, (m, n)) room =
      execute_transaction-total env ns ss rs cs fee s l m n room
  execute_payload-total op (OperationPayload.multi_operation ss rs cs fee) s (l, (m, n)) room =
      execute_multi_operation-total env ns ss rs cs fee s l m n room
  execute_payload-total op (OperationPayload.change_key account n fee key) s once room =
      change_key-total env account n fee key ns s once
  execute_payload-total op (OperationPayload.list_account_for_sale l) s once room =
      list_account_for_sale-total env l ns s once
  execute_payload-total op (OperationPayload.delist_account account n fee) s once room =
      delist_account-total env account n fee ns s once
  execute_payload-total op (OperationPayload.gift_account account n key fee) s once room =
      gift_account-total env account n key fee ns s once
  execute_payload-total op (OperationPayload.accept_gift account n fee) s once room =
      accept_gift-total env account n fee ns s once
  execute_payload-total op p s listed room = absurd listed

  account_at-seal_new :
      (h : Bytes → Bytes) (op_hash : Bytes) (before m : Dict Account) (n : ℕ)
      → (account_at env (seal_new h op_hash before m) n).balance ≡ (account_at env m n).balance
  unfolding account_at seal_new lookup
  account_at-seal_new h op_hash before [] n = refl
  account_at-seal_new h op_hash before ((k, a) ∷ m) n =
      ground (arith, account_at-seal_new h op_hash before m n)

  -- Sealing new accounts leaves every balance as it is.
  total-seal_new :
      (h : Bytes → Bytes) (op_hash : Bytes) (before m : Dict Account) (ls : List ℕ)
      → total env (seal_new h op_hash before m) ls ≡ total env m ls
  unfolding total
  total-seal_new h op_hash before m [] = refl
  total-seal_new h op_hash before m (n ∷ ls) =
      omega (arith, account_at-seal_new h op_hash before m n, total-seal_new h op_hash before m ls)

  execute_and_seal-total :
      (fees : ℕ) (op : Operation) (s : ExecState)
      → Listed op.payload
      → total env s.modified ns < u64_max
      → fees + given_of op < u64_max
      → OnOk
          (λ r.
            (r.0 ≡ fees + given_of op)
            × (total env r.1.modified ns + taken_of op ≡ total env s.modified ns))
          (execute_and_seal env fees op s)
  unfolding execute_and_seal execute_operation saturating_add
  execute_and_seal-total fees op s listed room small =
      go (execute_payload env op op.payload s) (execute_payload-total op op.payload s listed room)
    where
      sealed : Dict Account → Dict Account
      sealed =
          seal_new env.crypto.blake3_512 (env.crypto.blake3_512 (operation_to_bytes op)) s.modified

      go :
          (r : Result ExecutionError (ℕ × ExecState))
          → OnOk
              (λ (r : ℕ × ExecState).
                (r.0 ≡ given_of op)
                × (total env r.1.modified ns + taken_of op ≡ total env s.modified ns))
              r
          → OnOk
              (λ (r : ℕ × ExecState).
                (r.0 ≡ fees + given_of op)
                × (total env r.1.modified ns + taken_of op ≡ total env s.modified ns))
              (elim r [
                | err e ↦ err e
                | ok (f, t) ↦ ok (saturating_add fees f, record t { modified = sealed t.modified })
              ])
      go (ok (f, t)) (p, q) = (
        rw p (saturating_add-exact fees (given_of op) small),
        rw
            (total-seal_new env.crypto.blake3_512 (env.crypto.blake3_512 (operation_to_bytes op))
              s.modified t.modified ns)
            q,
      )
      go (err e) h = tt

  abbrev pub AllListed : List Operation → Type 0
  AllListed = All (λ (op : Operation). Listed op.payload)

  -- The operations take their fees out of the accounts, and hand theirs on.
  pub execute_operations-total :
      (fees : ℕ) (ops : List Operation) (s : ExecState)
      → AllListed ops
      → total env s.modified ns < u64_max
      → fees + sum (map given_of ops) < u64_max
      → OnOk
          (λ r.
            (r.0 ≡ fees + sum (map given_of ops))
            × (total env r.1.modified ns + sum (map taken_of ops) ≡ total env s.modified ns))
          (execute_operations env fees ops s)
  unfolding execute_operations sum
  execute_operations-total fees [] s listed room small = (omega arith, omega arith)
  execute_operations-total fees (op ∷ ops) s listed room small =
      bind-OnOk _ _ (execute_and_seal env fees op) (λ total'. execute_operations env total' ops) s
        (execute_and_seal-total fees op s listed.0 room (omega (arith, small)))
        (λ fees' t (p, q).
          OnOk-map _ _ (execute_operations env fees' ops t)
            (λ (given, u) (v, w). (omega (arith, p, v), omega (arith, q, w)))
            (execute_operations-total fees' ops t listed.1 (omega (arith, q, room))
              (omega (arith, p, small))))
