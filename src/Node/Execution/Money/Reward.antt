-- ===== src/Node/Execution/Money/Reward.antt =====
-- crates/augecoin-node/src/execution.rs, `execute_block_inner`: the AUGE of the accounts through the
-- leader's reward, the new AUGEIDs and a whole block.
use augecoin.Base.{
  ℕ, ◌+◌, ◌<◌, ◌≡◌, ◌∙◌, refl, List, [], ◌∷◌, map, Bytes, lookup-insert, contains_key, insert,
  Result, ok, err, OnOk, OnOk-map, All, arith, u64_max, saturating_add,
}
use augecoin.Core.Account.{Account, add_balance, new_account}
use augecoin.Core.Emission.{block_reward}
use augecoin.Core.Block.{OperationBlock}
use augecoin.Node.Execution.State.{Env, ExecState, ExecutionError, each, load_account, put_account}
use augecoin.Node.Execution.Block.{
  execute_operations, check_cap, bind_leader_key, pay_leader, reserved_account, emit_slot, slots,
  transition,
}
use augecoin.Node.Execution.Rules.{bind-OnOk, each-OnOk}
use augecoin.Node.Execution.Money.{Once, account_at, total, total-insert}
use augecoin.Node.Execution.Money.Conservation.{sum}
use augecoin.Node.Execution.Money.Supply.{
  saturating_add-exact, taken_of, given_of, AllListed, execute_operations-total,
}

module _ (env : Env) (ns : List ℕ) where
  pay_leader-writes :
      (leader fees : ℕ) (key : Bytes) (s : ExecState)
      → OnOk
          (λ r.
            r.1.modified
            ≡ insert leader
                (record (bind_leader_key env key (account_at env s.modified leader)) {
                  balance =
                      (bind_leader_key env key (account_at env s.modified leader)).balance
                      + saturating_add (block_reward env.block_number) fees;
                })
                s.modified)
          (pay_leader env leader key fees s)
  unfolding pay_leader check_cap load_account account_at put_account add_balance
  pay_leader-writes leader fees key s = ground arith

  balance-bind_leader_key :
      (key : Bytes) (a : Account) → (bind_leader_key env key a).balance ≡ a.balance
  unfolding bind_leader_key
  balance-bind_leader_key key a = ground arith

  -- Where it does not fail, the step that pays the leader adds the reward of the block and the fees
  -- to the accounts; the leader is listed once, and the reward and the fees are less than 2^64 - 1.
  pub pay_leader-total :
      (leader fees : ℕ) (key : Bytes) (s : ExecState)
      → Once leader ns
      → block_reward env.block_number + fees < u64_max
      → OnOk
          (λ r.
            total env r.1.modified ns
            ≡ total env s.modified ns + (block_reward env.block_number + fees))
          (pay_leader env leader key fees s)
  pay_leader-total leader fees key s once small =
      OnOk-map _ _ (pay_leader env leader key fees s)
        (λ (_, t) written.
          let acc = bind_leader_key env key (account_at env s.modified leader) in
          let gain = saturating_add (block_reward env.block_number) fees in
          rw written (
            omega (
              arith,
              total-insert env s.modified leader (record acc { balance = acc.balance + gain }) ns
                  once,
              balance-bind_leader_key key (account_at env s.modified leader),
              saturating_add-exact (block_reward env.block_number) fees small,
            )))
        (pay_leader-writes leader fees key s)

  account_at-emit_slot :
      (key : Bytes) (number : ℕ) (s : ExecState) (n : ℕ)
      → OnOk
          (λ r. (account_at env r.1.modified n).balance ≡ (account_at env s.modified n).balance)
          (emit_slot env key number s)
  unfolding account_at emit_slot contains_key reserved_account new_account
  account_at-emit_slot key number s n =
      ground (arith, lookup-insert n number (reserved_account env number key) s.modified)

  total-emit_slot :
      (key : Bytes) (number : ℕ) (s : ExecState) (ls : List ℕ)
      → OnOk (λ r. total env r.1.modified ls ≡ total env s.modified ls) (emit_slot env key number s)
  unfolding total
  total-emit_slot key number s ls =
      go (emit_slot env key number s) ls (λ n. account_at-emit_slot key number s n)
    where
      go :
          (r : Result ExecutionError (Unit {0} × ExecState)) (ls : List ℕ)
          → ((n : ℕ)
              → OnOk
                  (λ (r : Unit {0} × ExecState).
                    (account_at env r.1.modified n).balance ≡ (account_at env s.modified n).balance)
                  r)
          → OnOk
              (λ (r : Unit {0} × ExecState). total env r.1.modified ls ≡ total env s.modified ls)
              r
      go (ok (_, t)) [] same = refl
      go (ok (_, t)) (n ∷ ls) same = omega (arith, same n, go (ok (tt, t)) ls same)
      go (err e) ls same = tt

  -- A block whose operations are transactions, multi-operations, changes of a key, listings,
  -- delistings, gifts or accepted gifts, and that is executed without an error, adds the reward of
  -- its number to the accounts: their total after it and the fees that were taken make the total
  -- before it, the reward and the fees that the leader was given. The accounts that it names and the
  -- leader are listed once each, and no sum reaches 2^64 - 1.
  pub transition-total :
      (block : OperationBlock) (s : ExecState)
      → AllListed env ns block.operations
      → Once block.header.leader_id ns
      → total env s.modified ns < u64_max
      → block_reward env.block_number + sum (map given_of block.operations) < u64_max
      → OnOk
          (λ r.
            total env r.1.modified ns + sum (map taken_of block.operations)
            ≡ total env s.modified ns
              + (block_reward env.block_number + sum (map given_of block.operations)))
          (transition env block s)
  unfolding transition
  transition-total block s listed leader room small =
      bind-OnOk _ _ (execute_operations env 0 block.operations) _ s
        (execute_operations-total env ns 0 block.operations s listed room (omega (arith, small)))
        (λ fees t (p, q).
          bind-OnOk _ _ (pay_leader env block.header.leader_id block.header.account_key fees) _ t
            (pay_leader-total block.header.leader_id fees block.header.account_key t leader
              (omega (arith, p, small)))
            (λ key u v.
              OnOk-map _ _ (each (emit_slot env key) (slots env) u)
                (λ (_, w) e. omega (arith, p, q, v, e))
                (each-OnOk (λ _. Unit {0}) (λ w. total env w.modified ns ≡ total env u.modified ns)
                  (emit_slot env key)
                  (λ number w _ start.
                    OnOk-map _ _ (emit_slot env key number w) (λ _ e. e ∙ start)
                      (total-emit_slot key number w ns))
                  (slots env) u (all_numbers (slots env)) refl)))
    where
      all_numbers : (ls : List ℕ) → All (λ _. Unit {0}) ls
      all_numbers [] = tt
      all_numbers (n ∷ ls) = (tt, all_numbers ls)
