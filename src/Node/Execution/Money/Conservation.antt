-- ===== src/Node/Execution/Money/Conservation.antt =====
-- crates/augecoin-node/src/execution.rs: the AUGE of the accounts through whole transfers.
use augecoin.Base.{
  ℕ, ◌+◌, ◌*◌, ◌<◌, ◌≡◌, ◌∙◌, ap, refl, some, List, [], ◌∷◌, ◌==◌, inl, inr, not, Option-cases,
  length, map, OnOk, OnOk-map, All, arith, u64_max, checked_add,
}
use augecoin.Core.Operation.{SenderInfo, ReceiverInfo, ChangerInfo}
use augecoin.Node.Execution.State.{
  Env, ExecState, ExecutionError, Exec, ◌>>◌, pure, each, operation_failed, fail_if,
  transfer_not_conserved, invalid_n_operation, invalid_changer_n_operation,
}
use augecoin.Node.Execution.Steps.{
  checked_sum, validate_transfer_conservation, debit_active, debit, credit_active, credit, change,
}
use augecoin.Node.Execution.Transfers.{
  amount_sent, amount_received, execute_transaction, execute_multi_operation,
}
use augecoin.Node.Execution.Rules.{then-OnOk, each-OnOk}
use augecoin.Node.Execution.Money.{Once, total}
use augecoin.Node.Execution.Money.Transfer.{
  debit_active-total, debit-total, credit_active-total, credit-total, change-total,
}

unfoldable pub sum : List ℕ → ℕ
sum [] = 0
sum (x ∷ xs) = x + sum xs

-- A checked sum is the sum, where it does not overflow.
pub checked_sum-sum :
    (start : ℕ) (xs : List ℕ) (t : ℕ) → checked_sum start xs ≡ some t → t ≡ start + sum xs
unfolding checked_sum sum checked_add
checked_sum-sum start [] t e = ground arith
checked_sum-sum start (x ∷ xs) t e = ground (arith, checked_sum-sum (start + x) xs t)

-- The check passes only where both sums are the same, and writes nothing.
pub validate_transfer_conservation-OnOk :
    (sent received : List ℕ) (s : ExecState)
    → OnOk
        (λ r. (r.1 ≡ s) × (sum sent ≡ sum received))
        (validate_transfer_conservation sent received s)
unfolding validate_transfer_conservation
validate_transfer_conservation-OnOk sent received s = elim (Option-cases (checked_sum 0 sent)) [
  | inl e ↦ rw (e, OnOk) tt
  | inr (a, e) ↦ elim (Option-cases (checked_sum 0 received)) [
    | inl f ↦ rw (e, f, OnOk) tt
    | inr (b, f) ↦
        rw (e, f, OnOk)
          (same_sums a b (checked_sum-sum 0 sent a e) (checked_sum-sum 0 received b f))
  ]
]
  where
    same_sums :
        (a b : ℕ)
        → a ≡ 0 + sum sent
        → b ≡ 0 + sum received
        → OnOk
            (λ r. (r.1 ≡ s) × (sum sent ≡ sum received))
            (fail_if (not (a == b)) (operation_failed 0 (transfer_not_conserved a b)) s)
    same_sums a b p q = ground arith

sum-charges :
    (fee : ℕ) (senders : List SenderInfo)
    → sum (map (λ (x : SenderInfo). x.amount + fee) senders)
      ≡ sum (map amount_sent senders) + length senders * fee
unfolding sum
sum-charges fee [] = omega arith
sum-charges fee (x ∷ xs) = omega (arith, sum-charges fee xs)

module _ (env : Env) (ns : List ℕ) where
  -- A loop of steps that each take an amount.
  each_paid :
      {A : Type 0} (cost : A → ℕ) (Good : A → Type 0) (step : A → Exec (Unit {0}))
      → ((x : A) (s : ExecState)
          → Good x
          → total env s.modified ns < u64_max
          → OnOk (λ r. total env r.1.modified ns + cost x ≡ total env s.modified ns) (step x s))
      → (xs : List A) (s : ExecState) → All Good xs
      → total env s.modified ns < u64_max
      → OnOk
          (λ r. total env r.1.modified ns + sum (map cost xs) ≡ total env s.modified ns)
          (each step xs s)
  unfolding each sum
  each_paid cost Good step one [] s good room = omega arith
  each_paid cost Good step one (x ∷ xs) s good room =
      then-OnOk _ _ (step x) (each step xs) s (one x s good.0 room) (λ _ t p.
        OnOk-map _ _ (each step xs t) (λ (_, u) q. omega (arith, p, q))
          (each_paid cost Good step one xs t good.1 (omega (arith, p, room))))

  -- A loop of steps that each give an amount.
  each_gained :
      {A : Type 0} (gain : A → ℕ) (Good : A → Type 0) (step : A → Exec (Unit {0}))
      → ((x : A) (s : ExecState)
          → Good x
          → OnOk (λ r. total env r.1.modified ns ≡ total env s.modified ns + gain x) (step x s))
      → (xs : List A) (s : ExecState) → All Good xs
      → OnOk
          (λ r. total env r.1.modified ns ≡ total env s.modified ns + sum (map gain xs))
          (each step xs s)
  unfolding each sum
  each_gained gain Good step one [] s good = omega arith
  each_gained gain Good step one (x ∷ xs) s good =
      then-OnOk _ _ (step x) (each step xs) s (one x s good.0) (λ _ t p.
        OnOk-map _ _ (each step xs t) (λ (_, u) q. omega (arith, p, q))
          (each_gained gain Good step one xs t good.1))

  abbrev pub SendersListed : List SenderInfo → Type 0
  SendersListed = All (λ (x : SenderInfo). Once x.account ns)

  abbrev pub ReceiversListed : List ReceiverInfo → Type 0
  ReceiversListed = All (λ (x : ReceiverInfo). Once x.account ns)

  abbrev pub ChangersListed : List ChangerInfo → Type 0
  ChangersListed = All (λ (x : ChangerInfo). Once x.account ns)

  changes-total :
      (wrong : ChangerInfo → ℕ → ℕ → ExecutionError) (changers : List ChangerInfo) (before : ℕ)
      (s : ExecState)
      → ChangersListed changers
      → total env s.modified ns ≡ before
      → OnOk
          (λ r. total env r.1.modified ns ≡ before)
          (each (λ (c : ChangerInfo). change env (wrong c) c) changers s)
  changes-total wrong changers before s listed start =
      each-OnOk (λ (c : ChangerInfo). Once c.account ns) (λ t. total env t.modified ns ≡ before) _
        (λ c t once p.
          OnOk-map _ _ (change env (wrong c) c t) (λ _ q. q ∙ p)
            (change-total env ns (wrong c) c t once))
        changers s listed start

  -- The senders of a transaction or of a multi-operation pay their amounts and a fee each, its
  -- receivers gain the same amounts.
  abbrev Charged : ℕ → List SenderInfo → ℕ → ℕ × ExecState → Type 0
  Charged fee senders before (paid, t) =
      (paid ≡ fee) × (total env t.modified ns + length senders * fee ≡ before)

  moved :
      (send : SenderInfo → Exec (Unit {0})) (receive : ReceiverInfo → Exec (Unit {0}))
      (wrong : ChangerInfo → ℕ → ℕ → ExecutionError) (senders : List SenderInfo)
      (receivers : List ReceiverInfo) (changers : List ChangerInfo) (fee : ℕ) (s : ExecState)
      → ((x : SenderInfo) (t : ExecState)
          → Once x.account ns
          → total env t.modified ns < u64_max
          → OnOk
              (λ r. total env r.1.modified ns + (x.amount + fee) ≡ total env t.modified ns)
              (send x t))
      → ((x : ReceiverInfo) (t : ExecState)
          → Once x.account ns
          → OnOk
              (λ r. total env r.1.modified ns ≡ total env t.modified ns + x.amount)
              (receive x t))
      → SendersListed senders
      → ReceiversListed receivers
      → ChangersListed changers
      → total env s.modified ns < u64_max
      → OnOk (Charged fee senders (total env s.modified ns)) (
          (do
            validate_transfer_conservation (map amount_sent senders) (map amount_received receivers)
            each send senders
            each receive receivers
            each (λ (c : ChangerInfo). change env (wrong c) c) changers
            pure fee)
            s)
  moved send receive wrong senders receivers changers fee s one_sent one_received ls lr lc room =
      then-OnOk _ _ (validate_transfer_conservation _ _) _ s
        (validate_transfer_conservation-OnOk (map amount_sent senders)
          (map amount_received receivers) s)
        (λ _ t (same, sums).
          then-OnOk _ _ (each send senders) _ t
            (each_paid (λ (x : SenderInfo). x.amount + fee) (λ (x : SenderInfo). Once x.account ns)
              send one_sent senders t ls (rw same room))
            (λ _ u p.
              then-OnOk _ _ (each receive receivers) _ u
                (each_gained amount_received (λ (x : ReceiverInfo). Once x.account ns) receive
                  one_received receivers u lr)
                (λ _ v q.
                  then-OnOk _ _ (each (λ (c : ChangerInfo). change env (wrong c) c) changers)
                    (pure fee) v (changes-total wrong changers (total env v.modified ns) v lc refl)
                    (λ _ w r. (
                      refl,
                      omega (
                        arith,
                        p,
                        q,
                        r,
                        sums,
                        sum-charges fee senders,
                        ap (λ (x : ExecState). total env x.modified ns) same,
                      ),
                    )))))

  -- A transaction that does not fail takes `fee` from every sender, and nothing else, out of the
  -- accounts: where the listed accounts hold less than 2^64 - 1 AUGE, and each account of the
  -- transaction is listed once, their total after it and one fee for each sender make the total
  -- before it. It hands one fee to the block.
  pub execute_transaction-total :
      (senders : List SenderInfo) (receivers : List ReceiverInfo) (changers : List ChangerInfo)
      (fee : ℕ) (s : ExecState)
      → SendersListed senders
      → ReceiversListed receivers
      → ChangersListed changers
      → total env s.modified ns < u64_max
      → OnOk
          (Charged fee senders (total env s.modified ns))
          (execute_transaction env senders receivers changers fee s)
  unfolding execute_transaction
  execute_transaction-total senders receivers changers fee s =
      moved (debit_active env fee) (credit_active env)
        (λ c expected got. operation_failed c.account (invalid_changer_n_operation expected got))
        senders receivers changers fee s (λ x t. debit_active-total env ns fee x t)
        (λ x t. credit_active-total env ns x t)

  -- A multi-operation that does not fail moves AUGE as a transaction does: where the listed
  -- accounts hold less than 2^64 - 1 AUGE, and each account of the operation is listed once, their
  -- total after it and one fee for each sender make the total before it. It hands one fee to the
  -- block.
  pub execute_multi_operation-total :
      (senders : List SenderInfo) (receivers : List ReceiverInfo) (changers : List ChangerInfo)
      (fee : ℕ) (s : ExecState)
      → SendersListed senders
      → ReceiversListed receivers
      → ChangersListed changers
      → total env s.modified ns < u64_max
      → OnOk
          (Charged fee senders (total env s.modified ns))
          (execute_multi_operation env senders receivers changers fee s)
  unfolding execute_multi_operation
  execute_multi_operation-total senders receivers changers fee s =
      moved (debit env fee) (credit env)
        (λ c expected got. operation_failed c.account (invalid_n_operation expected got)) senders
        receivers changers fee s (λ x t. debit-total env ns fee x t)
        (λ x t. credit-total env ns x t)
