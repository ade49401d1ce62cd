-- ===== src/Node/Execution/Gas.antt =====
-- crates/augecoin-node/src/execution.rs, `Contract`: the gas of a contract call.
use augecoin.Base.{
  ℕ, ◌+◌, ◌-◌, ◌≤◌, ◌<◌, ◌≡◌, ◌∙◌, refl, some, ◌++◌, ltb, lookup, insert, lookup-insert, ok, arith,
  Bool-cases, inl, inr, saturating_mul, saturating_add, wrapping_add, u64_max,
}
use augecoin.Core.Account.{Account, subtract_balance, increment_n_operation}
use augecoin.Core.Operation.{ContractCall}
use augecoin.Node.Execution.State.{
  ◌>>◌, pure, Env, ExecState, ContractOp, ApplyOutcome, load_account, put_account,
}
use augecoin.Node.Execution.Steps.{expect_n_operation, charge_fee}
use augecoin.Node.Execution.Contracts.{
  apply_writes, reserve_gas, charge_gas, run_contract, record_outcome, execute_contract_call,
}

module _ (env : Env) where
  -- the account behind the fee, and the overlays with it
  charged : ContractCall → Account → Account
  charged c acc = increment_n_operation (record acc { balance = acc.balance - c.fee })

  behind_fee : ContractCall → Account → ExecState → ExecState
  behind_fee c acc s = record s { modified = insert c.account (charged c acc) s.modified }

  balance-charged :
      (c : ContractCall) (acc : Account) → (charged c acc).balance ≡ acc.balance - c.fee
  unfolding charged increment_n_operation
  balance-charged c acc = refl

  load_ok :
      (k : ℕ) (acc : Account) (s : ExecState)
      → lookup k s.modified ≡ some acc
      → load_account env k s ≡ ok (acc, s)
  unfolding load_account
  load_ok k acc s found = ground (arith, found)

  expect_ok :
      (k n : ℕ) (acc : Account) (s : ExecState)
      → n ≡ acc.n_operation
      → expect_n_operation k n acc s ≡ ok (tt, s)
  unfolding expect_n_operation
  expect_ok k n acc s counter = ground (arith, counter)

  reserve_ok :
      (c : ContractCall) (acc : Account) (s : ExecState)
      → c.fee + 100000 ≤ acc.balance
      → acc.balance < u64_max
      → reserve_gas env c acc s ≡ ok (tt, s)
  unfolding reserve_gas saturating_mul saturating_add
  reserve_ok c acc s covered room = ground (arith, covered, room)

  fee_ok :
      (c : ContractCall) (acc : Account) (s : ExecState)
      → c.fee + 100000 ≤ acc.balance
      → charge_fee c.account c.fee acc s ≡ ok (record acc { balance = acc.balance - c.fee }, s)
  unfolding charge_fee subtract_balance
  fee_ok c acc s covered = ground (arith, covered)

  run_ok :
      (c : ContractCall) (acc : Account) (op : ContractOp) (outcome : ApplyOutcome) (s : ExecState)
      → env.host.decode c.contents ≡ ok op
      → env.host.run s.contract_overlay c.account op env.block_number 100000 ≡ ok outcome
      → run_contract env c (behind_fee c acc s) ≡ ok (outcome, behind_fee c acc s)
  unfolding run_contract behind_fee
  run_ok c acc op outcome s decoded ran = ground (arith, decoded, ran)

  -- the call up to the charge of the gas
  up_to_gas :
      (c : ContractCall) (acc : Account) (op : ContractOp) (outcome : ApplyOutcome) (s : ExecState)
      → lookup c.account s.modified ≡ some acc
      → c.n_operation ≡ acc.n_operation
      → c.fee + 100000 ≤ acc.balance
      → acc.balance < u64_max
      → env.host.decode c.contents ≡ ok op
      → env.host.run s.contract_overlay c.account op env.block_number 100000 ≡ ok outcome
      → execute_contract_call env c s
        ≡ (do
          charge_gas env c.account (saturating_mul outcome.gas_used 1)
          record_outcome env outcome
          pure (wrapping_add c.fee (saturating_mul outcome.gas_used 1)))
            (behind_fee c acc s)
  unfolding execute_contract_call put_account behind_fee charged
  up_to_gas c acc op outcome s found counter covered room decoded ran = ground (
    arith,
    load_ok c.account acc s found,
    expect_ok c.account c.n_operation acc s counter,
    reserve_ok c acc s covered room,
    fee_ok c acc s covered,
    run_ok c acc op outcome s decoded ran,
  )

  gas_is_charged :
      (account gas : ℕ) (acc : Account) (s : ExecState)
      → lookup account s.modified ≡ some acc
      → gas ≤ acc.balance
      → (t : ExecState) × ((charge_gas env account gas s ≡ ok (tt, t))
          × ((after : Account) × ((lookup account t.modified ≡ some after)
                × (after.balance + gas ≡ acc.balance))))
  unfolding charge_gas subtract_balance put_account
  gas_is_charged account gas acc s found covered = elim (Bool-cases (ltb 0 gas)) [
    | inl some_gas ↦
        let new = record acc { balance = acc.balance - gas } in
        (
          record s { modified = insert account new s.modified },
          (
            ground (arith, some_gas),
            (
              new,
              (
                rw (lookup-insert account account new s.modified) (ground arith),
                omega (arith, covered),
              ),
            ),
          ),
        )
    | inr no_gas ↦ (s, (ground (arith, no_gas), (acc, (found, ground (arith, no_gas)))))
  ]

  no_overflow : (g : ℕ) → g ≤ 100000 → saturating_mul g 1 ≡ g
  unfolding saturating_mul
  no_overflow g h = ground arith

  wrapping_add-exact : (a b : ℕ) → a + b < u64_max → wrapping_add a b ≡ a + b
  unfolding wrapping_add
  wrapping_add-exact a b h = omega arith

  -- the steps behind the charge
  settled :
      (c : ContractCall) (outcome : ApplyOutcome) (t s : ExecState)
      → charge_gas env c.account outcome.gas_used s ≡ ok (tt, t)
      → c.fee + 100000 < u64_max
      → outcome.gas_used ≤ 100000
      → (do
        charge_gas env c.account (saturating_mul outcome.gas_used 1)
        record_outcome env outcome
        pure (wrapping_add c.fee (saturating_mul outcome.gas_used 1)))
          s
        ≡ ok (
          c.fee + outcome.gas_used,
          record t {
            contract_overlay = apply_writes outcome.writes t.contract_overlay;
            contract_events = t.contract_events ++ outcome.events;
          },
        )
  unfolding record_outcome
  settled c outcome t s ran fits small = ground (
    arith,
    no_overflow outcome.gas_used small,
    ran,
    wrapping_add-exact c.fee outcome.gas_used (omega (arith, fits, small)),
  )

  -- The check before a call covers what the call can cost: where the account is in the overlay with
  -- the counter of the call and with the fee and 100000 more, the engine runs the operation and uses
  -- 100000 of gas at most, the call succeeds and hands on the fee and the gas used, and the account
  -- has paid both.
  pub execute_contract_call-succeeds :
      (c : ContractCall) (acc : Account) (op : ContractOp) (outcome : ApplyOutcome) (s : ExecState)
      → lookup c.account s.modified ≡ some acc
      → c.n_operation ≡ acc.n_operation
      → c.fee + 100000 ≤ acc.balance
      → acc.balance < u64_max
      → env.host.decode c.contents ≡ ok op
      → env.host.run s.contract_overlay c.account op env.block_number 100000 ≡ ok outcome
      → outcome.gas_used ≤ 100000
      → (t : ExecState) × ((execute_contract_call env c s ≡ ok (c.fee + outcome.gas_used, t))
          × ((after : Account) × ((lookup c.account t.modified ≡ some after)
                × (after.balance + (c.fee + outcome.gas_used) ≡ acc.balance))))
  unfolding behind_fee
  execute_contract_call-succeeds c acc op outcome s found counter covered room decoded ran small =
      let s1 = behind_fee c acc s in
      let (t, (ran_on, (after, (stands, paid)))) =
        gas_is_charged c.account outcome.gas_used (charged c acc) s1
          (rw (lookup-insert c.account c.account (charged c acc) s.modified) (ground arith))
          (omega (arith, balance-charged c acc, covered, small)) in
      (
        record t {
          contract_overlay = apply_writes outcome.writes t.contract_overlay;
          contract_events = t.contract_events ++ outcome.events;
        },
        (
          up_to_gas c acc op outcome s found counter covered room decoded ran
              ∙ settled c outcome t s1 ran_on (omega (arith, covered, room)) small,
          (after, (stands, omega (arith, paid, balance-charged c acc, covered, small))),
        ),
      )
