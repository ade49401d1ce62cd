-- ===== src/Node/Execution/Rewards.antt =====
-- crates/augecoin-node/src/execution.rs, `execute_block_inner`: the AUGEIDs that a block makes.
use augecoin.Base.{
  ℕ, ◌≡◌, Bool, true, false, ◌||◌, ◌&&◌, not, none, some, ◌==◌, if◌then◌else◌, Bytes, lookup-insert,
  contains_key, ok, err, OnOk, arith,
}
use augecoin.Node.Execution.State.{Env, ExecState}
use augecoin.Node.Execution.Block.{emit_slot, reserved_account}
use augecoin.Node.Execution.Money.{account_at}

module _ (env : Env) where
  -- The account is in the overlays or in the database.
  unfoldable pub is_known : ℕ → ExecState → Bool
  unfolding contains_key
  is_known number s =
      contains_key number s.original
      || contains_key number s.modified
      || elim (env.database.get_account number) [
        | ok (some a) ↦ true
        | ok none ↦ false
        | err e ↦ false
      ]

  -- A slot overwrites no account: a slot that does not fail leaves every account that is in an
  -- overlay or in the database as it was, and otherwise its own number becomes a Reserved account of
  -- the leader's key, and no other account changes.
  pub emit_slot-account_at :
      (key : Bytes) (number n : ℕ) (s : ExecState)
      → OnOk
          (λ r. account_at env r.1.modified n ≡ (
            if n == number && not (is_known number s)
            then reserved_account env number key
            else account_at env s.modified n))
          (emit_slot env key number s)
  unfolding emit_slot is_known account_at contains_key
  emit_slot-account_at key number n s =
      ground (arith, lookup-insert n number (reserved_account env number key) s.modified)
