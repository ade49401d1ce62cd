-- ===== src/Core/Mempool/Fees.antt =====
-- crates/augecoin-core/src/mempool.rs, `validate_balance_and_fee`: the states, balances and fees that
-- an operation needs. Each block of the source looks at one kind of payload; the clauses here have for
-- each kind the blocks that look at it, in their order.
use augecoin.Base.{
  ℕ, not, ◌&&◌, Option, none, some, List, ltb, ◌==◌, if◌then◌else◌, map, ok, map_err,
  saturating_add, checked_add, u64_max,
}
use augecoin.Core.Account.{AccountState, Account, state_eq}
use augecoin.Core.Operation.{SenderInfo, ReceiverInfo, OperationPayload, Operation}
use augecoin.Core.Mempool.{
  AccountLookup, MempoolConfig, insufficient_balance, fee_too_low, invalid_account_state, storage,
  Mempool, payload_fee,
}
use augecoin.Core.Mempool.Checks.{
  Check, ◌>>=◌, ◌>>◌, fail_if, for_each, load, validate_transfer_conservation, sender_amount,
  receiver_amount, address_receiver_amount, is_passive,
}

unfoldable pub fee_floor : MempoolConfig → ℕ → Check (Unit {0})
fee_floor config fee = fail_if (ltb fee config.min_fee) (fee_too_low fee config.min_fee)

-- `required > 0 && balance < required`
unfoldable pub covers : ℕ → ℕ → Account → Check (Unit {0})
covers number required acc =
    fail_if (ltb 0 required && ltb acc.balance required)
      (insufficient_balance number acc.balance required)

module _ (db : AccountLookup) (config : MempoolConfig) where
  unfoldable pub check_create : ℕ → Check (Unit {0})
  unfolding load state_eq
  check_create number = load db number >>= λ acc.
      fail_if (not (state_eq acc.account_info.state AccountState.reserved))
        (invalid_account_state number)

  unfoldable pub check_gift : ℕ → ℕ → Check (Unit {0})
  unfolding load state_eq covers fee_floor
  check_gift number fee = load db number >>= λ acc.
      fail_if (state_eq acc.account_info.state AccountState.gift_pending)
        (invalid_account_state number)
      >> (covers number fee acc
          >> (if (fee == 0) && state_eq acc.account_info.state AccountState.reserved
              then ok tt
              else fee_floor config fee))

  unfoldable pub check_accept : ℕ → ℕ → Check (Unit {0})
  unfolding load state_eq covers fee_floor
  check_accept number fee = load db number >>= λ acc.
      fail_if (not (state_eq acc.account_info.state AccountState.gift_pending))
        (invalid_account_state number)
      >> (covers number fee acc >> (if fee == 0 then ok tt else fee_floor config fee))

  unfoldable pub check_contract : ℕ → ℕ → Check (Unit {0})
  unfolding load is_passive covers fee_floor saturating_add
  check_contract number fee = load db number >>= λ acc.
      fail_if (is_passive acc.account_info.state) (invalid_account_state number)
      >> (covers number (saturating_add fee config.contract_gas_reserve) acc
          >> fee_floor config fee)

  unfoldable pub sender_active : SenderInfo → Check (Unit {0})
  unfolding load is_passive
  sender_active s = load db s.account >>= λ acc.
      fail_if (is_passive acc.account_info.state) (invalid_account_state s.account)

  -- A receiver that does not exist yet may receive.
  unfoldable pub receiver_active : ReceiverInfo → Check (Unit {0})
  unfolding is_passive
  receiver_active r = map_err storage (db.get_account r.account) >>= λ found. elim found [
    | none ↦ ok tt
    | some acc ↦ fail_if (is_passive acc.account_info.state) (invalid_account_state r.account)
  ]

  unfoldable pub sender_covers : ℕ → SenderInfo → Check (Unit {0})
  unfolding load saturating_add
  sender_covers fee s = load db s.account >>= λ acc.
      fail_if (ltb acc.balance (saturating_add s.amount fee))
        (insufficient_balance s.account acc.balance (saturating_add s.amount fee))

  unfoldable pub check_transfer : List SenderInfo → List ReceiverInfo → ℕ → Check (Unit {0})
  unfolding for_each sender_active receiver_active validate_transfer_conservation fee_floor
      sender_covers
  check_transfer senders receivers fee =
      for_each sender_active senders
      >> (for_each receiver_active receivers
          >> (validate_transfer_conservation (map sender_amount senders)
                (map receiver_amount receivers)
              >> (fee_floor config fee >> for_each (sender_covers fee) senders)))

  abbrev pub or_max : Option ℕ → ℕ
  or_max total = elim total [ none ↦ u64_max | some t ↦ t ]

  unfoldable pub buyer_covers : ℕ → ℕ → ℕ → Check (Unit {0})
  unfolding load checked_add
  buyer_covers buyer amount fee = load db buyer >>= λ acc.
      fail_if (ltb acc.balance (or_max (checked_add amount fee)))
        (insufficient_balance buyer acc.balance (or_max (checked_add amount fee)))

  unfoldable pub check_payload : OperationPayload → Check (Unit {0})
  unfolding check_create check_gift check_accept check_contract check_transfer buyer_covers
      fee_floor validate_transfer_conservation payload_fee
  check_payload (OperationPayload.create_account number _ _) = check_create number
  check_payload (OperationPayload.validator_admin _) = ok tt
  check_payload (OperationPayload.gift_account account _ _ fee) = check_gift account fee
  check_payload (OperationPayload.accept_gift account _ fee) = check_accept account fee
  check_payload (OperationPayload.contract call) = check_contract call.account call.fee
  check_payload (OperationPayload.transaction senders receivers _ fee) =
      check_transfer senders receivers fee
  check_payload (OperationPayload.multi_operation senders receivers _ fee) =
      check_transfer senders receivers fee
  check_payload (OperationPayload.address_transaction senders receivers fee) =
      validate_transfer_conservation (map sender_amount senders)
        (map address_receiver_amount receivers)
      >> fee_floor config fee
  check_payload (OperationPayload.data_operation d) =
      validate_transfer_conservation (map sender_amount d.senders) (map receiver_amount d.receivers)
      >> fee_floor config d.fee
  check_payload (OperationPayload.buy_account p) =
      fee_floor config p.fee >> buyer_covers p.buyer_account p.amount p.fee
  check_payload p = fee_floor config (payload_fee p)

unfoldable pub validate_balance_and_fee : AccountLookup → Mempool → Operation → Check (Unit {0})
unfolding check_payload
validate_balance_and_fee db m op = check_payload db m.config op.payload
