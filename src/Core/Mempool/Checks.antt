-- ===== src/Core/Mempool/Checks.antt =====
-- crates/augecoin-core/src/mempool.rs: what an operation is checked for, at admission and again
-- before it goes into a block.
use augecoin.Base.{
  ℕ, suc, Bool, true, false, not, ◌||◌, Option, none, some, List, [], ◌∷◌, leb, ◌==◌, if◌then◌else◌,
  Bytes, get_elem?, any, lookup, Result, ok, err, map_err, ok_or, checked_add, wrapping_add, ◌≡◌,
  refl,
}
use augecoin.Crypto.{Crypto}
use augecoin.Core.Account.{AccountState, Account, state_eq}
use augecoin.Core.Operation.{
  Signature, SenderInfo, ReceiverInfo, AddressReceiverInfo, OperationPayload, Operation,
}
use augecoin.Core.Codec.Write.{to_bytes_stripped}
use augecoin.Core.Mempool.{
  AccountLookup, MempoolError, invalid_signature, sender_not_found, invalid_n_operation, storage,
  admin_key_not_configured, unbalanced_transfer, transfer_value_overflow, Nonce, Mempool,
  account_for_payload, op_nonce_pairs,
}

abbrev pub Check : Type 0 → Type 0
Check A = Result MempoolError A

infixl 5 ◌>>=◌ ◌>>◌
abbrev pub ◌>>=◌ : {A B : Type 0} → Check A → (A → Check B) → Check B
ok a >>= f = f a
err e >>= f = err e

abbrev pub ◌>>◌ : {B : Type 0} → Check (Unit {0}) → Check B → Check B
ok _ >> k = k
err e >> k = err e

-- A chain of checks passes where each of them does.
pub >>-ok :
    {B : Type 0} (m : Check (Unit {0})) (k : Check B) {b : B}
    → (m >> k) ≡ ok b
    → (m ≡ ok tt) × (k ≡ ok b)
>>-ok (ok _) k h = (refl, h)
>>-ok (err e) k h = cc

abbrev pub fail_if : Bool → MempoolError → Check (Unit {0})
fail_if true e = err e
fail_if false e = ok tt

-- `for x in xs { test(x)? }`
unfoldable pub for_each : {A : Type 0} → (A → Check (Unit {0})) → List A → Check (Unit {0})
for_each test [] = ok tt
for_each test (x ∷ xs) = test x >> for_each test xs

-- the loop over the senders with their positions
unfoldable pub for_each_from :
    {A : Type 0} → (ℕ → A → Check (Unit {0})) → ℕ → List A → Check (Unit {0})
for_each_from test i [] = ok tt
for_each_from test i (x ∷ xs) = test i x >> for_each_from test (suc i) xs

-- `try_fold(0u64, checked_add)`
unfoldable pub checked_sum : ℕ → List ℕ → Option ℕ
unfolding checked_add
checked_sum total [] = some total
checked_sum total (x ∷ xs) = elim (checked_add total x) [ none ↦ none | some t ↦ checked_sum t xs ]

unfoldable pub validate_transfer_conservation : List ℕ → List ℕ → Check (Unit {0})
unfolding checked_sum
validate_transfer_conservation sender_amounts receiver_amounts =
    elim (checked_sum 0 sender_amounts) [
      | none ↦ err transfer_value_overflow
      | some sent ↦ elim (checked_sum 0 receiver_amounts) [
        | none ↦ err transfer_value_overflow
        | some received ↦
            if sent == received then ok tt else err (unbalanced_transfer sent received)
      ]
    ]

abbrev pub sender_amount : SenderInfo → ℕ
sender_amount s = s.amount

abbrev pub receiver_amount : ReceiverInfo → ℕ
receiver_amount r = r.amount

abbrev pub address_receiver_amount : AddressReceiverInfo → ℕ
address_receiver_amount r = r.amount

-- `Reserved` or `GiftPending`
unfoldable pub is_passive : AccountState → Bool
unfolding state_eq
is_passive st = state_eq st AccountState.reserved || state_eq st AccountState.gift_pending

module _ (db : AccountLookup) where
  -- `lookup.get_account(n).map_err(Storage)?.ok_or(SenderNotFound(n))?`
  unfoldable pub load : ℕ → Check Account
  load number =
      map_err storage (db.get_account number) >>= λ found. ok_or found (sender_not_found number)

  -- The counter of the account, 0 where there is none.
  unfoldable pub on_chain_n : ℕ → Check ℕ
  on_chain_n number = map_err storage (db.get_account number) >>= λ found.
      ok (elim found [ none ↦ 0 | some acc ↦ acc.n_operation ])

  module _ (c : Crypto) where
    -- The signature at an index is there and verifies under the key.
    unfoldable pub signed_at : Bytes → List Signature → ℕ → Bytes → Check (Unit {0})
    signed_at message sigs i key =
        fail_if (not (c.valid_key key)) invalid_signature >> elim (get_elem? sigs i) [
          | none ↦ err invalid_signature
          | some sig ↦ fail_if (not (c.verify key sig message)) invalid_signature
        ]

    unfoldable pub account_signed : Bytes → List Signature → ℕ → ℕ → Check (Unit {0})
    unfolding load signed_at
    account_signed message sigs i number =
        load number >>= λ acc. signed_at message sigs i acc.account_info.account_key

    unfoldable pub sender_signed : Bytes → List Signature → ℕ → SenderInfo → Check (Unit {0})
    unfolding account_signed
    sender_signed message sigs i s = account_signed message sigs i s.account

    unfoldable pub admin_signed : Option Bytes → Bytes → List Signature → Check (Unit {0})
    admin_signed none message sigs = err admin_key_not_configured
    admin_signed (some key) message sigs =
        fail_if (not (c.valid_key key)) invalid_signature
        >> fail_if (not (any (λ sig. c.verify key sig message) sigs)) invalid_signature

    unfoldable pub signed_by_payload :
        Option Bytes → Bytes → List Signature → OperationPayload → Check (Unit {0})
    unfolding for_each_from sender_signed account_signed admin_signed account_for_payload
    signed_by_payload admin message sigs (OperationPayload.transaction senders _ _ _) =
        for_each_from (sender_signed message sigs) 0 senders
    signed_by_payload admin message sigs (OperationPayload.address_transaction senders _ _) =
        for_each_from (sender_signed message sigs) 0 senders
    signed_by_payload admin message sigs (OperationPayload.multi_operation senders _ _ _) =
        for_each_from (sender_signed message sigs) 0 senders
    signed_by_payload admin message sigs (OperationPayload.data_operation d) =
        account_signed message sigs 0 d.account
        >> for_each_from (sender_signed message sigs) 1 d.senders
    signed_by_payload admin message sigs (OperationPayload.validator_admin _) =
        admin_signed admin message sigs
    signed_by_payload admin message sigs (OperationPayload.create_account _ _ _) =
        admin_signed admin message sigs
    signed_by_payload admin message sigs p = elim (account_for_payload p) [
      | none ↦ ok tt
      | some number ↦ account_signed message sigs 0 number
    ]

    unfoldable pub validate_signatures : Mempool → Operation → Check (Unit {0})
    unfolding signed_by_payload
    validate_signatures m op = elim op.signatures [
      | [] ↦ err invalid_signature
      | _ ∷ _ ↦ signed_by_payload m.admin_pubkey (to_bytes_stripped op) op.signatures op.payload
    ]

  -- The counter that the next operation of the account must name: behind the pending ones.
  unfoldable pub expected_n : Mempool → ℕ → ℕ → ℕ
  unfolding lookup wrapping_add
  expected_n m number on_chain =
      let next : ℕ = elim (lookup number m.sender_n_ops) [
        | none ↦ on_chain
        | some pending ↦ wrapping_add pending 1
      ] in
      if leb on_chain next then next else on_chain

  unfoldable pub check_single_n_operation : Mempool → Nonce → Check (Unit {0})
  unfolding on_chain_n expected_n
  check_single_n_operation m (number, n) = on_chain_n number >>= λ on_chain.
      fail_if (not (n == expected_n m number on_chain))
        (invalid_n_operation number (expected_n m number on_chain) n)

  -- Its `match` goes over the pairs that `op_nonce_pairs` lists, in the same order.
  unfoldable pub validate_n_operation_chaining : Mempool → Operation → Check (Unit {0})
  unfolding for_each check_single_n_operation op_nonce_pairs
  validate_n_operation_chaining m op =
      for_each (check_single_n_operation m) (op_nonce_pairs op.payload)

  unfoldable pub on_chain_exactly : Nonce → Check (Unit {0})
  unfolding on_chain_n
  on_chain_exactly (number, n) = on_chain_n number >>= λ on_chain.
      fail_if (not (n == on_chain)) (invalid_n_operation number on_chain n)

  unfoldable pub validate_block_n_operations : Operation → Check (Unit {0})
  unfolding for_each on_chain_exactly op_nonce_pairs
  validate_block_n_operations op = for_each on_chain_exactly (op_nonce_pairs op.payload)
