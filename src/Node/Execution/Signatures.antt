-- ===== src/Node/Execution/Signatures.antt =====
-- crates/augecoin-node/src/execution.rs, `verify_operation_signatures`: who must have signed an
-- operation. The texts of its errors are left out.
use augecoin.Base.{
  ℕ, suc, Bool, true, false, ◌&&◌, Option, none, some, List, [], ◌∷◌, leb, if◌then◌else◌, Bytes,
  length, get_elem?, any, ok, err,
}
use augecoin.Crypto.{Crypto}
use augecoin.Core.Account.{Account, empty_key}
use augecoin.Core.Operation.{SenderInfo, OperationPayload, Operation, Signature}
use augecoin.Core.Codec.Write.{to_bytes_stripped}
use augecoin.Consensus.Validator.Codec.{set_from_bytes}
use augecoin.Node.Execution.State.{Storage}

module _ (c : Crypto) (st : Storage) where
  -- The account is in the database.
  abbrev stored : ℕ → Option Account
  stored number = elim (st.get_account number) [ err e ↦ none | ok o ↦ o ]

  -- The signature at an index of the list is there and verifies under the key.
  unfoldable pub signed_at : Bytes → List Signature → ℕ → Bytes → Bool
  signed_at message signatures i key =
      c.valid_key key
      && elim (get_elem? signatures i) [ none ↦ false | some sig ↦ c.verify key sig message ]

  unfoldable pub account_signed : Bytes → List Signature → ℕ → ℕ → Bool
  unfolding signed_at
  account_signed message signatures i number = elim (stored number) [
    | none ↦ false
    | some acc ↦ signed_at message signatures i acc.account_info.account_key
  ]

  -- The loop over the senders; `i` is the index of the first one's signature.
  unfoldable pub senders_signed : Bytes → List Signature → ℕ → List SenderInfo → Bool
  unfolding account_signed
  senders_signed message signatures i [] = true
  senders_signed message signatures i (s ∷ ss) =
      account_signed message signatures i s.account && senders_signed message signatures (suc i) ss

  -- The recipient key of a gift, or the zero key.
  abbrev recipient_key : Account → Bytes
  recipient_key acc = elim acc.account_info.new_public_key [ none ↦ empty_key | some k ↦ k ]

  unfoldable pub gift_signed : Bytes → List Signature → ℕ → Bool
  unfolding signed_at
  gift_signed message signatures number = elim (stored number) [
    | none ↦ false
    | some acc ↦ signed_at message signatures 0 (recipient_key acc)
  ]

  -- Some signature verifies under the admin key of the stored validator set.
  unfoldable pub admin_signed : Bytes → List Signature → Bool
  unfolding set_from_bytes
  admin_signed message signatures = elim st.get_validator_set_bytes [
    | err e ↦ false
    | ok none ↦ false
    | ok (some raw) ↦ elim (set_from_bytes c raw) [
      | err e ↦ false
      | ok vs ↦ any (λ sig. c.verify vs.admin_public_key sig message) signatures
    ]
  ]

  unfoldable pub payload_signed : Bytes → List Signature → OperationPayload → Bool
  unfolding account_signed senders_signed gift_signed admin_signed
  payload_signed message sigs (OperationPayload.transaction senders _ _ _) =
      leb (length senders) (length sigs) && senders_signed message sigs 0 senders
  payload_signed message sigs (OperationPayload.address_transaction senders _ _) =
      leb (length senders) (length sigs) && senders_signed message sigs 0 senders
  payload_signed message sigs (OperationPayload.multi_operation senders _ _ _) =
      leb (length senders) (length sigs) && senders_signed message sigs 0 senders
  payload_signed message sigs (OperationPayload.data_operation d) =
      account_signed message sigs 0 d.account && senders_signed message sigs 1 d.senders
  payload_signed message sigs (OperationPayload.change_key account _ _ _) =
      account_signed message sigs 0 account
  payload_signed message sigs (OperationPayload.change_key_signed account _ _ _ _) =
      account_signed message sigs 0 account
  payload_signed message sigs (OperationPayload.change_account_info i) =
      account_signed message sigs 0 i.account
  payload_signed message sigs (OperationPayload.list_account_for_sale l) =
      account_signed message sigs 0 l.account
  payload_signed message sigs (OperationPayload.delist_account account _ _) =
      account_signed message sigs 0 account
  payload_signed message sigs (OperationPayload.recover_founds account) =
      account_signed message sigs 0 account
  payload_signed message sigs (OperationPayload.gift_account account _ _ _) =
      account_signed message sigs 0 account
  payload_signed message sigs (OperationPayload.contract call) =
      account_signed message sigs 0 call.account
  payload_signed message sigs (OperationPayload.accept_gift account _ _) =
      gift_signed message sigs account
  payload_signed message sigs (OperationPayload.buy_account p) =
      account_signed message sigs 0 p.buyer_account
  payload_signed message sigs (OperationPayload.validator_admin _) = admin_signed message sigs
  payload_signed message sigs (OperationPayload.create_account _ _ _) = admin_signed message sigs

  unfoldable pub verify_operation_signatures : Operation → Bool
  unfolding payload_signed
  verify_operation_signatures op = payload_signed (to_bytes_stripped op) op.signatures op.payload

  -- Phase 1 of a block: the index of the first operation that is not signed.
  unfoldable pub first_unsigned : ℕ → List Operation → Option ℕ
  unfolding verify_operation_signatures
  first_unsigned i [] = none
  first_unsigned i (op ∷ ops) =
      if verify_operation_signatures op then first_unsigned (suc i) ops else some i
