-- ===== src/Node/Admission.antt =====
-- crates/augecoin-core/src/mempool.rs, `validate_signatures`, against crates/augecoin-node/src/
-- execution.rs, `verify_operation_signatures`: what the mempool takes for signed, and what a block
-- does. Both read the same accounts.
use augecoin.Base.{
  ℕ, zero, suc, ◌+◌, ◌≤◌, ◌<◌, ◌≡◌, refl, subst, true, false, not, ◌&&◌, none, some, List, [], ◌∷◌,
  leb, le→leb, Bytes, length, get_elem?, any, arith, ok, err, ◌⊎◌, inl, inr,
}
use augecoin.Crypto.{Crypto}
use augecoin.Core.Account.{AccountState, Account}
use augecoin.Core.Operation.{SenderInfo, OperationPayload, Operation, Signature}
use augecoin.Core.Codec.Write.{to_bytes_stripped}
use augecoin.Core.Mempool.{AccountLookup, invalid_signature, MempoolConfig, Mempool}
use augecoin.Core.Mempool.Checks
use augecoin.Core.Mempool.Checks.{>>-ok, for_each_from, validate_signatures}
use augecoin.Core.Mempool.Fees.{check_gift}
use augecoin.Core.Mempool.Methods.{precheck_for_block}
use augecoin.Core.Mempool.Evict.{names_sender}
use augecoin.Consensus.Validator.{ValidatorSet}
use augecoin.Consensus.Validator.Codec.{set_from_bytes}
use augecoin.Node.Execution.State.{Storage}
use augecoin.Node.Execution.Signatures
use augecoin.Node.Execution.Signatures.{verify_operation_signatures}

-- The payloads for which the mempool asks for a signature.
abbrev pub IsChecked : OperationPayload → Type 0
IsChecked (OperationPayload.gift_account _ _ _ _) = ⊥
IsChecked (OperationPayload.accept_gift _ _ _) = ⊥
IsChecked (OperationPayload.recover_founds _) = ⊥
IsChecked _ = Unit

get_elem?-cases : {A : Type 0} (xs : List A) (i : ℕ) → (get_elem? xs i ≡ none) ⊎ (i < length xs)
get_elem?-cases [] i = inl refl
get_elem?-cases (x ∷ xs) zero = inr (omega arith)
get_elem?-cases (x ∷ xs) (suc i) = ground (arith, get_elem?-cases xs i)

-- A gift of the account to the recipient's key, at no fee.
abbrev pub gift : ℕ → ℕ → Bytes → ℕ → List Signature → Operation
gift number n recipient chain sigs = record {
  payload = OperationPayload.gift_account number n recipient 0;
  chain_id = chain;
  signatures = sigs;
}

module _ (c : Crypto) (st : Storage) where
  -- the accounts of the node, as the mempool reads them
  abbrev pub stored_accounts : AccountLookup
  stored_accounts = record { get_account = st.get_account }

  account_signed-agrees :
      (message : Bytes) (sigs : List Signature) (i number : ℕ)
      → Checks.account_signed stored_accounts c message sigs i number ≡ ok tt
      → (Signatures.account_signed c st message sigs i number ≡ true) × (i < length sigs)
  unfolding Checks.account_signed Signatures.account_signed
  account_signed-agrees message sigs i number h = ground (arith, get_elem?-cases sigs i)

  senders_signed-agrees :
      (message : Bytes) (sigs : List Signature) (i : ℕ) (ss : List SenderInfo)
      → i ≤ length sigs
      → for_each_from (Checks.sender_signed stored_accounts c message sigs) i ss ≡ ok tt
      → (Signatures.senders_signed c st message sigs i ss ≡ true) × (i + length ss ≤ length sigs)
  unfolding for_each_from Checks.sender_signed Signatures.senders_signed
  senders_signed-agrees message sigs i [] le h = (refl, omega arith)
  senders_signed-agrees message sigs i (s ∷ ss) le h =
      let parts = >>-ok _ _ h in
      let (now, inside) = account_signed-agrees message sigs i s.account parts.0 in
      let (later, enough) = senders_signed-agrees message sigs (suc i) ss (omega arith) parts.1 in
      (rw (now, later) refl, omega arith)

  senders_enough :
      (message : Bytes) (sigs : List Signature) (ss : List SenderInfo)
      → for_each_from (Checks.sender_signed stored_accounts c message sigs) 0 ss ≡ ok tt
      → leb (length ss) (length sigs) && Signatures.senders_signed c st message sigs 0 ss ≡ true
  senders_enough message sigs ss h =
      let (each, enough) = senders_signed-agrees message sigs 0 ss (omega arith) h in
      let covered : leb (length ss) (length sigs) ≡ true = le→leb _ _ (omega arith) in
      rw (covered, each) refl

  -- The stored validator set can be read.
  pub record AdminIs (key : Bytes) : Type 0 where
    pub raw : Bytes
    pub set : ValidatorSet
    pub stored : st.get_validator_set_bytes ≡ ok (some raw)
    pub decoded : set_from_bytes c raw ≡ ok set
    pub same : set.admin_public_key ≡ key

  admin_signed-agrees :
      (key message : Bytes) (sigs : List Signature)
      → AdminIs key
      → Checks.admin_signed stored_accounts c (some key) message sigs ≡ ok tt
      → Signatures.admin_signed c st message sigs ≡ true
  unfolding Checks.admin_signed Signatures.admin_signed
  admin_signed-agrees key message sigs a h =
      rw (a.stored, Signatures.admin_signed, a.decoded, a.same) (signed (>>-ok _ _ h).1)
    where
      signed :
          Checks.fail_if (not (any (λ sig. c.verify key sig message) sigs)) invalid_signature
            ≡ ok tt
          → any (λ sig. c.verify key sig message) sigs ≡ true
      signed e = ground (arith, e)

  payload_signed-agrees :
      (key message : Bytes) (sigs : List Signature) (p : OperationPayload)
      → AdminIs key
      → IsChecked p
      → Checks.signed_by_payload stored_accounts c (some key) message sigs p ≡ ok tt
      → Signatures.payload_signed c st message sigs p ≡ true
  unfolding Checks.signed_by_payload Signatures.payload_signed
  payload_signed-agrees key message sigs (OperationPayload.transaction ss _ _ _) a checked h =
      senders_enough message sigs ss h
  payload_signed-agrees key message sigs (OperationPayload.address_transaction ss _ _) a checked h =
      senders_enough message sigs ss h
  payload_signed-agrees key message sigs (OperationPayload.multi_operation ss _ _ _) a checked h =
      senders_enough message sigs ss h
  payload_signed-agrees key message sigs (OperationPayload.data_operation d) a checked h =
      let parts = >>-ok _ _ h in
      let (own, inside) = account_signed-agrees message sigs 0 d.account parts.0 in
      let (others, _) = senders_signed-agrees message sigs 1 d.senders (omega arith) parts.1 in
      rw (own, others) refl
  payload_signed-agrees key message sigs (OperationPayload.validator_admin _) a checked h =
      admin_signed-agrees key message sigs a h
  payload_signed-agrees key message sigs (OperationPayload.create_account _ _ _) a checked h =
      admin_signed-agrees key message sigs a h
  payload_signed-agrees key message sigs (OperationPayload.gift_account _ _ _ _) a checked h =
      absurd checked
  payload_signed-agrees key message sigs (OperationPayload.accept_gift _ _ _) a checked h =
      absurd checked
  payload_signed-agrees key message sigs (OperationPayload.recover_founds _) a checked h =
      absurd checked
  payload_signed-agrees key message sigs (OperationPayload.change_key account _ _ _) a checked h =
      (account_signed-agrees message sigs 0 account h).0
  payload_signed-agrees key message sigs (OperationPayload.change_key_signed account _ _ _ _) a
        checked h =
      (account_signed-agrees message sigs 0 account h).0
  payload_signed-agrees key message sigs (OperationPayload.list_account_for_sale l) a checked h =
      (account_signed-agrees message sigs 0 l.account h).0
  payload_signed-agrees key message sigs (OperationPayload.delist_account account _ _) a checked h =
      (account_signed-agrees message sigs 0 account h).0
  payload_signed-agrees key message sigs (OperationPayload.buy_account p) a checked h =
      (account_signed-agrees message sigs 0 p.buyer_account h).0
  payload_signed-agrees key message sigs (OperationPayload.change_account_info i) a checked h =
      (account_signed-agrees message sigs 0 i.account h).0
  payload_signed-agrees key message sigs (OperationPayload.contract call) a checked h =
      (account_signed-agrees message sigs 0 call.account h).0

  -- What the mempool takes for signed, at admission and before it goes into a block, a block takes for
  -- signed: every payload but a gift, the accepting of one and a recovery, where the mempool knows
  -- the admin key of the stored validator set.
  pub validate_signatures-verify :
      (m : Mempool) (op : Operation) (key : Bytes)
      → m.admin_pubkey ≡ some key
      → AdminIs key
      → IsChecked op.payload
      → validate_signatures stored_accounts c m op ≡ ok tt
      → verify_operation_signatures c st op ≡ true
  unfolding validate_signatures verify_operation_signatures
  validate_signatures-verify m op key known a checked h =
      payload_signed-agrees key (to_bytes_stripped op) op.signatures op.payload a checked (
        subst
          (λ admin.
            Checks.signed_by_payload stored_accounts c admin (to_bytes_stripped op) op.signatures
              op.payload
            ≡ ok tt)
          known (not_empty op.signatures _ h))
    where
      not_empty :
          (sigs : List Signature) (r : Checks.Check (Unit {0}))
          → elim sigs as (λ _. Checks.Check (Unit {0})) [ [] ↦ err invalid_signature | _ ∷ _ ↦ r ]
            ≡ ok tt
          → r ≡ ok tt
      not_empty [] r e = cc
      not_empty (x ∷ xs) r e = e

  free_gift-passes :
      (config : MempoolConfig) (number : ℕ) (acc : Account)
      → st.get_account number ≡ ok (some acc)
      → acc.account_info.state ≡ AccountState.reserved
      → check_gift stored_accounts config number 0 ≡ ok tt
  unfolding check_gift
  free_gift-passes config number acc found reserved =
      rw (check_gift, found, reserved) (ground arith)

  -- A gift that anybody makes: where the account is `Reserved` and the fee is 0, an operation whose
  -- first signature does not verify under the key of the account, whatever counter it names, passes the
  -- checks that the builder of a block makes, is refused by the block, and is not among the operations
  -- of any sender that the quarantine evicts.
  pub unsigned_gift_stays :
      (m : Mempool) (number n : ℕ) (recipient sig : Bytes) (sigs : List Signature)
      (chain sender : ℕ) (acc : Account)
      → st.get_account number ≡ ok (some acc)
      → acc.account_info.state ≡ AccountState.reserved
      → c.verify acc.account_info.account_key sig
          (to_bytes_stripped (gift number n recipient chain (sig ∷ sigs)))
        ≡ false
      → (precheck_for_block c stored_accounts m (gift number n recipient chain (sig ∷ sigs))
          ≡ ok tt)
        × (verify_operation_signatures c st (gift number n recipient chain (sig ∷ sigs)) ≡ false)
        × (names_sender sender 0 (gift number n recipient chain (sig ∷ sigs)) ≡ false)
  unfolding precheck_for_block validate_signatures verify_operation_signatures
  unsigned_gift_stays m number n recipient sig sigs chain sender acc found reserved forged =
      (free_gift-passes m.config number acc found reserved, refused, refl)
    where
      refused :
          verify_operation_signatures c st (gift number n recipient chain (sig ∷ sigs)) ≡ false
      refused = ground (arith, found, forged)
