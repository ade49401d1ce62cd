-- ===== src/Core/Codec/RoundTrip.antt =====
-- crates/augecoin-core/src/operation.rs: `Operation::from_bytes` after `Operation::to_bytes`.
use augecoin.Base.{
  ℕ, ◌<◌, ◌≡◌, refl, sym, subst, ok, List, ◌++◌, Bytes, length, arith, u16_mod, u64_mod,
}
use mathlib.Core.List.{append_assoc}
use augecoin.Core.Account.RoundTrip.{FitsName}
use augecoin.Core.Operation.{
  Signature, SenderInfo, ReceiverInfo, ChangerInfo, ListForSale, Purchase, InfoChange, DataOp,
  ContractCall, OperationPayload, Operation,
}
use augecoin.Core.Codec.Write.{
  write_u64, write_list, write_sender, write_receiver, write_changer, write_bytes_with_len,
  write_address_receiver, op_type, payload_body, payload_to_bytes, operation_to_bytes,
}
use augecoin.Core.Codec.Reads.{
  Reads, bind-Reads, last-Reads, tag-Reads, fixed-Reads, u16-Reads, bytes_with_len-Reads,
}
use augecoin.Core.Codec.Read.{
  unexpected_eof, read_fixed, read_bytes_with_len, read_sig, read_sender, read_receiver,
  read_address_receiver, read_changer,
}
use augecoin.Core.Codec.Payload.{
  read_transfer, read_three, read_by_tag, read_payload, read_operation, operation_from_bytes,
}
use augecoin.Core.Codec.Parts.{
  FitsSender, FitsReceiver, FitsAddressReceiver, FitsChanger, FitsList, FitsAdminOp, u64_lem,
  list-Reads, optional_str-Reads, sender-Reads, receiver-Reads, address_receiver-Reads,
  changer-Reads, admin_op-Reads,
}

pub record FitsForSale (l : ListForSale) : Type 0 where
  pub account : l.account < u64_mod
  pub n : l.n_operation < u64_mod
  pub price : l.sale_price < u64_mod
  pub pay : l.account_to_pay < u64_mod
  pub key : length l.new_ed25519_public_key ≡ 32
  pub locked : l.locked_until_block < u64_mod
  pub fee : l.fee < u64_mod

pub record FitsPurchase (p : Purchase) : Type 0 where
  pub buyer : p.buyer_account < u64_mod
  pub n : p.n_operation < u64_mod
  pub target : p.account_to_purchase < u64_mod
  pub amount : p.amount < u64_mod
  pub fee : p.fee < u64_mod
  pub key : length p.new_ed25519_public_key ≡ 32
  pub seller : p.seller_account < u64_mod

pub record FitsInfoChange (i : InfoChange) : Type 0 where
  pub account : i.account < u64_mod
  pub n : i.n_operation < u64_mod
  pub fee : i.fee < u64_mod
  pub key : length i.new_ed25519_public_key ≡ 32
  pub name : FitsName i.new_name
  pub kind : i.new_type < u16_mod
  pub datum : length i.new_account_data < u16_mod
  pub seal : length i.new_account_seal < u16_mod

pub record FitsData (d : DataOp) : Type 0 where
  pub account : d.account < u64_mod
  pub n : d.n_operation < u64_mod
  pub fee : d.fee < u64_mod
  pub contents : length d.contents < u16_mod
  pub senders : FitsList 100 FitsSender d.senders
  pub receivers : FitsList 1000 FitsReceiver d.receivers
  pub changers : FitsList 100 FitsChanger d.changers

pub record FitsCall (c : ContractCall) : Type 0 where
  pub account : c.account < u64_mod
  pub n : c.n_operation < u64_mod
  pub fee : c.fee < u64_mod
  pub contents : length c.contents < u16_mod

abbrev pub FitsTransfer : List SenderInfo → List ReceiverInfo → List ChangerInfo → ℕ → Type 0
FitsTransfer senders receivers changers fee =
    FitsList 100 FitsSender senders
    × FitsList 1000 FitsReceiver receivers
    × FitsList 100 FitsChanger changers
    × (fee < u64_mod)

abbrev pub FitsPayload : OperationPayload → Type 0
FitsPayload (OperationPayload.transaction ss rs cs fee) = FitsTransfer ss rs cs fee
FitsPayload (OperationPayload.multi_operation ss rs cs fee) = FitsTransfer ss rs cs fee
FitsPayload (OperationPayload.address_transaction ss rs fee) =
    FitsList 100 FitsSender ss × FitsList 1000 FitsAddressReceiver rs × (fee < u64_mod)
FitsPayload (OperationPayload.change_key account n fee key) =
    (account < u64_mod) × (n < u64_mod) × (fee < u64_mod) × (length key ≡ 32)
FitsPayload (OperationPayload.recover_founds account) = account < u64_mod
FitsPayload (OperationPayload.list_account_for_sale l) = FitsForSale l
FitsPayload (OperationPayload.delist_account account n fee) =
    (account < u64_mod) × (n < u64_mod) × (fee < u64_mod)
FitsPayload (OperationPayload.buy_account p) = FitsPurchase p
FitsPayload (OperationPayload.change_key_signed account n fee key signature) =
    (account < u64_mod)
    × (n < u64_mod)
    × (fee < u64_mod)
    × (length key ≡ 32)
    × (length signature ≡ 64)
FitsPayload (OperationPayload.change_account_info i) = FitsInfoChange i
FitsPayload (OperationPayload.data_operation d) = FitsData d
FitsPayload (OperationPayload.validator_admin op) = FitsAdminOp op
FitsPayload (OperationPayload.create_account number key metadata) =
    (number < u64_mod) × (length key ≡ 32) × (length metadata < u16_mod)
FitsPayload (OperationPayload.gift_account account n key fee) =
    (account < u64_mod) × (n < u64_mod) × (length key ≡ 32) × (fee < u64_mod)
FitsPayload (OperationPayload.accept_gift account n fee) =
    (account < u64_mod) × (n < u64_mod) × (fee < u64_mod)
FitsPayload (OperationPayload.contract c) = FitsCall c

pub record FitsOperation (op : Operation) : Type 0 where
  pub payload : FitsPayload op.payload
  pub chain : op.chain_id < u64_mod
  pub signatures : FitsList 200 (λ sig. length sig ≡ 64) op.signatures

key_lem : (key : Bytes) → length key ≡ 32 → Reads (read_fixed 32) key key
key_lem = fixed-Reads unexpected_eof 32

text_lem :
    (text : Bytes)
    → length text < u16_mod
    → Reads read_bytes_with_len (write_bytes_with_len text) text
text_lem = bytes_with_len-Reads unexpected_eof

transfer-Reads :
    (build : List SenderInfo → List ReceiverInfo → List ChangerInfo → ℕ → OperationPayload)
    (ss : List SenderInfo) (rs : List ReceiverInfo) (cs : List ChangerInfo) (fee : ℕ)
    → FitsTransfer ss rs cs fee
    → Reads
        (read_transfer build)
        (write_list write_sender ss
          ++ (write_list write_receiver rs ++ (write_list write_changer cs ++ write_u64 fee)))
        (build ss rs cs fee)
unfolding read_transfer
transfer-Reads build ss rs cs fee (a, b, c, d) =
    bind-Reads _ (list-Reads 100 read_sender write_sender _ (omega arith) sender-Reads ss a) (
      bind-Reads _
        (list-Reads 1000 read_receiver write_receiver _ (omega arith) receiver-Reads rs b)
        (bind-Reads _ (list-Reads 100 read_changer write_changer _ (omega arith) changer-Reads cs c)
          (last-Reads (build ss rs cs) (u64_lem fee d))))

three-Reads :
    (build : ℕ → ℕ → ℕ → OperationPayload) (account n fee : ℕ)
    → account < u64_mod
    → n < u64_mod
    → fee < u64_mod
    → Reads
        (read_three build)
        (write_u64 account ++ (write_u64 n ++ write_u64 fee))
        (build account n fee)
unfolding read_three
three-Reads build account n fee a b c =
    bind-Reads _ (u64_lem account a)
      (bind-Reads _ (u64_lem n b) (last-Reads (build account n) (u64_lem fee c)))

body-Reads :
    (p : OperationPayload) → FitsPayload p → Reads (read_by_tag (op_type p)) (payload_body p) p
unfolding read_by_tag op_type payload_body
body-Reads (OperationPayload.transaction ss rs cs fee) fits =
    transfer-Reads OperationPayload.transaction ss rs cs fee fits
body-Reads (OperationPayload.multi_operation ss rs cs fee) fits =
    transfer-Reads OperationPayload.multi_operation ss rs cs fee fits
body-Reads (OperationPayload.address_transaction ss rs fee) (a, b, c) =
    bind-Reads _ (list-Reads 100 read_sender write_sender _ (omega arith) sender-Reads ss a) (
      bind-Reads _
        (list-Reads 1000 read_address_receiver write_address_receiver _ (omega arith)
          address_receiver-Reads rs b)
        (last-Reads _ (u64_lem fee c)))
body-Reads (OperationPayload.change_key account n fee key) (a, b, c, d) =
    bind-Reads _ (u64_lem account a)
      (bind-Reads _ (u64_lem n b) (bind-Reads _ (u64_lem fee c) (last-Reads _ (key_lem key d))))
body-Reads (OperationPayload.recover_founds account) a = last-Reads _ (u64_lem account a)
body-Reads (OperationPayload.list_account_for_sale l) fits =
    bind-Reads _ (u64_lem l.account fits.account) (
      bind-Reads _ (u64_lem l.n_operation fits.n) (
        bind-Reads _ (u64_lem l.sale_price fits.price) (
          bind-Reads _ (u64_lem l.account_to_pay fits.pay) (
            bind-Reads _ (key_lem l.new_ed25519_public_key fits.key) (
              bind-Reads _ (u64_lem l.locked_until_block fits.locked)
                (last-Reads _ (u64_lem l.fee fits.fee)))))))
body-Reads (OperationPayload.delist_account account n fee) (a, b, c) =
    three-Reads OperationPayload.delist_account account n fee a b c
body-Reads (OperationPayload.buy_account p) fits =
    bind-Reads _ (u64_lem p.buyer_account fits.buyer) (
      bind-Reads _ (u64_lem p.n_operation fits.n) (
        bind-Reads _ (u64_lem p.account_to_purchase fits.target) (
          bind-Reads _ (u64_lem p.amount fits.amount) (
            bind-Reads _ (u64_lem p.fee fits.fee) (
              bind-Reads _ (key_lem p.new_ed25519_public_key fits.key)
                (last-Reads _ (u64_lem p.seller_account fits.seller)))))))
body-Reads (OperationPayload.change_key_signed account n fee key signature) (a, b, c, d, e) =
    bind-Reads _ (u64_lem account a) (
      bind-Reads _ (u64_lem n b) (
        bind-Reads _ (u64_lem fee c) (
          bind-Reads _ (key_lem key d) (last-Reads _ (fixed-Reads unexpected_eof 64 signature e)))))
body-Reads (OperationPayload.change_account_info i) fits =
    bind-Reads _ (u64_lem i.account fits.account) (
      bind-Reads _ (u64_lem i.n_operation fits.n) (
        bind-Reads _ (u64_lem i.fee fits.fee) (
          bind-Reads _ (key_lem i.new_ed25519_public_key fits.key) (
            bind-Reads _ (optional_str-Reads i.new_name fits.name) (
              bind-Reads _ (u16-Reads unexpected_eof i.new_type fits.kind) (
                bind-Reads _ (text_lem i.new_account_data fits.datum)
                  (last-Reads _ (text_lem i.new_account_seal fits.seal))))))))
body-Reads (OperationPayload.data_operation d) fits =
    bind-Reads _ (u64_lem d.account fits.account) (
      bind-Reads _ (u64_lem d.n_operation fits.n) (
        bind-Reads _ (u64_lem d.fee fits.fee) (
          bind-Reads _ (text_lem d.contents fits.contents) (
            bind-Reads _
              (list-Reads 100 read_sender write_sender _ (omega arith) sender-Reads d.senders
                fits.senders)
              (bind-Reads _
                (list-Reads 1000 read_receiver write_receiver _ (omega arith) receiver-Reads
                  d.receivers fits.receivers)
                (last-Reads _ (
                  list-Reads 100 read_changer write_changer _ (omega arith) changer-Reads d.changers
                    fits.changers)))))))
body-Reads (OperationPayload.validator_admin op) fits = last-Reads _ (admin_op-Reads op fits)
body-Reads (OperationPayload.create_account number key metadata) (a, b, c) =
    bind-Reads _ (u64_lem number a)
      (bind-Reads _ (key_lem key b) (last-Reads _ (text_lem metadata c)))
body-Reads (OperationPayload.gift_account account n key fee) (a, b, c, d) =
    bind-Reads _ (u64_lem account a)
      (bind-Reads _ (u64_lem n b) (bind-Reads _ (key_lem key c) (last-Reads _ (u64_lem fee d))))
body-Reads (OperationPayload.accept_gift account n fee) (a, b, c) =
    three-Reads OperationPayload.accept_gift account n fee a b c
body-Reads (OperationPayload.contract c) fits = bind-Reads _ (u64_lem c.account fits.account) (
    bind-Reads _ (u64_lem c.n_operation fits.n) (
      bind-Reads _ (u64_lem c.fee fits.fee)
        (tag-Reads unexpected_eof c.op_type _ (last-Reads _ (text_lem c.contents fits.contents)))))

payload-Reads : (p : OperationPayload) → FitsPayload p → Reads read_payload (payload_to_bytes p) p
unfolding read_payload payload_to_bytes
payload-Reads p fits = tag-Reads unexpected_eof (op_type p) _ (body-Reads p fits)

pub operation-Reads :
    (op : Operation) → FitsOperation op → Reads read_operation (operation_to_bytes op) op
unfolding read_operation operation_to_bytes
operation-Reads op fits =
    subst (λ w. Reads read_operation w op)
      (sym (
        append_assoc (payload_to_bytes op.payload) (write_u64 op.chain_id)
          (write_list (λ (sig : Signature). sig) op.signatures)))
      (bind-Reads _ (payload-Reads op.payload fits.payload) (
        bind-Reads _ (u64_lem op.chain_id fits.chain) (
          last-Reads _ (
            list-Reads 200 read_sig (λ sig. sig) _ (omega arith) (fixed-Reads unexpected_eof 64)
              op.signatures fits.signatures))))

-- Reading back the wire form of an operation gives the operation, whatever bytes follow, for every
-- payload: where its numbers fit their words, its keys have 32 bytes, its signatures 64 and its
-- address hashes 24, its texts have less than 65536 bytes, its names are UTF-8 of less than 65535,
-- and it has at most 100 senders, 1000 receivers, 100 changers and 200 signatures.
pub operation_from_bytes-to_bytes :
    (op : Operation) (rest : Bytes)
    → FitsOperation op
    → operation_from_bytes (operation_to_bytes op ++ rest) ≡ ok op
unfolding operation_from_bytes
operation_from_bytes-to_bytes op rest fits =
    rw (operation_from_bytes, (operation-Reads op fits).apply rest) refl
