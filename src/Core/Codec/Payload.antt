-- ===== src/Core/Codec/Payload.antt =====
-- crates/augecoin-core/src/operation.rs: `OperationPayload::from_bytes`, one reader for each tag, and
-- `Operation::from_bytes`.
use augecoin.Base.{ℕ, List, Bytes, Result, ok, err, ◌==◌, if◌then◌else◌}
use augecoin.Core.Operation.{SenderInfo, ReceiverInfo, ChangerInfo, OperationPayload, Operation}
use augecoin.Core.Codec.Reader
use augecoin.Core.Codec.Reader.{Reader, ◌>>=◌, pure, fail}
use augecoin.Core.Codec.Read.{
  OperationError, unknown_operation_type, Read, ct_max_senders, ct_max_receivers, ct_max_changers,
  read_u8, read_u16, read_u64, read_fixed, read_bytes_with_len, read_list, read_optional_str,
  read_sender, read_receiver, read_address_receiver, read_changer, read_sig,
  read_validator_admin_op,
}

-- a `Transaction` and a `MultiOperation` have the same fields
unfoldable pub read_transfer :
    (List SenderInfo → List ReceiverInfo → List ChangerInfo → ℕ → OperationPayload)
    → Read OperationPayload
unfolding ◌>>=◌ pure read_list read_sender read_receiver read_changer Reader.read_u64
read_transfer build = do
  senders ← read_list ct_max_senders read_sender
  receivers ← read_list ct_max_receivers read_receiver
  changers ← read_list ct_max_changers read_changer
  fee ← read_u64
  pure (build senders receivers changers fee)

unfoldable pub read_address_transaction : Read OperationPayload
unfolding ◌>>=◌ pure read_list read_sender read_address_receiver Reader.read_u64
read_address_transaction = do
  senders ← read_list ct_max_senders read_sender
  receivers ← read_list ct_max_receivers read_address_receiver
  fee ← read_u64
  pure (OperationPayload.address_transaction senders receivers fee)

unfoldable pub read_change_key : Read OperationPayload
unfolding ◌>>=◌ pure Reader.read_u64 Reader.read_fixed
read_change_key = do
  account ← read_u64
  n ← read_u64
  fee ← read_u64
  key ← read_fixed 32
  pure (OperationPayload.change_key account n fee key)

unfoldable pub read_recover_founds : Read OperationPayload
unfolding ◌>>=◌ pure Reader.read_u64
read_recover_founds = do account ← read_u64; pure (OperationPayload.recover_founds account)

unfoldable pub read_list_for_sale : Read OperationPayload
unfolding ◌>>=◌ pure Reader.read_u64 Reader.read_fixed
read_list_for_sale = do
  account ← read_u64
  n ← read_u64
  price ← read_u64
  pay ← read_u64
  key ← read_fixed 32
  locked ← read_u64
  fee ← read_u64
  pure (
      OperationPayload.list_account_for_sale (record {
        account = account;
        n_operation = n;
        sale_price = price;
        account_to_pay = pay;
        new_ed25519_public_key = key;
        locked_until_block = locked;
        fee = fee;
      }))

-- account, n_operation, fee: a `DelistAccount` and an `AcceptGift`
unfoldable pub read_three : (ℕ → ℕ → ℕ → OperationPayload) → Read OperationPayload
unfolding ◌>>=◌ pure Reader.read_u64
read_three build = do account ← read_u64; n ← read_u64; fee ← read_u64; pure (build account n fee)

unfoldable pub read_buy_account : Read OperationPayload
unfolding ◌>>=◌ pure Reader.read_u64 Reader.read_fixed
read_buy_account = do
  buyer ← read_u64
  n ← read_u64
  target ← read_u64
  amount ← read_u64
  fee ← read_u64
  key ← read_fixed 32
  seller ← read_u64
  pure (
      OperationPayload.buy_account (record {
        buyer_account = buyer;
        n_operation = n;
        account_to_purchase = target;
        amount = amount;
        fee = fee;
        new_ed25519_public_key = key;
        seller_account = seller;
      }))

unfoldable pub read_change_key_signed : Read OperationPayload
unfolding ◌>>=◌ pure Reader.read_u64 Reader.read_fixed
read_change_key_signed = do
  account ← read_u64
  n ← read_u64
  fee ← read_u64
  key ← read_fixed 32
  signature ← read_sig
  pure (OperationPayload.change_key_signed account n fee key signature)

unfoldable pub read_change_account_info : Read OperationPayload
unfolding ◌>>=◌ pure read_optional_str Reader.read_u64 Reader.read_u16 Reader.read_fixed
    Reader.read_bytes_with_len
read_change_account_info = do
  account ← read_u64
  n ← read_u64
  fee ← read_u64
  key ← read_fixed 32
  name ← read_optional_str
  kind ← read_u16
  datum ← read_bytes_with_len
  seal ← read_bytes_with_len
  pure (
      OperationPayload.change_account_info (record {
        account = account;
        n_operation = n;
        fee = fee;
        new_ed25519_public_key = key;
        new_name = name;
        new_type = kind;
        new_account_data = datum;
        new_account_seal = seal;
      }))

unfoldable pub read_data_operation : Read OperationPayload
unfolding ◌>>=◌ pure read_list read_sender read_receiver read_changer Reader.read_u64
    Reader.read_bytes_with_len
read_data_operation = do
  account ← read_u64
  n ← read_u64
  fee ← read_u64
  contents ← read_bytes_with_len
  senders ← read_list ct_max_senders read_sender
  receivers ← read_list ct_max_receivers read_receiver
  changers ← read_list ct_max_changers read_changer
  pure (
      OperationPayload.data_operation (record {
        account = account;
        n_operation = n;
        fee = fee;
        contents = contents;
        senders = senders;
        receivers = receivers;
        changers = changers;
      }))

unfoldable pub read_validator_admin : Read OperationPayload
unfolding ◌>>=◌ pure read_validator_admin_op
read_validator_admin = do op ← read_validator_admin_op; pure (OperationPayload.validator_admin op)

unfoldable pub read_create_account : Read OperationPayload
unfolding ◌>>=◌ pure Reader.read_u64 Reader.read_fixed Reader.read_bytes_with_len
read_create_account = do
  number ← read_u64
  key ← read_fixed 32
  metadata ← read_bytes_with_len
  pure (OperationPayload.create_account number key metadata)

unfoldable pub read_gift_account : Read OperationPayload
unfolding ◌>>=◌ pure Reader.read_u64 Reader.read_fixed
read_gift_account = do
  account ← read_u64
  n ← read_u64
  key ← read_fixed 32
  fee ← read_u64
  pure (OperationPayload.gift_account account n key fee)

unfoldable pub read_contract : Read OperationPayload
unfolding ◌>>=◌ pure Reader.read_u64 Reader.read_u8 Reader.read_bytes_with_len
read_contract = do
  account ← read_u64
  n ← read_u64
  fee ← read_u64
  kind ← read_u8
  contents ← read_bytes_with_len
  pure (
      OperationPayload.contract (record {
        account = account;
        n_operation = n;
        fee = fee;
        op_type = kind;
        contents = contents;
      }))

-- The reader behind the tag.
unfoldable pub read_by_tag : ℕ → Read OperationPayload
unfolding fail read_transfer read_address_transaction read_change_key read_recover_founds
    read_list_for_sale read_three read_buy_account read_change_key_signed read_change_account_info
    read_data_operation read_validator_admin read_create_account read_gift_account read_contract
read_by_tag tag =
    if tag == 0x01
    then read_transfer OperationPayload.transaction
    else if tag == 0x0F
    then read_address_transaction
    else if tag == 0x02
    then read_change_key
    else if tag == 0x03
    then read_recover_founds
    else if tag == 0x04
    then read_list_for_sale
    else if tag == 0x05
    then read_three OperationPayload.delist_account
    else if tag == 0x06
    then read_buy_account
    else if tag == 0x07
    then read_change_key_signed
    else if tag == 0x08
    then read_change_account_info
    else if tag == 0x09
    then read_transfer OperationPayload.multi_operation
    else if tag == 0x0A
    then read_data_operation
    else if tag == 0x0B
    then read_validator_admin
    else if tag == 0x0C
    then read_create_account
    else if tag == 0x0D
    then read_gift_account
    else if tag == 0x0E
    then read_three OperationPayload.accept_gift
    else if tag == 0x10
    then read_contract
    else fail (unknown_operation_type tag)

unfoldable pub read_payload : Read OperationPayload
unfolding ◌>>=◌ read_by_tag Reader.read_u8
read_payload = do tag ← read_u8; read_by_tag tag

unfoldable pub read_operation : Read Operation
unfolding ◌>>=◌ pure read_payload read_list Reader.read_u64 Reader.read_fixed
read_operation = do
  payload ← read_payload
  chain_id ← read_u64
  signatures ← read_list 200 read_sig
  pure (record { payload = payload; chain_id = chain_id; signatures = signatures })

-- `Operation::from_bytes`: what follows the operation is left unread.
unfoldable pub operation_from_bytes : Bytes → Result OperationError Operation
unfolding read_operation
operation_from_bytes input = elim (read_operation input) [ ok (op, rest) ↦ ok op | err e ↦ err e ]
