-- ===== src/Core/Codec/Read.antt =====
-- crates/augecoin-core/src/operation.rs: the readers. A text of an error is left out; the numbers in
-- it are kept. `usize` is a native word, so the position never wraps.
use augecoin.Base.{ℕ, Option, none, some, List, Bytes, ltb, ◌==◌, if◌then◌else◌}
use augecoin.Core.Account.Codec.{is_utf8}
use augecoin.Core.Operation.{
  Signature, SenderInfo, ReceiverInfo, AddressReceiverInfo, ChangerInfo, ValidatorAdminOp,
}
use augecoin.Core.Codec.Reader
use augecoin.Core.Codec.Reader.{Reader, ◌>>=◌, pure, fail, read_times}

pub data OperationError : Type 0 where
  unexpected_eof invalid_utf8 : OperationError
  -- the count, the maximum
  count_exceeds_maximum : ℕ → ℕ → OperationError
  unknown_operation_type unknown_validator_admin_tag : ℕ → OperationError

abbrev pub Read : Type 0 → Type 0
Read A = Reader OperationError A

abbrev pub ct_max_senders : ℕ
ct_max_senders = 100

abbrev pub ct_max_receivers : ℕ
ct_max_receivers = 1000

abbrev pub ct_max_changers : ℕ
ct_max_changers = 100

abbrev pub read_u8 : Read ℕ
read_u8 = Reader.read_u8 unexpected_eof

abbrev pub read_u16 : Read ℕ
read_u16 = Reader.read_u16 unexpected_eof

abbrev pub read_u32 : Read ℕ
read_u32 = Reader.read_u32 unexpected_eof

abbrev pub read_u64 : Read ℕ
read_u64 = Reader.read_u64 unexpected_eof

abbrev pub read_fixed : ℕ → Read Bytes
read_fixed = Reader.read_fixed unexpected_eof

abbrev pub read_bytes_with_len : Read Bytes
read_bytes_with_len = Reader.read_bytes_with_len unexpected_eof

unfoldable pub read_bounded_count : ℕ → Read ℕ
unfolding ◌>>=◌ pure fail Reader.read_u32
read_bounded_count max = do
  n ← read_u32
  if ltb max n then fail (count_exceeds_maximum n max) else pure n

-- A bounded count and that many elements, as every list of the format is read.
unfoldable pub read_list : {A : Type 0} → ℕ → Read A → Read (List A)
unfolding ◌>>=◌ read_bounded_count read_times
read_list max read = do n ← read_bounded_count max; read_times n read

unfoldable pub utf8_or_fail : Bytes → Read (Option Bytes)
unfolding is_utf8 pure fail
utf8_or_fail s = if is_utf8 s then pure (some s) else fail invalid_utf8

unfoldable pub read_optional_str : Read (Option Bytes)
unfolding ◌>>=◌ pure utf8_or_fail Reader.read_u16 Reader.read_fixed
read_optional_str = do
  len ← read_u16
  if len == 0xFFFF then pure none else (do s ← read_fixed len; utf8_or_fail s)

unfoldable pub read_sender : Read SenderInfo
unfolding ◌>>=◌ pure Reader.read_u64 Reader.read_bytes_with_len
read_sender = do
  account ← read_u64
  n ← read_u64
  amount ← read_u64
  payload ← read_bytes_with_len
  pure (record { account = account; n_operation = n; amount = amount; payload = payload })

unfoldable pub read_receiver : Read ReceiverInfo
unfolding ◌>>=◌ pure Reader.read_u64 Reader.read_bytes_with_len
read_receiver = do
  account ← read_u64
  amount ← read_u64
  payload ← read_bytes_with_len
  pure (record { account = account; amount = amount; payload = payload })

unfoldable pub read_address_key : Read (Option Bytes)
unfolding ◌>>=◌ pure Reader.read_u8 Reader.read_fixed
read_address_key = do
  flag ← read_u8
  if flag == 1 then (do key ← read_fixed 32; pure (some key)) else pure none

-- the loop body over the receivers of an `AddressTransaction`
unfoldable pub read_address_receiver : Read AddressReceiverInfo
unfolding ◌>>=◌ pure read_address_key Reader.read_u64 Reader.read_fixed Reader.read_bytes_with_len
read_address_receiver = do
  hash ← read_fixed 24
  key ← read_address_key
  amount ← read_u64
  payload ← read_bytes_with_len
  pure (record {
    address = record { hash = hash; public_key = key };
    amount = amount;
    payload = payload;
  })

unfoldable pub read_changer : Read ChangerInfo
unfolding ◌>>=◌ pure read_optional_str Reader.read_u64 Reader.read_u16 Reader.read_fixed
    Reader.read_bytes_with_len
read_changer = do
  account ← read_u64
  n ← read_u64
  key ← read_fixed 32
  name ← read_optional_str
  kind ← read_u16
  datum ← read_bytes_with_len
  seal ← read_bytes_with_len
  fee ← read_u64
  pure (record {
    account = account;
    n_operation = n;
    new_ed25519_public_key = key;
    new_name = name;
    new_type = kind;
    new_account_data = datum;
    new_account_seal = seal;
    fee = fee;
  })

abbrev pub read_sig : Read Signature
read_sig = read_fixed 64

-- `ValidatorAdminOp::from_bytes`, behind the tag
unfoldable pub read_admin_op : ℕ → Read ValidatorAdminOp
unfolding ◌>>=◌ pure fail Reader.read_u64 Reader.read_fixed
read_admin_op tag =
    if tag == 0
    then (do key ← read_fixed 32; height ← read_u64; pure (ValidatorAdminOp.add key height))
    else if tag == 1
    then (do id ← read_u64; height ← read_u64; pure (ValidatorAdminOp.remove id height))
    else if tag == 2
    then (do id ← read_u64; height ← read_u64; pure (ValidatorAdminOp.activate id height))
    else if tag == 3
    then (do id ← read_u64; height ← read_u64; pure (ValidatorAdminOp.deactivate id height))
    else fail (unknown_validator_admin_tag tag)

unfoldable pub read_validator_admin_op : Read ValidatorAdminOp
unfolding ◌>>=◌ read_admin_op Reader.read_u8
read_validator_admin_op = do tag ← read_u8; read_admin_op tag
