-- ===== src/Core/Codec/Parts.antt =====
-- crates/augecoin-core/src/operation.rs: the parts of a payload are read back as they were written.
-- `Fits` says that the numbers and arrays have their sizes and that the lists keep to the limits of
-- the reader.
use augecoin.Base.{
  ℕ, ◌≤◌, ◌<◌, ◌≡◌, refl, false, Option, none, some, List, [], ◌∷◌, ◌++◌, ltb, ◌==◌, Bytes, length,
  arith, All, u16_mod, u32_mod, u64_mod,
}
use augecoin.Core.Account.RoundTrip.{FitsName}
use augecoin.Core.Operation.{
  SenderInfo, ReceiverInfo, AddressReceiverInfo, ChangerInfo, ValidatorAdminOp,
}
use augecoin.Core.Codec.Write.{
  write_u64, write_u32, write_list, write_sender, write_receiver, write_address_receiver,
  write_changer, write_optional_str, admin_op_to_bytes,
}
use augecoin.Core.Codec.Reader.{◌>>=◌, pure}
use augecoin.Core.Codec.Reads.{
  Reads, pure-Reads, bind-Reads, end-Reads, last-Reads, times-Reads, tag-Reads, fixed-Reads,
  u16-Reads, u32-Reads, u64-Reads, bytes_with_len-Reads,
}
use augecoin.Core.Codec.Read.{
  unexpected_eof, Read, read_u64, read_bounded_count, read_list, utf8_or_fail, read_optional_str,
  read_sender, read_receiver, read_address_key, read_address_receiver, read_changer,
  read_validator_admin_op,
}

pub record FitsSender (s : SenderInfo) : Type 0 where
  pub account : s.account < u64_mod
  pub n : s.n_operation < u64_mod
  pub amount : s.amount < u64_mod
  pub payload : length s.payload < u16_mod

pub record FitsReceiver (r : ReceiverInfo) : Type 0 where
  pub account : r.account < u64_mod
  pub amount : r.amount < u64_mod
  pub payload : length r.payload < u16_mod

abbrev pub FitsAddressKey : Option Bytes → Type 0
FitsAddressKey none = Unit
FitsAddressKey (some key) = length key ≡ 32

pub record FitsAddressReceiver (r : AddressReceiverInfo) : Type 0 where
  pub hash : length r.address.hash ≡ 24
  pub key : FitsAddressKey r.address.public_key
  pub amount : r.amount < u64_mod
  pub payload : length r.payload < u16_mod

pub record FitsChanger (c : ChangerInfo) : Type 0 where
  pub account : c.account < u64_mod
  pub n : c.n_operation < u64_mod
  pub key : length c.new_ed25519_public_key ≡ 32
  pub name : FitsName c.new_name
  pub kind : c.new_type < u16_mod
  pub datum : length c.new_account_data < u16_mod
  pub seal : length c.new_account_seal < u16_mod
  pub fee : c.fee < u64_mod

-- A list within the limit, each element of which fits.
abbrev pub FitsList : {A : Type 0} → ℕ → (A → Type 0) → List A → Type 0
FitsList max P xs = (length xs ≤ max) × All P xs

abbrev pub FitsAdminOp : ValidatorAdminOp → Type 0
FitsAdminOp (ValidatorAdminOp.add key height) = (length key ≡ 32) × (height < u64_mod)
FitsAdminOp (ValidatorAdminOp.remove id height) = (id < u64_mod) × (height < u64_mod)
FitsAdminOp (ValidatorAdminOp.activate id height) = (id < u64_mod) × (height < u64_mod)
FitsAdminOp (ValidatorAdminOp.deactivate id height) = (id < u64_mod) × (height < u64_mod)

pub u64_lem : (v : ℕ) → v < u64_mod → Reads read_u64 (write_u64 v) v
u64_lem = u64-Reads unexpected_eof

pub bounded_count-Reads :
    (max n : ℕ) → n ≤ max → max < u32_mod → Reads (read_bounded_count max) (write_u32 n) n
unfolding read_bounded_count
bounded_count-Reads max n h small =
    end-Reads _ (u32-Reads unexpected_eof n (omega (arith, small))) (rw within refl)
  where
    within : ltb max n ≡ false
    within = ground (arith, h)

pub list-Reads :
    {A : Type 0} (max : ℕ) (read : Read A) (write : A → Bytes) (P : A → Type 0)
    → max < u32_mod
    → ((a : A) → P a → Reads read (write a) a)
    → (xs : List A) → FitsList max P xs
    → Reads (read_list max read) (write_list write xs) xs
unfolding read_list write_list
list-Reads max read write P small each xs (short, fit) =
    bind-Reads _ (bounded_count-Reads max (length xs) short small)
      (times-Reads read write P each xs fit)

pub optional_str-Reads :
    (name : Option Bytes) → FitsName name → Reads read_optional_str (write_optional_str name) name
unfolding read_optional_str write_optional_str
optional_str-Reads none h = end-Reads _ (u16-Reads unexpected_eof 0xFFFF (omega arith)) refl
optional_str-Reads (some s) (short, good) =
    bind-Reads _ (u16-Reads unexpected_eof (length s) (omega (arith, short))) (
      rw other
        (end-Reads _ (fixed-Reads unexpected_eof (length s) s refl) (rw (utf8_or_fail, good) refl)))
  where
    other : (length s == 0xFFFF) ≡ false
    other = ground (arith, short)

pub sender-Reads : (s : SenderInfo) → FitsSender s → Reads read_sender (write_sender s) s
unfolding read_sender write_sender
sender-Reads s fits = bind-Reads _ (u64_lem s.account fits.account) (
    bind-Reads _ (u64_lem s.n_operation fits.n) (
      bind-Reads _ (u64_lem s.amount fits.amount)
        (last-Reads _ (bytes_with_len-Reads unexpected_eof s.payload fits.payload))))

pub receiver-Reads : (r : ReceiverInfo) → FitsReceiver r → Reads read_receiver (write_receiver r) r
unfolding read_receiver write_receiver
receiver-Reads r fits = bind-Reads _ (u64_lem r.account fits.account) (
    bind-Reads _ (u64_lem r.amount fits.amount)
      (last-Reads _ (bytes_with_len-Reads unexpected_eof r.payload fits.payload)))

-- the flag and the key, as the writer has them
abbrev write_address_key : Option Bytes → Bytes
write_address_key key = elim key [ none ↦ 0 ∷ [] | some k ↦ 1 ∷ k ]

address_key-Reads :
    (key : Option Bytes) → FitsAddressKey key → Reads read_address_key (write_address_key key) key
unfolding read_address_key
address_key-Reads none h = tag-Reads unexpected_eof 0 _ (pure-Reads none)
address_key-Reads (some key) h =
    tag-Reads unexpected_eof 1 _ (last-Reads _ (fixed-Reads unexpected_eof 32 key h))

pub address_receiver-Reads :
    (r : AddressReceiverInfo)
    → FitsAddressReceiver r
    → Reads read_address_receiver (write_address_receiver r) r
unfolding read_address_receiver write_address_receiver
address_receiver-Reads r fits =
    bind-Reads _ (fixed-Reads unexpected_eof 24 r.address.hash fits.hash) (
      bind-Reads _ (address_key-Reads r.address.public_key fits.key) (
        bind-Reads _ (u64_lem r.amount fits.amount)
          (last-Reads _ (bytes_with_len-Reads unexpected_eof r.payload fits.payload))))

pub changer-Reads : (c : ChangerInfo) → FitsChanger c → Reads read_changer (write_changer c) c
unfolding read_changer write_changer
changer-Reads c fits = bind-Reads _ (u64_lem c.account fits.account) (
    bind-Reads _ (u64_lem c.n_operation fits.n) (
      bind-Reads _ (fixed-Reads unexpected_eof 32 c.new_ed25519_public_key fits.key) (
        bind-Reads _ (optional_str-Reads c.new_name fits.name) (
          bind-Reads _ (u16-Reads unexpected_eof c.new_type fits.kind) (
            bind-Reads _ (bytes_with_len-Reads unexpected_eof c.new_account_data fits.datum) (
              bind-Reads _ (bytes_with_len-Reads unexpected_eof c.new_account_seal fits.seal)
                (last-Reads _ (u64_lem c.fee fits.fee))))))))

two_words-Reads :
    (build : ℕ → ℕ → ValidatorAdminOp) (id height : ℕ)
    → id < u64_mod
    → height < u64_mod
    → Reads
        (do i ← read_u64; h ← read_u64; pure (build i h))
        (write_u64 id ++ write_u64 height)
        (build id height)
two_words-Reads build id height a b =
    bind-Reads _ (u64_lem id a) (last-Reads (build id) (u64_lem height b))

pub admin_op-Reads :
    (op : ValidatorAdminOp)
    → FitsAdminOp op
    → Reads read_validator_admin_op (admin_op_to_bytes op) op
unfolding read_validator_admin_op admin_op_to_bytes
admin_op-Reads (ValidatorAdminOp.add key height) (a, b) =
    tag-Reads unexpected_eof 0 _
      (bind-Reads _ (fixed-Reads unexpected_eof 32 key a) (last-Reads _ (u64_lem height b)))
admin_op-Reads (ValidatorAdminOp.remove id height) (a, b) =
    tag-Reads unexpected_eof 1 _ (two_words-Reads ValidatorAdminOp.remove id height a b)
admin_op-Reads (ValidatorAdminOp.activate id height) (a, b) =
    tag-Reads unexpected_eof 2 _ (two_words-Reads ValidatorAdminOp.activate id height a b)
admin_op-Reads (ValidatorAdminOp.deactivate id height) (a, b) =
    tag-Reads unexpected_eof 3 _ (two_words-Reads ValidatorAdminOp.deactivate id height a b)
