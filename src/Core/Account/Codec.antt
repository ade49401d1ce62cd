-- ===== src/Core/Account/Codec.antt =====
-- crates/augecoin-core/src/account.rs, `to_bytes` and `from_bytes`: the stored form of an account.
-- The reader keeps the bytes behind its position; what follows the account is left unread.
use augecoin.Base.{
  ℕ, zero, suc, Bool, true, false, ◌&&◌, Option, none, some, [], ◌∷◌, ◌++◌, ltb, leb, ◌==◌,
  if◌then◌else◌, Bytes, length, Result, ok, err, to_be_bytes, from_be_bytes, take_exact,
}
use augecoin.Core.Account.{AccountInfo, AccountKey, Account, state_to_u8, state_from_u8}

abbrev pub max_account_data : ℕ
max_account_data = 32

pub data AccountDecodeError : Type 0 where
  unexpected_eof invalid_account_state invalid_utf8 : AccountDecodeError
  account_data_too_long seal_too_long : ℕ → AccountDecodeError

-- `String::from_utf8`: what follows a first byte is that many bytes, the next one within the bounds.
record Lead : Type 0 where
  follow : ℕ
  low : ℕ
  high : ℕ

abbrev between : ℕ → ℕ → ℕ → Bool
between low high b = leb low b && leb b high

lead_of : ℕ → Option Lead
lead_of b =
    if leb b 0x7F
    then some (record { follow = 0; low = 0; high = 0 })
    else if between 0xC2 0xDF b
    then some (record { follow = 1; low = 0x80; high = 0xBF })
    else if b == 0xE0
    then some (record { follow = 2; low = 0xA0; high = 0xBF })
    else if b == 0xED
    then some (record { follow = 2; low = 0x80; high = 0x9F })
    else if between 0xE1 0xEF b
    then some (record { follow = 2; low = 0x80; high = 0xBF })
    else if b == 0xF0
    then some (record { follow = 3; low = 0x90; high = 0xBF })
    else if between 0xF1 0xF3 b
    then some (record { follow = 3; low = 0x80; high = 0xBF })
    else if b == 0xF4
    then some (record { follow = 3; low = 0x80; high = 0x8F })
    else none

unfoldable pub utf8_from : ℕ → ℕ → ℕ → Bytes → Bool
unfolding lead_of
utf8_from zero low high [] = true
utf8_from (suc n) low high [] = false
utf8_from zero low high (b ∷ bs) = elim (lead_of b) [
  | none ↦ false
  | some l ↦ utf8_from l.follow l.low l.high bs
]
utf8_from (suc n) low high (b ∷ bs) = between low high b && utf8_from n 0x80 0xBF bs

unfoldable pub is_utf8 : Bytes → Bool
unfolding utf8_from
is_utf8 bs = utf8_from 0 0 0 bs

unfoldable pub write_prefixed_bytes : Bytes → Bytes
write_prefixed_bytes bytes = to_be_bytes 2 (length bytes) ++ bytes

unfoldable pub write_name : Option Bytes → Bytes
write_name none = to_be_bytes 2 0xFFFF
write_name (some name) = to_be_bytes 2 (length name) ++ name

-- the flag and the key
unfoldable pub write_new_key : Option AccountKey → Bytes
write_new_key none = 0 ∷ []
write_new_key (some key) = 1 ∷ key

unfoldable pub info_to_bytes : AccountInfo → Bytes
info_to_bytes i =
    state_to_u8 i.state
    ∷ (i.account_key
        ++ (to_be_bytes 8 i.locked_until_block
            ++ (to_be_bytes 8 i.price
                ++ (to_be_bytes 8 i.account_to_pay
                    ++ (write_new_key i.new_public_key ++ i.hashed_secret)))))

unfoldable pub account_to_bytes : Account → Bytes
account_to_bytes a =
    to_be_bytes 8 a.account_number
    ++ (info_to_bytes a.account_info
        ++ (to_be_bytes 8 a.balance
            ++ (to_be_bytes 8 a.updated_on_block_passive_mode
                ++ (to_be_bytes 8 a.updated_on_block_active_mode
                    ++ (to_be_bytes 8 a.n_operation
                        ++ (write_name a.name
                            ++ (to_be_bytes 2 a.account_type
                                ++ (write_prefixed_bytes a.account_data
                                    ++ write_prefixed_bytes a.account_seal))))))))

-- The next `n` bytes: `read_u64`, `read_u16` and `read_fixed`.
abbrev pub next :
    {A : Type 0}
    → ℕ
    → Bytes
    → (Bytes → Bytes → Result AccountDecodeError A)
    → Result AccountDecodeError A
next n left k = elim (take_exact n left) [
  | none ↦ err unexpected_eof
  | some (bytes, rest) ↦ k bytes rest
]

unfoldable pub read_prefixed_bytes : Bytes → Result AccountDecodeError (Bytes × Bytes)
read_prefixed_bytes left =
    next 2 left λ len left₁. next (from_be_bytes len) left₁ λ bytes left₂. ok (bytes, left₂)

unfoldable pub read_name : Bytes → Result AccountDecodeError (Option Bytes × Bytes)
read_name left = next 2 left λ len left₁. elim (from_be_bytes len == 0xFFFF) [
  | true ↦ ok (none, left₁)
  | false ↦
      next (from_be_bytes len) left₁
        λ name left₂. if is_utf8 name then ok (some name, left₂) else err invalid_utf8
]

unfoldable pub read_new_key : Bytes → Result AccountDecodeError (Option AccountKey × Bytes)
read_new_key [] = err unexpected_eof
read_new_key (flag ∷ left) = elim (flag == 1) [
  | true ↦ next 32 left λ key left₁. ok (some key, left₁)
  | false ↦ ok (none, left)
]

unfoldable pub read_info : Bytes → Result AccountDecodeError (AccountInfo × Bytes)
read_info [] = err unexpected_eof
read_info (tag ∷ left) = elim (state_from_u8 tag) [
  | none ↦ err invalid_account_state
  | some state ↦ next 32 left λ key left₁. next 8 left₁ λ locked left₂. next 8 left₂ λ price left₃.
      next 8 left₃ λ pay left₄. elim (read_new_key left₄) [
        | err e ↦ err e
        | ok (new_key, left₅) ↦ next 32 left₅ λ secret left₆. ok (
          record {
            state = state;
            account_key = key;
            locked_until_block = from_be_bytes locked;
            price = from_be_bytes price;
            account_to_pay = from_be_bytes pay;
            new_public_key = new_key;
            hashed_secret = secret;
          },
          left₆,
        )
      ]
]

-- the checks behind the last field
unfoldable pub check_lengths : Account → Result AccountDecodeError Account
check_lengths a =
    if ltb max_account_data (length a.account_data)
    then err (account_data_too_long (length a.account_data))
    else if ltb 32 (length a.account_seal)
    then err (seal_too_long (length a.account_seal))
    else ok a

-- the fields behind the name
unfoldable pub read_tail : (ℕ → Bytes → Bytes → Account) → Bytes → Result AccountDecodeError Account
read_tail build left = next 2 left λ kind left₁. elim (read_prefixed_bytes left₁) [
  | err e ↦ err e
  | ok (datum, left₂) ↦ elim (read_prefixed_bytes left₂) [
    | err e ↦ err e
    | ok (seal, left₃) ↦ check_lengths (build (from_be_bytes kind) datum seal)
  ]
]

unfoldable pub account_from_bytes : Bytes → Result AccountDecodeError Account
account_from_bytes input = next 8 input λ number left₁. elim (read_info left₁) [
  | err e ↦ err e
  | ok (info, left₂) ↦ next 8 left₂ λ balance left₃. next 8 left₃ λ passive left₄.
      next 8 left₄ λ active left₅. next 8 left₅ λ n left₆. elim (read_name left₆) [
        | err e ↦ err e
        | ok (name, left₇) ↦
            read_tail
              (λ kind datum seal. record {
                account_number = from_be_bytes number;
                account_info = info;
                balance = from_be_bytes balance;
                updated_on_block_passive_mode = from_be_bytes passive;
                updated_on_block_active_mode = from_be_bytes active;
                n_operation = from_be_bytes n;
                name = name;
                account_type = kind;
                account_data = datum;
                account_seal = seal;
              })
              left₇
      ]
]

-- `Account::hash`
unfoldable pub account_hash : (Bytes → Bytes) → Account → Bytes
unfolding account_to_bytes
account_hash blake3_512 a = blake3_512 (account_to_bytes a)
