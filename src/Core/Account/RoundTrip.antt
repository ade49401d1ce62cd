-- ===== src/Core/Account/RoundTrip.antt =====
-- crates/augecoin-core/src/account.rs: `Account::from_bytes` after `Account::to_bytes`.
use augecoin.Base.{
  ℕ, ◌≤◌, ◌<◌, ◌≡◌, refl, ◌∙◌, true, false, Option, none, some, ◌++◌, ◌==◌, Bytes, length, arith,
  Result, ok, to_be_bytes, from_be_bytes, take_exact-append_of_length, length-to_be_bytes,
  u16_round_trip, u64_round_trip, u16_mod, u64_mod,
}
use mathlib.Core.List.{append_assoc}
use augecoin.Core.Account.{
  AccountState, AccountInfo, AccountKey, Account, state_to_u8, state_from_u8,
}
use augecoin.Core.Account.Codec.{
  AccountDecodeError, is_utf8, write_prefixed_bytes, write_name, write_new_key, info_to_bytes,
  account_to_bytes, next, read_prefixed_bytes, read_name, read_new_key, read_info, check_lengths,
  read_tail, account_from_bytes,
}

-- The values fit the words and the arrays that they stand in, and the limits of the reader.
abbrev pub FitsKey : Option AccountKey → Type 0
FitsKey none = Unit
FitsKey (some key) = length key ≡ 32

abbrev pub FitsName : Option Bytes → Type 0
FitsName none = Unit
FitsName (some name) = (length name < 0xFFFF) × (is_utf8 name ≡ true)

pub record FitsInfo (i : AccountInfo) : Type 0 where
  pub key : length i.account_key ≡ 32
  pub locked : i.locked_until_block < u64_mod
  pub price : i.price < u64_mod
  pub pay : i.account_to_pay < u64_mod
  pub new_key : FitsKey i.new_public_key
  pub secret : length i.hashed_secret ≡ 32

pub record FitsAccount (a : Account) : Type 0 where
  pub number : a.account_number < u64_mod
  pub info : FitsInfo a.account_info
  pub balance : a.balance < u64_mod
  pub passive : a.updated_on_block_passive_mode < u64_mod
  pub active : a.updated_on_block_active_mode < u64_mod
  pub n : a.n_operation < u64_mod
  pub name : FitsName a.name
  pub kind : a.account_type < u16_mod
  pub datum : length a.account_data ≤ 32
  pub seal : length a.account_seal ≤ 32

next-append :
    {A : Type 0} (n : ℕ) (xs rest : Bytes) (k : Bytes → Bytes → Result AccountDecodeError A)
    → length xs ≡ n
    → next n (xs ++ rest) k ≡ k xs rest
next-append n xs rest k h = rw (take_exact-append_of_length n xs rest h, next)

next_word :
    {A : Type 0} (n v : ℕ) (rest : Bytes) (k : Bytes → Bytes → Result AccountDecodeError A)
    → next n (to_be_bytes n v ++ rest) k ≡ k (to_be_bytes n v) rest
next_word n v rest k = next-append n (to_be_bytes n v) rest k (length-to_be_bytes n v)

-- Every account state is read back from its byte.
pub state_from_u8-to_u8 : (st : AccountState) → state_from_u8 (state_to_u8 st) ≡ some st
unfolding state_from_u8 state_to_u8
state_from_u8-to_u8 AccountState.unknown = refl
state_from_u8-to_u8 AccountState.normal = refl
state_from_u8-to_u8 AccountState.for_sale = refl
state_from_u8-to_u8 AccountState.for_atomic_account_swap = refl
state_from_u8-to_u8 AccountState.for_atomic_coin_swap = refl
state_from_u8-to_u8 AccountState.reserved = refl
state_from_u8-to_u8 AccountState.owned = refl
state_from_u8-to_u8 AccountState.gift_pending = refl

read_prefixed_bytes-write :
    (bytes rest : Bytes)
    → length bytes < u16_mod
    → read_prefixed_bytes (write_prefixed_bytes bytes ++ rest) ≡ ok (bytes, rest)
unfolding read_prefixed_bytes write_prefixed_bytes
read_prefixed_bytes-write bytes rest h = simp append_assoc (
    next_word 2 (length bytes) (bytes ++ rest) _
    ∙ next-append (from_be_bytes (to_be_bytes 2 (length bytes))) bytes rest _
        (rw (u16_round_trip (length bytes) h) refl))

read_new_key-write :
    (key : Option AccountKey) (rest : Bytes)
    → FitsKey key
    → read_new_key (write_new_key key ++ rest) ≡ ok (key, rest)
unfolding read_new_key write_new_key
read_new_key-write none rest h = refl
read_new_key-write (some key) rest h = next-append 32 key rest _ h

read_name-write :
    (name : Option Bytes) (rest : Bytes)
    → FitsName name
    → read_name (write_name name ++ rest) ≡ ok (name, rest)
unfolding read_name write_name
read_name-write none rest h =
    next_word 2 0xFFFF rest _ ∙ rw (u16_round_trip 0xFFFF (omega arith)) refl
read_name-write (some name) rest (short, good) = simp append_assoc (
    next_word 2 (length name) (name ++ rest) _
    ∙ rw (u16_round_trip (length name) (omega (arith, short)), other)
        (next-append (from_be_bytes (to_be_bytes 2 (length name))) name rest _
            (rw (u16_round_trip (length name) (omega (arith, short))) refl)
          ∙ rw good refl))
  where
    other : (length name == 0xFFFF) ≡ false
    other = ground (arith, short)

read_info-write :
    (i : AccountInfo) (rest : Bytes)
    → FitsInfo i
    → read_info (info_to_bytes i ++ rest) ≡ ok (i, rest)
unfolding read_info info_to_bytes
read_info-write i rest fits = simp append_assoc (
    rw (state_from_u8-to_u8 i.state, read_info)
      (next-append 32 i.account_key _ _ fits.key
        ∙ (next_word 8 i.locked_until_block _ _
            ∙ (next_word 8 i.price _ _
                ∙ (next_word 8 i.account_to_pay _ _
                    ∙ rw
                        (read_new_key-write i.new_public_key (i.hashed_secret ++ rest) fits.new_key)
                        (next-append 32 i.hashed_secret rest _ fits.secret
                          ∙ rw
                              (
                                u64_round_trip i.locked_until_block fits.locked,
                                u64_round_trip i.price fits.price,
                                u64_round_trip i.account_to_pay fits.pay,
                              )
                              refl))))))

check_lengths-fits :
    (a : Account) → length a.account_data ≤ 32 → length a.account_seal ≤ 32 → check_lengths a ≡ ok a
unfolding check_lengths
check_lengths-fits a h g = ground (arith, h, g)

read_tail-write :
    (build : ℕ → Bytes → Bytes → Account) (a : Account) (rest : Bytes)
    → FitsAccount a
    → build a.account_type a.account_data a.account_seal ≡ a
    → read_tail build (
        to_be_bytes 2 a.account_type
        ++ (write_prefixed_bytes a.account_data ++ (write_prefixed_bytes a.account_seal ++ rest)))
      ≡ ok a
unfolding read_tail
read_tail-write build a rest fits built =
    next_word 2 a.account_type _ _
    ∙ rw
        (
          read_prefixed_bytes-write a.account_data (write_prefixed_bytes a.account_seal ++ rest)
              (omega (arith, fits.datum)),
          read_prefixed_bytes-write a.account_seal rest (omega (arith, fits.seal)),
          u16_round_trip a.account_type fits.kind,
          built,
        )
        (check_lengths-fits a fits.datum fits.seal)

-- Reading back the stored form gives the account, for every account whose numbers and arrays have
-- their sizes, whose name is UTF-8 of less than 65535 bytes, and whose data and seal have 32 bytes at
-- most, whatever bytes follow.
pub account_from_bytes-to_bytes :
    (a : Account) (rest : Bytes)
    → FitsAccount a
    → account_from_bytes (account_to_bytes a ++ rest) ≡ ok a
unfolding account_from_bytes account_to_bytes
account_from_bytes-to_bytes a rest fits = simp append_assoc (
    next_word 8 a.account_number _ _
    ∙ rw (read_info-write a.account_info _ fits.info, account_from_bytes)
        (next_word 8 a.balance _ _
          ∙ (next_word 8 a.updated_on_block_passive_mode _ _
              ∙ (next_word 8 a.updated_on_block_active_mode _ _
                  ∙ (next_word 8 a.n_operation _ _
                      ∙ rw (read_name-write a.name _ fits.name) (
                          read_tail-write _ a rest fits (
                            rw
                              (
                                u64_round_trip a.account_number fits.number,
                                u64_round_trip a.balance fits.balance,
                                u64_round_trip a.updated_on_block_passive_mode fits.passive,
                                u64_round_trip a.updated_on_block_active_mode fits.active,
                                u64_round_trip a.n_operation fits.n,
                              )
                              refl)))))))
