-- ===== src/Core/Address.antt =====
-- crates/augecoin-crypto/src/address.rs: addresses, their checksums and their Base58 texts. A text is
-- the list of its bytes.
pub mod Digits
pub mod Base58
pub mod RoundTrip
use augecoin.Base.{
  ℕ, zero, suc, ◌+◌, ◌*◌, ◌/◌, ◌%◌, Bool, true, false, ◌&&◌, not, Option, none, some, List, [], ◌∷◌,
  ◌++◌, ◌==◌, if◌then◌else◌, Bytes, bytes_eq, get_elem?, length, map, replicate, take, drop,
}
use mathlib.Core.List.{reverse}
use augecoin.Crypto.{Crypto}
use augecoin.Core.Operation.{AddressHash}

-- `BASE58`
abbrev pub alphabet : Bytes
alphabet =
    49 ∷ 50 ∷ 51 ∷ 52 ∷ 53 ∷ 54 ∷ 55 ∷ 56 ∷ 57 ∷ 65 ∷ 66 ∷ 67 ∷ 68 ∷ 69 ∷ 70 ∷ 71 ∷ 72 ∷ 74 ∷ 75
    ∷ 76 ∷ 77 ∷ 78 ∷ 80 ∷ 81 ∷ 82 ∷ 83 ∷ 84 ∷ 85 ∷ 86 ∷ 87 ∷ 88 ∷ 89 ∷ 90 ∷ 97 ∷ 98 ∷ 99 ∷ 100 ∷ 101
    ∷ 102 ∷ 103 ∷ 104 ∷ 105 ∷ 106 ∷ 107 ∷ 109 ∷ 110 ∷ 111 ∷ 112 ∷ 113 ∷ 114 ∷ 115 ∷ 116 ∷ 117 ∷ 118
    ∷ 119 ∷ 120 ∷ 121 ∷ 122 ∷ []

-- `while carry > 0`, on fuel: the carry is less in each round, so as many rounds as the carry are
-- enough.
unfoldable pub push_carry : ℕ → ℕ → ℕ → List ℕ
push_carry base zero carry = []
push_carry base (suc fuel) carry =
    let rest = push_carry base fuel (carry / base) in if carry == 0 then [] else carry % base ∷ rest

-- One round of the loops over the input: the digits, the lowest first, times a factor, plus a carry.
unfoldable pub scale : ℕ → ℕ → List ℕ → ℕ → List ℕ
unfolding push_carry
scale base factor [] carry = push_carry base carry carry
scale base factor (d ∷ ds) carry =
    (d * factor + carry) % base ∷ scale base factor ds ((d * factor + carry) / base)

-- The digits after a loop over digits of the base `factor`, the highest first.
unfoldable pub convert : ℕ → ℕ → List ℕ → List ℕ → List ℕ
unfolding scale
convert base factor ds [] = ds
convert base factor ds (x ∷ xs) = convert base factor (scale base factor ds x) xs

-- How many of the first elements are this one.
unfoldable pub leading : ℕ → List ℕ → ℕ
leading n [] = 0
leading n (x ∷ xs) = let rest = leading n xs in if x == n then suc rest else 0

-- The character of a digit; past the end, where the source panics, the first.
unfoldable pub character : ℕ → ℕ
character d = elim (get_elem? alphabet d) [ none ↦ 49 | some ch ↦ ch ]

unfoldable pub base58_encode : Bytes → Bytes
unfolding convert leading character
base58_encode bytes =
    replicate (leading 0 bytes) 49 ++ map character (reverse (convert 58 256 (0 ∷ []) bytes))

-- The position of a character, from a position on.
unfoldable pub digit_from : ℕ → List ℕ → ℕ → Option ℕ
digit_from i [] ch = none
digit_from i (x ∷ xs) ch = let rest = digit_from (suc i) xs ch in if x == ch then some i else rest

unfoldable pub digit_of : ℕ → Option ℕ
unfolding digit_from
digit_of ch = digit_from 0 alphabet ch

-- The loop over the characters.
unfoldable pub decode_from : List ℕ → Bytes → Option (List ℕ)
unfolding digit_of scale
decode_from bytes [] = some bytes
decode_from bytes (ch ∷ text) = elim (digit_of ch) [
  | none ↦ none
  | some d ↦ decode_from (scale 256 58 bytes d) text
]

unfoldable pub base58_decode : Bytes → Option Bytes
unfolding decode_from leading
base58_decode text = elim (decode_from (0 ∷ []) text) [
  | none ↦ none
  | some bytes ↦ some (reverse (bytes ++ replicate (leading 49 text) 0))
]

abbrev pub address_domain : Bytes
address_domain =
    65 ∷ 85 ∷ 71 ∷ 69 ∷ 67 ∷ 79 ∷ 73 ∷ 78 ∷ 45 ∷ 83 ∷ 72 ∷ 79 ∷ 82 ∷ 84 ∷ 45 ∷ 65 ∷ 68 ∷ 68 ∷ 82
    ∷ 69 ∷ 83 ∷ 83 ∷ 45 ∷ 86 ∷ 49 ∷ []

abbrev pub pubkey_suffix : Bytes
pubkey_suffix = 45 ∷ 80 ∷ 85 ∷ 66 ∷ 75 ∷ 69 ∷ 89 ∷ []

-- `AddressHash::from_public_key`
unfoldable pub address_of_key : Crypto → Bytes → AddressHash
address_of_key c key = record { hash = take 24 (c.blake3_512 key); public_key = some key }

module _ (c : Crypto) where
  unfoldable pub address_checksum : Bytes → Bytes
  address_checksum payload = take 4 (c.blake3_512 (address_domain ++ payload))

  unfoldable pub address_checksum_v2 : Bytes → Bytes
  address_checksum_v2 key = take 4 (c.blake3_512 (address_domain ++ (pubkey_suffix ++ key)))

  -- The bytes that an address is written with: the key or the hash, and the checksum of it.
  unfoldable pub address_bytes : AddressHash → Bytes
  unfolding address_checksum address_checksum_v2
  address_bytes a = elim a.public_key [
    | some key ↦ key ++ address_checksum_v2 key
    | none ↦ a.hash ++ address_checksum a.hash
  ]

  unfoldable pub to_address : AddressHash → Bytes
  unfolding address_bytes base58_encode
  to_address a = base58_encode (address_bytes a)

  -- The two forms that `parse` tells apart by their lengths.
  unfoldable pub parse_bytes : Bytes → Option AddressHash
  unfolding address_checksum address_checksum_v2 address_of_key bytes_eq
  parse_bytes bytes =
      if length bytes == 36
      then (if c.valid_key (take 32 bytes)
            && bytes_eq (drop 32 bytes) (address_checksum_v2 (take 32 bytes))
          then some (address_of_key c (take 32 bytes))
          else none)
      else if not (length bytes == 28)
      then none
      else if not (bytes_eq (drop 24 bytes) (address_checksum (take 24 bytes)))
      then none
      else some (record { hash = take 24 bytes; public_key = none })

  unfoldable pub parse : Bytes → Option AddressHash
  unfolding base58_decode parse_bytes
  parse text = elim (base58_decode text) [ none ↦ none | some bytes ↦ parse_bytes bytes ]

  unfoldable pub validate_address : Bytes → Bool
  unfolding parse
  validate_address text = elim (parse text) [ none ↦ false | some a ↦ true ]

  -- `==` on addresses looks at the hash alone.
  unfoldable pub from_address : Bytes → Bytes → Option AddressHash
  unfolding parse bytes_eq address_of_key
  from_address text key = elim (parse text) [
    | none ↦ none
    | some expected ↦
        if bytes_eq expected.hash (address_of_key c key).hash then some expected else none
  ]

  unfoldable pub derive_address : Bytes → Bytes
  unfolding address_checksum base58_encode
  derive_address key =
      let payload = take 24 (c.blake3_512 key) in
      base58_encode (payload ++ address_checksum payload)

  unfoldable pub derive_embedded_address : Bytes → Bytes
  unfolding to_address address_of_key
  derive_embedded_address key = to_address (address_of_key c key)
