-- ===== src/Core/Address/RoundTrip.antt =====
-- crates/augecoin-crypto/src/address.rs: `AddressHash::parse` after `to_address`.
use augecoin.Base.{
  ℕ, zero, suc, ◌≤◌, ◌<◌, ◌≡◌, refl, sym, subst, ap, ◌∙◌, true, Option, none, some, [], ◌∷◌, ◌++◌,
  Bytes, bytes_eq_refl, length, length-append, take, drop, drop-append, All, arith,
}
use augecoin.Crypto.{Crypto}
use augecoin.Core.Operation.{AddressHash}
use augecoin.Core.Address.{
  address_checksum, address_checksum_v2, address_of_key, address_domain, pubkey_suffix,
  address_bytes, to_address, parse_bytes, parse,
}
use augecoin.Core.Address.Base58.{HasByte, base58_decode-encode}

take-append : (xs ys : Bytes) → take (length xs) (xs ++ ys) ≡ xs
take-append [] ys = refl
take-append (x ∷ xs) ys = cc (take-append xs ys)

length-take : (n : ℕ) (xs : Bytes) → n ≤ length xs → length (take n xs) ≡ n
length-take zero xs h = refl
length-take (suc n) [] h = absurd (omega (arith, h))
length-take (suc n) (x ∷ xs) h = omega (arith, length-take n xs (omega (arith, h)))

module _ (c : Crypto) (long : (x : Bytes) → length (c.blake3_512 x) ≡ 64) where
  -- The key is one and has the hash, or there is only a hash.
  abbrev pub IsDerived : AddressHash → Option Bytes → Type 0
  IsDerived a none = length a.hash ≡ 24
  IsDerived a (some key) =
      (length key ≡ 32) × ((c.valid_key key ≡ true) × (a.hash ≡ take 24 (c.blake3_512 key)))

  -- What `parse` takes from the bytes, of either length.
  key_read :
      (bytes key : Bytes)
      → length bytes ≡ 36
      → take 32 bytes ≡ key
      → drop 32 bytes ≡ address_checksum_v2 c key
      → c.valid_key key ≡ true
      → parse_bytes c bytes ≡ some (address_of_key c key)
  unfolding parse_bytes address_checksum_v2 address_of_key
  key_read bytes key e t d valid =
      rw (parse_bytes, e, d, t, valid, bytes_eq_refl (address_checksum_v2 c key)) refl

  hash_read :
      (bytes hash : Bytes)
      → length bytes ≡ 28
      → take 24 bytes ≡ hash
      → drop 24 bytes ≡ address_checksum c hash
      → parse_bytes c bytes ≡ some (record { hash = hash; public_key = none })
  unfolding parse_bytes address_checksum
  hash_read bytes hash e t d =
      rw (parse_bytes, e, d, t, bytes_eq_refl (address_checksum c hash)) refl

  checksum_v2-length : (key : Bytes) → length (address_checksum_v2 c key) ≡ 4
  unfolding address_checksum_v2
  checksum_v2-length key =
      length-take 4 (c.blake3_512 (address_domain ++ (pubkey_suffix ++ key)))
        (omega (arith, long (address_domain ++ (pubkey_suffix ++ key))))

  checksum-length : (hash : Bytes) → length (address_checksum c hash) ≡ 4
  unfolding address_checksum
  checksum-length hash =
      length-take 4 (c.blake3_512 (address_domain ++ hash))
        (omega (arith, long (address_domain ++ hash)))

  address_read :
      (a : AddressHash) → IsDerived a a.public_key → parse_bytes c (address_bytes c a) ≡ some a
  unfolding address_bytes address_of_key
  address_read a h = read a.hash a.public_key h
    where
      read :
          (hash : Bytes) (key : Option Bytes)
          → IsDerived (record { hash = hash; public_key = key }) key
          → parse_bytes c (address_bytes c (record { hash = hash; public_key = key }))
            ≡ some (record { hash = hash; public_key = key })
      read hash none e =
          let sum = address_checksum c hash in
          hash_read (hash ++ sum) hash
            (omega (arith, length-append {0} hash sum, e, checksum-length hash))
            (subst (λ n. take n (hash ++ sum) ≡ hash) e (take-append hash sum))
            (subst (λ n. drop n (hash ++ sum) ≡ sum) e (drop-append hash sum))
      read hash (some key) (e, (valid, same)) =
          let sum = address_checksum_v2 c key in
          key_read (key ++ sum) key
            (omega (arith, length-append {0} key sum, e, checksum_v2-length key))
            (subst (λ n. take n (key ++ sum) ≡ key) e (take-append key sum))
            (subst (λ n. drop n (key ++ sum) ≡ sum) e (drop-append key sum)) valid
          ∙ ap (λ h. some (record { hash = h; public_key = some key })) (sym same)

  -- Parsing the text of an address gives the address: where it has a key that is one and its hash is
  -- that of the key, or it has no key and a hash of 24 bytes, where the bytes that are written are
  -- bytes, not all of them 0, and the hash function gives 64 bytes.
  pub parse-to_address :
      (a : AddressHash)
      → IsDerived a a.public_key
      → All (λ d. d < 256) (address_bytes c a)
      → HasByte (address_bytes c a)
      → parse c (to_address c a) ≡ some a
  unfolding parse to_address
  parse-to_address a derived small some_byte =
      rw (parse, base58_decode-encode (address_bytes c a) small some_byte) (address_read a derived)
