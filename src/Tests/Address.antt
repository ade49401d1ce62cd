-- ===== src/Tests/Address.antt =====
-- The theorem on the texts of addresses at a concrete input.
use augecoin.Base.{
  ◌<◌, ◌≡◌, refl, false, some, [], ◌∷◌, Bytes, leb, any, replicate, take, All, arith, inl,
}
use augecoin.Core.Operation.{AddressHash}
use augecoin.Core.Address.{address_bytes, to_address, parse}
use augecoin.Core.Address.RoundTrip.{parse-to_address}
use augecoin.Tests.Data.{toy, toy_hash}

below : (xs : Bytes) → any (λ d. leb 256 d) xs ≡ false → All (λ d. d < 256) xs
below [] h = tt
below (x ∷ xs) h = (ground (arith, h), below xs (ground (arith, h)))

abbrev key : Bytes
key = replicate 32 9

abbrev address : AddressHash
address = record { hash = take 24 (toy_hash key); public_key = some key }

parse-to_address_example : parse toy (to_address toy address) ≡ some address
unfolding address_bytes
parse-to_address_example =
    parse-to_address toy (λ x. refl) address (refl, (refl, refl))
      (below (address_bytes toy address) refl) (inl (omega arith))
