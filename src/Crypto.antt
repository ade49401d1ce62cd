-- ===== src/Crypto.antt =====
-- What the program takes from `blake3` and `ed25519_dalek` (crates/augecoin-crypto wraps them):
-- the 64-byte hash, whether 32 bytes are a key (`VerifyingKey::from_bytes`), and whether a
-- signature of a message verifies under a key. A key that is accepted is written back as the same
-- bytes. No law is assumed of them here: a theorem that needs one has it as a hypothesis.
use augecoin.Base.{Bool, Bytes}

pub record Crypto : Type 0 where
  pub blake3_512 : Bytes → Bytes
  pub valid_key : Bytes → Bool
  -- key, signature, message
  pub verify : Bytes → Bytes → Bytes → Bool
