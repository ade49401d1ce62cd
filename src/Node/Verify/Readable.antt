-- ===== src/Node/Verify/Readable.antt =====
-- crates/augecoin-node/src/execution.rs, `verify_block_quorum`, with the reader of crates/augecoin-core/
-- src/block.rs: an accepted block of a large validator set.
use augecoin.Base.{
  ℕ, ◌+◌, ◌≤◌, ◌<◌, ◌≡◌, Option, none, some, List, [], ◌∷◌, ◌++◌, Bytes, length, ok, err, arith,
  u32_mod, OnOk-use,
}
use augecoin.Crypto.{Crypto}
use augecoin.Core.Block.{OperationBlock}
use augecoin.Core.Block.Codec.{quorum_sig_count_exceeds_maximum, block_to_bytes, block_from_bytes}
use augecoin.Core.Block.Refused.{FitsFront, block_from_bytes-many}
use augecoin.Consensus.Validator.{ValidatorInfo, ValidatorSet, active_validators}
use augecoin.Consensus.Quorum.{quorum_threshold, insert_id, collect_by}
use augecoin.Node.Verify.{valid_validators, verify_block_quorum}
use augecoin.Node.Verify.Safety.{verify_block_quorum-IsAccepted}

length-insert_id : (i : ℕ) (ids : List ℕ) → length (insert_id i ids) ≤ 1 + length ids
unfolding insert_id
length-insert_id i ids = ground arith

-- There are no more signers than signatures.
length-collect_by :
    (pick : Bytes → Option ValidatorInfo) (sigs : List Bytes) (ids : List ℕ)
    → length (collect_by pick sigs ids) ≤ length sigs + length ids
unfolding collect_by
length-collect_by pick [] ids = omega arith
length-collect_by pick (sig ∷ sigs) ids =
    elim (pick sig)
      as (λ o.
        length (collect_by pick sigs (elim o [ none ↦ ids | some v ↦ insert_id v.id ids ]))
        ≤ length (sig ∷ sigs) + length ids) [
          | none ↦ omega (arith, length-collect_by pick sigs ids)
          | some v ↦
              omega
                (arith, length-collect_by pick sigs (insert_id v.id ids), length-insert_id v.id ids)
        ]

many : (n : ℕ) → 150 ≤ n → 100 < quorum_threshold n
unfolding quorum_threshold
many n h = ground (arith, h)

-- A block that `verify_block_quorum` accepts under a validator set with 150 active validators or more
-- is written, and its bytes are refused by the reader of blocks, whatever follows them: where its
-- header and operations can be written and read, and it has fewer than 2^32 signatures.
pub large_quorum_unreadable :
    (c : Crypto) (now : ℕ) (block : OperationBlock) (vs : ValidatorSet) (signers : ℕ) (rest : Bytes)
    → FitsFront block
    → length block.quorum_signatures < u32_mod
    → 150 ≤ length (active_validators vs)
    → verify_block_quorum c now block vs ≡ ok signers
    → block_from_bytes c (block_to_bytes block ++ rest) ≡ err quorum_sig_count_exceeds_maximum
unfolding valid_validators
large_quorum_unreadable c now block vs signers rest fits small large accepted =
    let a =
      OnOk-use _ (verify_block_quorum c now block vs)
        (verify_block_quorum-IsAccepted c now block vs) accepted in
    block_from_bytes-many c block rest fits
      (omega (
        arith,
        many (length (active_validators vs)) large,
        a.quorum,
        a.signers_counted,
        length-collect_by _ block.quorum_signatures [],
      ))
      small
