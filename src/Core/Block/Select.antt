-- ===== src/Core/Block/Select.antt =====
-- crates/augecoin-core/src/block.rs, `block_serialized_size` and `select_block_operations`: the
-- operations that fit into a block.
use augecoin.Base.{
  ℕ, ◌+◌, ◌*◌, ◌≤◌, ◌<◌, ◌≡◌, inl, inr, refl, ap, List, [], ◌∷◌, ◌++◌, ltb, if◌then◌else◌, length,
  arith, Bool-cases, ltb→lt,
}
use augecoin.Core.Operation.{Operation}
use augecoin.Core.Codec.Write.{operation_to_bytes}
use augecoin.Core.Block.{OperationBlockHeader}
use augecoin.Core.Block.Hash.{header_to_bytes}

abbrev pub ed25519_sig_len : ℕ
ed25519_sig_len = 64

-- The length prefix and the bytes of an operation.
unfoldable pub contribution : Operation → ℕ
unfolding operation_to_bytes
contribution op = 4 + length (operation_to_bytes op)

unfoldable pub contributions : List Operation → ℕ
unfolding contribution
contributions [] = 0
contributions (op ∷ ops) = contribution op + contributions ops

unfoldable pub block_serialized_size : OperationBlockHeader → List Operation → ℕ → ℕ
unfolding contributions header_to_bytes
block_serialized_size header operations quorum_sig_count =
    length (header_to_bytes header)
    + 4
    + contributions operations
    + ed25519_sig_len
    + 4
    + quorum_sig_count * ed25519_sig_len

-- The loop over the pending operations, from the size so far.
unfoldable pub select_from : ℕ → ℕ → List Operation → List Operation × ℕ
unfolding contribution
select_from max_size size [] = ([], size)
select_from max_size size (op ∷ ops) =
    let (selected, total) = select_from max_size (size + contribution op) ops in
    if ltb max_size (size + contribution op) then ([], size) else (op ∷ selected, total)

unfoldable pub select_block_operations :
    OperationBlockHeader → List Operation → ℕ → ℕ → List Operation × ℕ
unfolding block_serialized_size select_from
select_block_operations header pending quorum_sig_count max_size =
    select_from max_size (block_serialized_size header [] quorum_sig_count) pending

-- The rest of the pending operations is empty, or its first one does not fit.
abbrev pub IsFull : ℕ → ℕ → List Operation → Type 0
IsFull max_size size [] = Unit
IsFull max_size size (op ∷ ops) = max_size < size + contribution op

-- What the selection has: a prefix of the pending operations, its size, within the limit, and no
-- room for the next one.
pub record IsSelection (max_size start : ℕ) (pending : List Operation) (r : List Operation × ℕ)
    : Type 0 where
  pub rest : List Operation
  pub prefix : pending ≡ r.0 ++ rest
  pub size : r.1 ≡ start + contributions r.0
  pub fits : start ≤ max_size → r.1 ≤ max_size
  pub full : IsFull max_size r.1 rest

select_from-IsSelection :
    (max_size size : ℕ) (pending : List Operation)
    → IsSelection max_size size pending (select_from max_size size pending)
unfolding select_from contributions
select_from-IsSelection max_size size [] = record {
  rest = [];
  prefix = refl;
  size = omega arith;
  fits = λ h. h;
  full = tt;
}
select_from-IsSelection max_size size (op ∷ ops) =
    elim (Bool-cases (ltb max_size (size + contribution op))) [
      | inl over ↦ rw over (record {
        rest = op ∷ ops;
        prefix = refl;
        size = omega arith;
        fits = λ h. h;
        full = ltb→lt max_size (size + contribution op) over;
      })
      | inr room ↦
          let more = select_from-IsSelection max_size (size + contribution op) ops in
          rw room (record {
            rest = more.rest;
            prefix = ap (λ l. op ∷ l) more.prefix;
            size = omega (arith, more.size);
            fits = λ _. more.fits (ground (arith, room));
            full = more.full;
          })
    ]

-- The selection of a block's operations is the longest prefix of the pending ones that fits: the
-- returned size is the size of the block with them, it is within the limit where the empty block is,
-- and the next pending operation would exceed the limit.
pub select_block_operations-IsSelection :
    (header : OperationBlockHeader) (pending : List Operation) (quorum_sig_count max_size : ℕ)
    → let r = select_block_operations header pending quorum_sig_count max_size in
      IsSelection max_size (block_serialized_size header [] quorum_sig_count) pending r
      × (r.1 ≡ block_serialized_size header r.0 quorum_sig_count)
unfolding select_block_operations block_serialized_size contributions
select_block_operations-IsSelection header pending n max_size =
    let start = block_serialized_size header [] n in
    let s = select_from-IsSelection max_size start pending in (s, omega (arith, s.size))
