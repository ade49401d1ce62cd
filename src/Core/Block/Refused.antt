-- ===== src/Core/Block/Refused.antt =====
-- crates/augecoin-core/src/block.rs: a block with more than 100 signatures of the quorum can be
-- written and not be read.
use augecoin.Base.{
  ◌≤◌, ◌<◌, ◌≡◌, refl, sym, subst, ok, err, ◌++◌, Bytes, length, arith, All, drop, drop-append,
  u32_mod,
}
use mathlib.Core.List.{append_assoc}
use augecoin.Crypto.{Crypto}
use augecoin.Core.Codec.Reads.{Refuses, bind-Refuses, first-Refuses, fixed-Reads}
use augecoin.Core.Codec.Write.{write_list}
use augecoin.Core.Codec.Framed.{FitsFramed, operations-Reads, count-Refuses}
use augecoin.Core.Block.{OperationBlockHeader, OperationBlock}
use augecoin.Core.Block.Hash.{header_to_bytes}
use augecoin.Core.Block.Codec.{
  BlockError, unexpected_eof, op_count_exceeds_maximum, quorum_sig_count_exceeds_maximum,
  invalid_op, header_from_bytes, block_to_bytes, read_body, block_from_bytes,
}
use augecoin.Core.Block.RoundTrip.{FitsHeader, body_bytes, header_from_bytes-append}

-- What a block has, up to its signatures of the quorum.
pub record FitsFront (b : OperationBlock) : Type 0 where
  pub header : FitsHeader b.header
  pub count : length b.operations ≤ 25000
  pub operations : All FitsFramed b.operations
  pub leader : length b.leader_signature ≡ 64

body-Refuses :
    (c : Crypto) (b : OperationBlock)
    → FitsFront b
    → 100 < length b.quorum_signatures
    → length b.quorum_signatures < u32_mod
    → Refuses (read_body c b.header) (body_bytes b) quorum_sig_count_exceeds_maximum
unfolding read_body write_list
body-Refuses c b fits many small =
    bind-Refuses _
      (operations-Reads unexpected_eof unexpected_eof op_count_exceeds_maximum invalid_op 25000
        b.operations (omega arith) fits.count fits.operations)
      (bind-Refuses _ (fixed-Reads unexpected_eof 64 b.leader_signature fits.leader) (
        first-Refuses _ _ (
          count-Refuses unexpected_eof unexpected_eof quorum_sig_count_exceeds_maximum invalid_op
            100 (length b.quorum_signatures) many small)))

refused :
    (c : Crypto) (input : Bytes) (h : OperationBlockHeader) {behind : Bytes} {e : BlockError}
    → header_from_bytes input ≡ ok h
    → drop (length (header_to_bytes h)) input ≡ behind
    → read_body c h behind ≡ err e
    → block_from_bytes c input ≡ err e
unfolding block_from_bytes
refused c input h e d f = rw (block_from_bytes, e, d, f) refl

-- The reader fails where the block has more than 100 signatures of the quorum.
pub block_from_bytes-many :
    (c : Crypto) (b : OperationBlock) (rest : Bytes)
    → FitsFront b
    → 100 < length b.quorum_signatures
    → length b.quorum_signatures < u32_mod
    → block_from_bytes c (block_to_bytes b ++ rest) ≡ err quorum_sig_count_exceeds_maximum
unfolding block_to_bytes
block_from_bytes-many c b rest fits many small =
    subst (λ input. block_from_bytes c input ≡ err quorum_sig_count_exceeds_maximum)
      (sym (append_assoc (header_to_bytes b.header) (body_bytes b) rest))
      (refused c _ b.header (header_from_bytes-append b.header (body_bytes b ++ rest) fits.header)
        (drop-append (header_to_bytes b.header) (body_bytes b ++ rest))
        ((body-Refuses c b fits many small).fails rest))
