-- ===== src/Core/Block/RoundTrip.antt =====
-- crates/augecoin-core/src/block.rs: `OperationBlock::from_bytes` after `to_bytes`, and the size of
-- the byte form.
use augecoin.Base.{
  ℕ, ◌*◌, ◌≤◌, ◌<◌, ◌≡◌, refl, sym, subst, ok, List, [], ◌∷◌, ◌++◌, Bytes, length, arith, All, drop,
  drop-append, length-append, length-to_be_bytes, u16_mod, u64_mod,
}
use mathlib.Core.List.{append_assoc}
use native.Mathlib.Nat.{suc-mul}
use augecoin.Crypto.{Crypto}
use augecoin.Core.Operation.{Signature, Operation}
use augecoin.Core.Codec.Write.{write_u64, write_u32, write_list, write_each, operation_to_bytes}
use augecoin.Core.Codec.Reader.{read_u64, read_fixed}
use augecoin.Core.Codec.Reads.{
  Reads, bind-Reads, last-Reads, times-Reads, fixed-Reads, u16-Reads, u64-Reads,
}
use augecoin.Core.Codec.Framed.{
  FitsFramed, write_framed, write_operations, count-Reads, operations-Reads,
}
use augecoin.Core.Block.{OperationBlockHeader, OperationBlock}
use augecoin.Core.Block.Hash.{header_to_bytes}
use augecoin.Core.Block.Select.{contributions, block_serialized_size}
use augecoin.Core.Block.Codec.{
  unexpected_eof, quorum_sig_count_exceeds_maximum, invalid_op, read_chain_id, read_header,
  header_from_bytes, block_to_bytes, read_body, block_from_bytes,
}

pub record FitsHeader (h : OperationBlockHeader) : Type 0 where
  pub number : h.block_number < u64_mod
  pub key : length h.account_key ≡ 32
  pub reward : h.reward < u64_mod
  pub fee : h.fee < u64_mod
  pub version : h.protocol_version < u16_mod
  pub available : h.protocol_available < u16_mod
  pub timestamp : h.timestamp < u64_mod
  pub safe_box : length h.initial_safe_box_hash ≡ 64
  pub operations : length h.operations_hash ≡ 64
  pub payload : length h.block_payload < u16_mod
  pub proof : length h.proof_of_work ≡ 32
  pub previous : length h.previous_proof_of_work ≡ 32
  pub leader : h.leader_id < u64_mod
  pub chain : h.chain_id < u64_mod

pub record FitsBlock (b : OperationBlock) : Type 0 where
  pub header : FitsHeader b.header
  pub count : length b.operations ≤ 25000
  pub operations : All FitsFramed b.operations
  pub leader : length b.leader_signature ≡ 64
  pub quorum : length b.quorum_signatures ≤ 100
  pub signatures : All (λ sig. length sig ≡ 64) b.quorum_signatures

word : (v : ℕ) → v < u64_mod → Reads (read_u64 unexpected_eof) (write_u64 v) v
word = u64-Reads unexpected_eof

bytes : (n : ℕ) (xs : Bytes) → length xs ≡ n → Reads (read_fixed unexpected_eof n) xs xs
bytes = fixed-Reads unexpected_eof

chain_id-Reads : (v : ℕ) → v < u64_mod → Reads read_chain_id (write_u64 v) v
unfolding read_chain_id
chain_id-Reads v h = record { apply = λ rest. rw (read_chain_id, (word v h).apply rest) refl }

pub header-Reads :
    (h : OperationBlockHeader) → FitsHeader h → Reads read_header (header_to_bytes h) h
unfolding read_header header_to_bytes
header-Reads h fits = bind-Reads _ (word h.block_number fits.number) (
    bind-Reads _ (bytes 32 h.account_key fits.key) (
      bind-Reads _ (word h.reward fits.reward) (
        bind-Reads _ (word h.fee fits.fee) (
          bind-Reads _ (u16-Reads unexpected_eof h.protocol_version fits.version) (
            bind-Reads _ (u16-Reads unexpected_eof h.protocol_available fits.available) (
              bind-Reads _ (word h.timestamp fits.timestamp) (
                bind-Reads _ (bytes 64 h.initial_safe_box_hash fits.safe_box) (
                  bind-Reads _ (bytes 64 h.operations_hash fits.operations) (
                    bind-Reads _ (u16-Reads unexpected_eof (length h.block_payload) fits.payload) (
                      bind-Reads _ (bytes (length h.block_payload) h.block_payload refl) (
                        bind-Reads _ (bytes 32 h.proof_of_work fits.proof) (
                          bind-Reads _ (bytes 32 h.previous_proof_of_work fits.previous) (
                            bind-Reads _ (word h.leader_id fits.leader)
                              (last-Reads _ (chain_id-Reads h.chain_id fits.chain)))))))))))))))

pub header_from_bytes-append :
    (h : OperationBlockHeader) (rest : Bytes)
    → FitsHeader h
    → header_from_bytes (header_to_bytes h ++ rest) ≡ ok h
unfolding header_from_bytes
header_from_bytes-append h rest fits = rw (header_from_bytes, (header-Reads h fits).apply rest) refl

-- the bytes behind the header
abbrev pub body_bytes : OperationBlock → Bytes
body_bytes b =
    write_operations b.operations
    ++ (b.leader_signature ++ write_list (λ (sig : Signature). sig) b.quorum_signatures)

-- The block as it is read: its hash is computed from its header.
abbrev pub rehashed : Crypto → OperationBlock → OperationBlock
rehashed c b = record b { block_hash = c.blake3_512 (header_to_bytes b.header) }

body-Reads :
    (c : Crypto) (b : OperationBlock)
    → FitsBlock b
    → Reads (read_body c b.header) (body_bytes b) (rehashed c b)
unfolding read_body write_list
body-Reads c b fits =
    bind-Reads _
      (operations-Reads _ _ _ _ 25000 b.operations (omega arith) fits.count fits.operations)
      (bind-Reads _ (bytes 64 b.leader_signature fits.leader) (
        bind-Reads _
          (count-Reads unexpected_eof unexpected_eof quorum_sig_count_exceeds_maximum invalid_op 100
            (length b.quorum_signatures) fits.quorum (omega arith))
          (last-Reads _ (
            times-Reads _ (λ sig. sig) (λ sig. length sig ≡ 64) (bytes 64) b.quorum_signatures
              fits.signatures))))

pub length-write_each :
    {A : Type 0} (write : A → Bytes) (n : ℕ) (xs : List A)
    → All (λ x. length (write x) ≡ n) xs
    → length (write_each write xs) ≡ length xs * n
unfolding write_each
length-write_each write n [] h = omega arith
length-write_each write n (x ∷ xs) (h, hs) = omega (
  arith,
  length-append {0} (write x) (write_each write xs),
  length-write_each write n xs hs,
  suc-mul (length xs) n,
  h,
)

length-write_framed :
    (ops : List Operation) → length (write_each write_framed ops) ≡ contributions ops
unfolding write_each write_framed contributions
length-write_framed [] = refl
length-write_framed (op ∷ ops) = omega (
  arith,
  length-append {0} (write_framed op) (write_each write_framed ops),
  length-append {0} (write_u32 (length (operation_to_bytes op))) (operation_to_bytes op),
  length-to_be_bytes 4 (length (operation_to_bytes op)),
  length-write_framed ops,
)

-- `block_serialized_size` is the number of bytes that the block is written with, where the signatures
-- have 64 bytes.
pub block_serialized_size-length :
    (b : OperationBlock)
    → length b.leader_signature ≡ 64
    → All (λ sig. length sig ≡ 64) b.quorum_signatures
    → block_serialized_size b.header b.operations (length b.quorum_signatures)
      ≡ length (block_to_bytes b)
unfolding block_serialized_size block_to_bytes write_operations write_list
block_serialized_size-length b leader sigs =
    let ops = write_each write_framed b.operations in
    let signatures = write_each (λ (sig : Signature). sig) b.quorum_signatures in
    omega (
      arith,
      length-append {0} (header_to_bytes b.header) (body_bytes b),
      length-append {0} (write_operations b.operations)
          (b.leader_signature ++ write_list (λ (sig : Signature). sig) b.quorum_signatures),
      length-append {0} (write_u32 (length b.operations)) ops,
      length-append {0} b.leader_signature
          (write_list (λ (sig : Signature). sig) b.quorum_signatures),
      length-append {0} (write_u32 (length b.quorum_signatures)) signatures,
      length-to_be_bytes 4 (length b.operations),
      length-to_be_bytes 4 (length b.quorum_signatures),
      length-write_framed b.operations,
      length-write_each (λ (sig : Signature). sig) 64 b.quorum_signatures sigs,
      leader,
    )

pub parsed :
    (c : Crypto) (input : Bytes) (h : OperationBlockHeader) {behind rest : Bytes}
    {b : OperationBlock}
    → header_from_bytes input ≡ ok h
    → drop (length (header_to_bytes h)) input ≡ behind
    → read_body c h behind ≡ ok (b, rest)
    → block_from_bytes c input ≡ ok b
unfolding block_from_bytes
parsed c input h e d f = rw (block_from_bytes, e, d, f) refl

-- Reading back the bytes of a block gives the block, its hash computed anew, whatever bytes follow:
-- where its numbers fit their words, its keys, hashes and signatures have their lengths, it has at
-- most 25000 operations and 100 signatures of the quorum, and each operation can be read back and is
-- shorter than 2^32 bytes.
pub block_from_bytes-to_bytes :
    (c : Crypto) (b : OperationBlock) (rest : Bytes)
    → FitsBlock b
    → block_from_bytes c (block_to_bytes b ++ rest) ≡ ok (rehashed c b)
unfolding block_from_bytes block_to_bytes
block_from_bytes-to_bytes c b rest fits =
    subst (λ input. block_from_bytes c input ≡ ok (rehashed c b))
      (sym (append_assoc (header_to_bytes b.header) (body_bytes b) rest))
      (parsed c _ b.header (header_from_bytes-append b.header (body_bytes b ++ rest) fits.header)
        (drop-append (header_to_bytes b.header) (body_bytes b ++ rest))
        ((body-Reads c b fits).apply rest))
