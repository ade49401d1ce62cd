-- ===== src/Core/Proposal/RoundTrip.antt =====
-- crates/augecoin-core/src/proposal.rs: the messages are read back as they were written.
use augecoin.Base.{
  ℕ, Bool, true, false, ◌≤◌, ◌<◌, ◌≡◌, refl, sym, subst, List, [], ◌∷◌, ◌++◌, Bytes, length, arith,
  All, ok, u32_mod, u64_mod,
}
use mathlib.Core.Path.{fun_ext}
use mathlib.Core.List.{append_assoc, append-nil}
use augecoin.Core.Operation.{Operation}
use augecoin.Core.Codec.Write.{write_u64, write_list}
use augecoin.Core.Codec.Reader.{Reader, ◌>>=◌}
use augecoin.Core.Codec.Reads.{
  Reads, Reads_alone, bind-Reads, end-Reads, last-Reads, silent-Reads, times-Reads, fixed-Reads,
  u32-Reads, u64-Reads,
}
use augecoin.Core.Codec.Framed.{FitsFramed, write_operations, count-Reads, operations-Reads}
use augecoin.Core.Block.{OperationBlockHeader}
use augecoin.Core.Block.Hash.{header_to_bytes}
use augecoin.Core.Block.Codec.{header_from_bytes}
use augecoin.Core.Block.RoundTrip.{FitsHeader, header_from_bytes-append}
use augecoin.Core.Proposal.{
  TxHash, Compressor, ProposalError, unexpected_eof, header_exceeds_payload,
  hash_count_exceeds_maximum, response_exceeds_payload, operation_exceeds_payload,
  operation_count_exceeds_maximum, invalid_operation, ProposalMessage, GetTransactions,
  TransactionsResponse, write_hash, flag, read_fixed, read_hashes, parse_header, read_proposal,
  proposal_to_bytes, proposal_from_bytes, request_to_bytes, flag_at, read_request_head,
  request_from_bytes, decode_operations, pack, response_to_bytes, read_flag, compress, decompress,
  unpack, read_response, response_from_bytes,
}

-- A list of hashes within the limit of the reader.
pub record FitsHashes (hashes : List TxHash) : Type 0 where
  pub count : length hashes ≤ 25000
  pub each : All (λ h. length h ≡ 64) hashes

pub record FitsProposal (p : ProposalMessage) : Type 0 where
  pub header : FitsHeader p.header
  pub short : length (header_to_bytes p.header) < u32_mod
  pub root : length p.merkle_root ≡ 64
  pub hashes : FitsHashes p.tx_hashes
  pub signature : length p.leader_signature ≡ 64

bytes : (n : ℕ) (xs : Bytes) → length xs ≡ n → Reads (read_fixed n) xs xs
bytes = fixed-Reads unexpected_eof

hashes-Reads :
    (hashes : List TxHash)
    → FitsHashes hashes
    → Reads read_hashes (write_list write_hash hashes) hashes
unfolding read_hashes write_list
hashes-Reads hashes fits =
    bind-Reads _
      (count-Reads unexpected_eof unexpected_eof hash_count_exceeds_maximum invalid_operation 25000
        (length hashes) fits.count (omega arith))
      (times-Reads _ write_hash (λ h. length h ≡ 64) (bytes 64) hashes fits.each)

header_alone :
    (h : OperationBlockHeader) → FitsHeader h → header_from_bytes (header_to_bytes h) ≡ ok h
header_alone h fits =
    subst (λ input. header_from_bytes input ≡ ok h) (append-nil (header_to_bytes h))
      (header_from_bytes-append h [] fits)

proposal-Reads :
    (p : ProposalMessage) → FitsProposal p → Reads read_proposal (proposal_to_bytes p) p
unfolding read_proposal proposal_to_bytes
proposal-Reads p fits =
    bind-Reads _ (u32-Reads unexpected_eof (length (header_to_bytes p.header)) fits.short) (
      bind-Reads _
        (fixed-Reads header_exceeds_payload (length (header_to_bytes p.header))
          (header_to_bytes p.header) refl)
        (silent-Reads (parse_header (header_to_bytes p.header)) _ p.header
          (rw (parse_header, header_alone p.header fits.header) refl)
          (bind-Reads _ (bytes 64 p.merkle_root fits.root) (
            bind-Reads _ (hashes-Reads p.tx_hashes fits.hashes)
              (last-Reads _ (bytes 64 p.leader_signature fits.signature))))))

-- Reading back the bytes of a light proposal gives the proposal, where its header can be read back,
-- it has at most 25000 hashes, and hashes and signature have 64 bytes.
pub proposal_from_bytes-to_bytes :
    (p : ProposalMessage) (rest : Bytes)
    → FitsProposal p
    → proposal_from_bytes (proposal_to_bytes p ++ rest) ≡ ok p
unfolding proposal_from_bytes
proposal_from_bytes-to_bytes p rest fits =
    rw (proposal_from_bytes, (proposal-Reads p fits).apply rest) refl

-- A flag that was written is the flag that is read.
flag_at-flag : (b : Bool) → flag_at (flag b ∷ []) ≡ b
unfolding flag_at
flag_at-flag true = refl
flag_at-flag false = refl

request_head-Reads :
    (r : GetTransactions)
    → r.height < u64_mod
    → FitsHashes r.hashes
    → Reads read_request_head
        (write_u64 r.height ++ write_list write_hash r.hashes)
        (r.height, r.hashes)
unfolding read_request_head
request_head-Reads r high fits =
    bind-Reads _ (u64-Reads unexpected_eof r.height high)
      (last-Reads _ (hashes-Reads r.hashes fits))

-- Reading back the bytes of a request gives the request.
pub request_from_bytes-to_bytes :
    (r : GetTransactions)
    → r.height < u64_mod
    → FitsHashes r.hashes
    → request_from_bytes (request_to_bytes r) ≡ ok r
unfolding request_from_bytes request_to_bytes
request_from_bytes-to_bytes r high fits =
    rw
      (
        sym (
            append_assoc (write_u64 r.height) (write_list write_hash r.hashes)
              (flag r.supports_compression ∷ [])),
        request_from_bytes,
        (request_head-Reads r high fits).apply (flag r.supports_compression ∷ []),
        flag_at-flag r.supports_compression,
      )
      refl

decode_operations-write :
    (ops : List Operation)
    → length ops ≤ 25000
    → All FitsFramed ops
    → decode_operations (write_operations ops) ≡ ok ops
unfolding decode_operations
decode_operations-write ops short fits =
    rw
      (
        decode_operations,
        Reads_alone (
            operations-Reads unexpected_eof operation_exceeds_payload
              operation_count_exceeds_maximum invalid_operation 25000 ops (omega arith) short fits),
      )
      refl

flag-Reads :
    {A : Type 0} (b : Bool) (f : Bool → Reader ProposalError A) {v : Bytes} {a : A}
    → Reads (f b) v a
    → Reads (read_flag >>= f) (flag b ∷ v) a
unfolding read_flag ◌>>=◌
flag-Reads true f behind = record { apply = λ rest. behind.apply rest }
flag-Reads false f behind = record { apply = λ rest. behind.apply rest }

-- What is compressed can be, and fits the capacity with which it is decompressed.
abbrev FitsCapacity : Compressor → Bool → List Operation → Type 0
FitsCapacity z true ops =
    (length (write_operations ops) ≤ z.max_transmit_size)
    × ((y : Bytes) × (z.bulk_compress (write_operations ops) ≡ ok y))
FitsCapacity z false ops = Unit

pub record FitsResponse (z : Compressor) (r : TransactionsResponse) : Type 0 where
  pub high : r.height < u64_mod
  pub count : length r.transactions ≤ 25000
  pub each : All FitsFramed r.transactions
  pub short : length (pack z r.compressed r.transactions) < u32_mod
  pub fits : FitsCapacity z r.compressed r.transactions

-- Decompression undoes a compression that succeeded, where the data fit the capacity.
abbrev pub Restores : Compressor → Type 0
Restores z =
    (x y : Bytes)
    → z.bulk_compress x ≡ ok y
    → length x ≤ z.max_transmit_size
    → z.bulk_decompress y z.max_transmit_size ≡ ok x

module _ (z : Compressor) (inverse : Restores z) where
  unpack-pack :
      (compressed : Bool) (ops : List Operation) (left : Bytes)
      → length ops ≤ 25000
      → All FitsFramed ops
      → FitsCapacity z compressed ops
      → unpack z compressed (pack z compressed ops) left ≡ ok (ops, left)
  unfolding unpack pack
  unpack-pack false ops left short fits c = rw (unpack, decode_operations-write ops short fits) refl
  unpack-pack true ops left short fits (small, (y, done)) =
      rw
        (
          unpack,
          compress,
          done,
          decompress,
          inverse (write_operations ops) y done small,
          decode_operations-write ops short fits,
        )
        refl

  response-Reads :
      (r : TransactionsResponse)
      → FitsResponse z r
      → Reads (read_response z) (response_to_bytes z r) r
  unfolding read_response response_to_bytes ◌>>=◌
  response-Reads r fits = bind-Reads _ (u64-Reads unexpected_eof r.height fits.high) (
      flag-Reads r.compressed _ (
        bind-Reads _ (u32-Reads unexpected_eof (length payload) fits.short) (
          end-Reads _ (fixed-Reads response_exceeds_payload (length payload) payload refl) (
            fun_ext (λ left.
              rw
                (◌>>=◌, unpack-pack r.compressed r.transactions left fits.count fits.each fits.fits)
                refl)))))
    where
      payload : Bytes
      payload = pack z r.compressed r.transactions

  -- Reading back the bytes of a response gives the response, compressed or not, where decompression
  -- undoes a compression of data of at most max_transmit_size bytes, the operations of a compressed
  -- response have at most that size and are compressed without failure, it has at most 25000 operations that can be read back, and what it packs is
  -- shorter than 2^32 bytes.
  pub response_from_bytes-to_bytes :
      (r : TransactionsResponse) (rest : Bytes)
      → FitsResponse z r
      → response_from_bytes z (response_to_bytes z r ++ rest) ≡ ok r
  unfolding response_from_bytes
  response_from_bytes-to_bytes r rest fits =
      rw (response_from_bytes, (response-Reads r fits).apply rest) refl
