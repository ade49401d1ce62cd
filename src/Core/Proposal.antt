-- ===== src/Core/Proposal.antt =====
-- crates/augecoin-core/src/proposal.rs: the light proposal of a block, the request for the operations
-- that a validator does not have, the answer, and the block that is put together from them. zstd is
-- the record `Compressor`.
pub mod RoundTrip
use augecoin.Base.{
  ℕ, Bool, true, false, not, List, [], ◌∷◌, ◌++◌, ◌==◌, Bytes, length, map, Result, ok, err,
}
use augecoin.Crypto.{Crypto}
use augecoin.Core.Operation.{Signature, Operation}
use augecoin.Core.Codec.Write.{write_u64, write_u32, write_list}
use augecoin.Core.Codec.Reader
use augecoin.Core.Codec.Reader.{Reader, ◌>>=◌, pure, fail, read_times}
use augecoin.Core.Codec.Read.{OperationError}
use augecoin.Core.Codec.Framed.{write_operations, read_operations, read_count}
use augecoin.Core.Merkle.{merkle_root}
use augecoin.Core.Block.{OperationBlockHeader, OperationBlock}
use augecoin.Core.Block.Hash.{header_to_bytes, op_hash}
use augecoin.Core.Block.Codec.{BlockError, header_from_bytes}

abbrev pub TxHash : Type 0
TxHash = Bytes

-- `zstd::bulk::compress` at level 3, `zstd::bulk::decompress` with the size that the output has at
-- most, and `limits::max_transmit_size()`, which is read from the environment and is 2 MiB by default
pub record Compressor : Type 0 where
  pub bulk_compress : Bytes → Result Bytes Bytes
  pub bulk_decompress : Bytes → ℕ → Result Bytes Bytes
  pub max_transmit_size : ℕ

pub data ProposalError : Type 0 where
  unexpected_eof header_exceeds_payload hash_count_exceeds_maximum : ProposalError
  response_exceeds_payload operation_exceeds_payload operation_count_exceeds_maximum : ProposalError
  invalid_header : BlockError → ProposalError
  invalid_operation : OperationError → ProposalError
  corrupt : Bytes → ProposalError

unfoldable pub merkle_root_of_operations : Crypto → List Operation → TxHash
unfolding merkle_root op_hash
merkle_root_of_operations c ops = merkle_root c.blake3_512 (map (op_hash c) ops)

pub record ProposalMessage : Type 0 where
  pub header : OperationBlockHeader
  pub merkle_root : TxHash
  pub tx_hashes : List TxHash
  pub leader_signature : Signature

pub record GetTransactions : Type 0 where
  pub height : ℕ
  pub hashes : List TxHash
  pub supports_compression : Bool

pub record TransactionsResponse : Type 0 where
  pub height : ℕ
  pub transactions : List Operation
  pub compressed : Bool

abbrev Read : Type 0 → Type 0
Read A = Reader ProposalError A

abbrev pub read_u64 : Read ℕ
read_u64 = Reader.read_u64 unexpected_eof

abbrev pub read_u32 : Read ℕ
read_u32 = Reader.read_u32 unexpected_eof

abbrev pub read_fixed : ℕ → Read Bytes
read_fixed = Reader.read_fixed unexpected_eof

abbrev pub write_hash : TxHash → Bytes
write_hash h = h

unfoldable pub proposal_to_bytes : ProposalMessage → Bytes
unfolding write_u32 write_list header_to_bytes
proposal_to_bytes p =
    write_u32 (length (header_to_bytes p.header))
    ++ (header_to_bytes p.header
        ++ (p.merkle_root ++ (write_list write_hash p.tx_hashes ++ p.leader_signature)))

-- The bytes of the header, read by themselves.
unfoldable pub parse_header : Bytes → Read OperationBlockHeader
unfolding header_from_bytes pure fail
parse_header bytes = elim (header_from_bytes bytes) [
  | err e ↦ fail (invalid_header e)
  | ok h ↦ pure h
]

-- a count of at most 25000, then the hashes
unfoldable pub read_hashes : Read (List TxHash)
unfolding ◌>>=◌ read_count read_times Reader.read_fixed
read_hashes = do
  n ← read_count unexpected_eof unexpected_eof hash_count_exceeds_maximum invalid_operation 25000
  read_times n (read_fixed 64)

unfoldable pub read_proposal : Read ProposalMessage
unfolding ◌>>=◌ pure parse_header read_hashes Reader.read_u32 Reader.read_fixed
read_proposal = do
  len ← read_u32
  bytes ← Reader.read_fixed header_exceeds_payload len
  header ← parse_header bytes
  root ← read_fixed 64
  hashes ← read_hashes
  signature ← read_fixed 64
  pure (record {
    header = header;
    merkle_root = root;
    tx_hashes = hashes;
    leader_signature = signature;
  })

unfoldable pub proposal_from_bytes : Bytes → Result ProposalError ProposalMessage
unfolding read_proposal
proposal_from_bytes input = elim (read_proposal input) [ ok (p, rest) ↦ ok p | err e ↦ err e ]

-- `x as u8`
abbrev pub flag : Bool → ℕ
flag true = 1
flag false = 0

-- `data.get(pos).copied().unwrap_or(0) != 0`: a missing byte is a false flag.
unfoldable pub flag_at : Bytes → Bool
flag_at [] = false
flag_at (b ∷ rest) = not (b == 0)

unfoldable pub request_to_bytes : GetTransactions → Bytes
unfolding write_u64 write_list
request_to_bytes r =
    write_u64 r.height ++ (write_list write_hash r.hashes ++ (flag r.supports_compression ∷ []))

unfoldable pub read_request_head : Read (ℕ × List TxHash)
unfolding ◌>>=◌ pure read_hashes Reader.read_u64
read_request_head = do height ← read_u64; hashes ← read_hashes; pure (height, hashes)

unfoldable pub request_from_bytes : Bytes → Result ProposalError GetTransactions
unfolding read_request_head flag_at
request_from_bytes input = elim (read_request_head input) [
  | ok ((height, hashes), left) ↦
      ok (record { height = height; hashes = hashes; supports_compression = flag_at left })
  | err e ↦ err e
]

unfoldable pub decode_operations : Bytes → Result ProposalError (List Operation)
unfolding read_operations
decode_operations input =
    elim (read_operations unexpected_eof operation_exceeds_payload operation_count_exceeds_maximum
      invalid_operation 25000 input) [ ok (ops, rest) ↦ ok ops | err e ↦ err e ]

-- A byte that may be missing, where the length behind it is then missing too.
unfoldable pub read_flag : Read Bool
read_flag [] = ok (false, [])
read_flag (b ∷ rest) = ok (not (b == 0), rest)

module _ (z : Compressor) where
  -- Where the compression fails, the data as they are.
  unfoldable pub compress : Bytes → Bytes
  compress input = elim (z.bulk_compress input) [ err e ↦ input | ok x ↦ x ]

  unfoldable pub decompress : Bytes → Result Bytes Bytes
  decompress input = z.bulk_decompress input z.max_transmit_size

  unfoldable pub pack : Bool → List Operation → Bytes
  unfolding write_operations compress
  pack true ops = compress (write_operations ops)
  pack false ops = write_operations ops

  unfoldable pub response_to_bytes : TransactionsResponse → Bytes
  unfolding pack write_u64 write_u32
  response_to_bytes r =
      let payload = pack r.compressed r.transactions in
      write_u64 r.height ++ (flag r.compressed ∷ (write_u32 (length payload) ++ payload))

  unfoldable pub unpack : Bool → Bytes → Read (List Operation)
  unfolding decode_operations fail decompress
  unpack false raw left = elim (decode_operations raw) [ ok ops ↦ ok (ops, left) | err e ↦ err e ]
  unpack true raw left = elim (decompress raw) [
    | err e ↦ err (corrupt e)
    | ok payload ↦ elim (decode_operations payload) [ ok ops ↦ ok (ops, left) | err e ↦ err e ]
  ]

  unfoldable pub read_response : Read TransactionsResponse
  unfolding ◌>>=◌ pure read_flag unpack Reader.read_u64 Reader.read_u32 Reader.read_fixed
  read_response = do
    height ← read_u64
    compressed ← read_flag
    len ← read_u32
    raw ← Reader.read_fixed response_exceeds_payload len
    transactions ← unpack compressed raw
    pure (record { height = height; transactions = transactions; compressed = compressed })

  unfoldable pub response_from_bytes : Bytes → Result ProposalError TransactionsResponse
  unfolding read_response
  response_from_bytes input = elim (read_response input) [ ok (r, rest) ↦ ok r | err e ↦ err e ]

unfoldable pub reconstruct_block :
    Crypto → OperationBlockHeader → List Operation → Signature → OperationBlock
unfolding header_to_bytes
reconstruct_block c header operations leader_signature = record {
  header = header;
  operations = operations;
  leader_signature = leader_signature;
  quorum_signatures = [];
  block_hash = c.blake3_512 (header_to_bytes header);
}
