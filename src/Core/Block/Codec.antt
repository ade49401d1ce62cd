-- ===== src/Core/Block/Codec.antt =====
-- crates/augecoin-core/src/block.rs: the byte form of a block and its readers.
use augecoin.Base.{ℕ, ◌++◌, Bytes, length, drop, Result, ok, err}
use augecoin.Crypto.{Crypto}
use augecoin.Core.Operation.{Signature}
use augecoin.Core.Codec.Write.{write_list}
use augecoin.Core.Codec.Reader
use augecoin.Core.Codec.Reader.{Reader, ◌>>=◌, pure, read_times}
use augecoin.Core.Codec.Read.{OperationError}
use augecoin.Core.Codec.Framed.{write_operations, read_count, read_operations}
use augecoin.Core.Block.{OperationBlockHeader, OperationBlock}
use augecoin.Core.Block.Hash.{header_to_bytes}

pub data BlockError : Type 0 where
  unexpected_eof op_count_exceeds_maximum quorum_sig_count_exceeds_maximum : BlockError
  invalid_op : OperationError → BlockError

abbrev Read : Type 0 → Type 0
Read A = Reader BlockError A

abbrev read_u64 : Read ℕ
read_u64 = Reader.read_u64 unexpected_eof

abbrev read_u16 : Read ℕ
read_u16 = Reader.read_u16 unexpected_eof

abbrev read_fixed : ℕ → Read Bytes
read_fixed = Reader.read_fixed unexpected_eof

-- `read_u64(..).unwrap_or(1)`: the position stays where it is if the read fails.
unfoldable pub read_chain_id : Read ℕ
unfolding Reader.read_u64
read_chain_id left = elim (read_u64 left) [ ok r ↦ ok r | err e ↦ ok (1, left) ]

unfoldable pub read_header : Read OperationBlockHeader
unfolding ◌>>=◌ pure read_chain_id Reader.read_u64 Reader.read_u16 Reader.read_fixed
read_header = do
  block_number ← read_u64
  account_key ← read_fixed 32
  reward ← read_u64
  fee ← read_u64
  version ← read_u16
  available ← read_u16
  timestamp ← read_u64
  safe_box_hash ← read_fixed 64
  operations_hash ← read_fixed 64
  payload_len ← read_u16
  payload ← read_fixed payload_len
  proof ← read_fixed 32
  previous_proof ← read_fixed 32
  leader_id ← read_u64
  chain_id ← read_chain_id
  pure (record {
    block_number = block_number;
    account_key = account_key;
    reward = reward;
    fee = fee;
    protocol_version = version;
    protocol_available = available;
    timestamp = timestamp;
    initial_safe_box_hash = safe_box_hash;
    operations_hash = operations_hash;
    block_payload = payload;
    proof_of_work = proof;
    previous_proof_of_work = previous_proof;
    leader_id = leader_id;
    chain_id = chain_id;
  })

unfoldable pub header_from_bytes : Bytes → Result BlockError OperationBlockHeader
unfolding read_header
header_from_bytes input = elim (read_header input) [ ok (h, rest) ↦ ok h | err e ↦ err e ]

unfoldable pub block_to_bytes : OperationBlock → Bytes
unfolding header_to_bytes write_operations write_list
block_to_bytes b =
    header_to_bytes b.header
    ++ (write_operations b.operations
        ++ (b.leader_signature ++ write_list (λ (sig : Signature). sig) b.quorum_signatures))

-- What `OperationBlock::from_bytes` reads behind the header.
unfoldable pub read_body : Crypto → OperationBlockHeader → Read OperationBlock
unfolding ◌>>=◌ pure read_operations read_count read_times Reader.read_fixed header_to_bytes
read_body c header = do
  operations ←
      read_operations unexpected_eof unexpected_eof op_count_exceeds_maximum invalid_op 25000
  leader_signature ← read_fixed 64
  n ← read_count unexpected_eof unexpected_eof quorum_sig_count_exceeds_maximum invalid_op 100
  quorum_signatures ← read_times n (read_fixed 64)
  pure (record {
    header = header;
    operations = operations;
    leader_signature = leader_signature;
    quorum_signatures = quorum_signatures;
    block_hash = c.blake3_512 (header_to_bytes header);
  })

-- The operations begin behind as many bytes as the header has when it is written again.
unfoldable pub block_from_bytes : Crypto → Bytes → Result BlockError OperationBlock
unfolding header_from_bytes read_body header_to_bytes
block_from_bytes c input = elim (header_from_bytes input) [
  | err e ↦ err e
  | ok header ↦ elim (read_body c header (drop (length (header_to_bytes header)) input)) [
    | ok (b, rest) ↦ ok b
    | err e ↦ err e
  ]
]
