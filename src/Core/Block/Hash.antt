-- ===== src/Core/Block/Hash.antt =====
-- crates/augecoin-core/src/block.rs: the bytes and the hash of a header, and the root of the
-- operations.
use augecoin.Base.{◌++◌, List, Bytes, length, map}
use augecoin.Crypto.{Crypto}
use augecoin.Core.Operation.{Operation}
use augecoin.Core.Codec.Write.{write_u64, write_u16, operation_to_bytes}
use augecoin.Core.Merkle.{merkle_root}
use augecoin.Core.Block.{OperationBlockHeader, OperationBlock}

unfoldable pub header_to_bytes : OperationBlockHeader → Bytes
unfolding write_u64 write_u16
header_to_bytes h =
    write_u64 h.block_number
    ++ (h.account_key
        ++ (write_u64 h.reward
            ++ (write_u64 h.fee
                ++ (write_u16 h.protocol_version
                    ++ (write_u16 h.protocol_available
                        ++ (write_u64 h.timestamp
                            ++ (h.initial_safe_box_hash
                                ++ (h.operations_hash
                                    ++ (write_u16 (length h.block_payload)
                                        ++ (h.block_payload
                                            ++ (h.proof_of_work
                                                ++ (h.previous_proof_of_work
                                                    ++ (write_u64 h.leader_id
                                                        ++ write_u64 h.chain_id)))))))))))))

-- `OperationBlock::hash` is the hash of the header.
unfoldable pub block_hash : Crypto → OperationBlock → Bytes
unfolding header_to_bytes
block_hash c b = c.blake3_512 (header_to_bytes b.header)

unfoldable pub op_hash : Crypto → Operation → Bytes
unfolding operation_to_bytes
op_hash c op = c.blake3_512 (operation_to_bytes op)

unfoldable pub compute_operations_merkle_root : Crypto → List Operation → Bytes
unfolding merkle_root op_hash
compute_operations_merkle_root c ops = merkle_root c.blake3_512 (map (op_hash c) ops)
