-- ===== src/Lib.antt =====
-- AUGECOIN: the accounts, operations and blocks of the chain, its validator set and quorums, and
-- the execution of a block.
--
-- The parts of the program and their files here. Paths are those of the repository.
--
--   Crypto          the hash and the signatures (crates/augecoin-crypto), a record that the model
--                   takes as an argument: blake3_512, the test of a key, the test of a signature.
--   Core.Account    crates/augecoin-core/src/account.rs: the states of an AUGEID, the account, its
--                   balance and counter; Core.Account.Codec has to_bytes and from_bytes.
--   Core.Operation  crates/augecoin-core/src/operation.rs: the payloads; Core.Codec.Write has the
--                   writers of an operation (to_bytes, to_bytes_stripped), Core.Codec.Read and
--                   Core.Codec.Payload its reader (from_bytes), over the reader monad of
--                   Core.Codec.Reader; Core.Codec.RoundTrip has the round trip.
--   Core.Block      crates/augecoin-core/src/block.rs: the header and the block; Core.Block.Hash has
--                   the hash and the root of the operations, Core.Block.Select the choice of the
--                   operations that fit (select_block_operations), Core.Block.Codec the byte form.
--   Core.Proposal   crates/augecoin-core/src/proposal.rs: light proposals, requests for operations and
--                   their answers, with their byte forms.
--   Core.Mempool    crates/augecoin-core/src/mempool.rs: the pool; Checks and Fees have the checks of an
--                   operation (validate_signatures, validate_balance_and_fee), Methods the admission and
--                   the indexes, Evict the methods that remove; Runs has the calls as steps.
--   Core.Merkle     the loop of the Merkle roots of block.rs, proposal.rs and safe_box.rs.
--   Core.SafeBox    crates/augecoin-core/src/safe_box.rs: the hash and the Merkle proofs.
--   Core.Address    crates/augecoin-crypto/src/address.rs: addresses and Base58; Digits has what a list
--                   of digits stands for.
--   Core.Emission   crates/augecoin-core/src/emission.rs and constants.rs.
--   Consensus.Validator  crates/augecoin-consensus/src/validator.rs: the set, the changes that the
--                   admin signs, the direct ones, and the stored form (Consensus.Validator.Codec).
--   Consensus.Quorum     crates/augecoin-consensus/src/quorum.rs.
--   Consensus.Round      crates/augecoin-consensus/src/round.rs; Consensus.Round.Phases has its runs
--                   as a relation of steps.
--   Consensus.Equivocation  crates/augecoin-consensus/src/equivocation.rs.
--   Storage         crates/augecoin-storage/src/lib.rs: the resident cache of the SafeBox and its
--                   indexes (ensure_safebox_loaded, the loops of commit_block_atomic_with_contracts,
--                   resolve_address), with add_account of safe_box.rs.
--   Node.Execution  crates/augecoin-node/src/execution.rs: State has the overlays of
--                   execute_block_inner and what it reads, Steps the shared checks and loop bodies,
--                   Transfers, Accounts and Contracts the branches of execute_operation, Signatures
--                   verify_operation_signatures, Block the phases of a block; the other modules of it
--                   hold proofs: Money the AUGE of the accounts, Replay the counters, Names the
--                   claims of names, and so on.
--   Node.Verify     the same file: verify_block_quorum and verify_block_pre_state.
--   Node.Admission  the signatures that the mempool asks for against those that a block asks for.
--   Node.Messages   crates/augecoin-node/src/consensus.rs: the messages of the consensus and their byte
--                   form (serialize_consensus_msg, deserialize_consensus_msg).
--   Node.Proposer   the same file: build_block, build_light_proposal, reconstruct_from_proposal and the
--                   checks of signatures of proposals, votes and round changes.
--   Tests           concrete inputs, and each theorem at one of them.
--
-- An operation enters the mempool, and the leader builds a block of those that pass the checks
-- again; the others get its light proposal, take the operations from their own pools or ask for
-- them, and rebuild the block. A block is checked by verify_block_quorum, which counts signers
-- under the validator set, then run by execute_block_inner: all operations are checked for
-- signatures against the stored accounts, each is executed on the overlays, the leader is paid,
-- three AUGEIDs are emitted, and the overlays are committed. The code with `&mut` overlays is a
-- function from the overlays to a result with new overlays; `?` is the bind of that monad. On an
-- error the block is given up with its overlays.
--
-- Numbers are natural numbers. Where the source saturates, wraps or checks, so does the model
-- (Base.Words); a plain `+=` on a counter wraps, as in a release build. Keys, hashes, signatures
-- and names are lists of bytes, a map is an association list with one entry for a key, in the order
-- of insertion; the model searches the modified accounts in that order, the source in the order of
-- a HashMap.
--
-- Fuel: the loops over the levels of a Merkle tree have as many rounds as there are hashes, which
-- are enough since a level has half of the hashes of the level below it; the carry of Base58 has as
-- many rounds as its value, which a round divides; evict_lowest_priority has as many as there are
-- operations, of which a round takes one.
--
-- Arguments of the model: the hash and the signatures, the database (Storage, every read of which
-- may fail; AccountLookup for the mempool), the contract engine and its decoder (ContractHost), the
-- compression with the limit of its output (Compressor), the own key of a leader (Leader), the clock,
-- the limit of a block, and the result of the commit. Texts of errors are left out, with the numbers
-- in them kept.
--
-- Not modelled: the tables of the database and the snapshots, protocol activation, the state root,
-- the contract engine; the network, the RPC, the loop of the consensus, the tools and the user
-- interfaces, which are input and output.
pub mod Base
pub mod Crypto
pub mod Core
pub mod Consensus
pub mod Storage
pub mod Node
pub mod Tests
