-- ===== src/Tests/Wire.antt =====
-- The theorems on the byte forms of operations, blocks and messages at concrete inputs.
use augecoin.Base.{
  ◌<◌, ◌≡◌, refl, ℕ, Bytes, Result, true, ok_injective, err, leb, if◌then◌else◌, subst, le→leb, [],
  ◌∷◌, ◌++◌, length, ok, u32_mod, to_be_bytes, arith,
}
use augecoin.Core.Codec.Write.{operation_to_bytes}
use augecoin.Core.Codec.Payload.{operation_from_bytes}
use augecoin.Core.Codec.Parts.{FitsSender, FitsReceiver}
use augecoin.Core.Codec.RoundTrip.{FitsOperation, operation_from_bytes-to_bytes}
use augecoin.Core.Block.{OperationBlock}
use augecoin.Core.Block.Codec.{block_to_bytes, block_from_bytes}
use augecoin.Core.Block.RoundTrip.{FitsHeader, FitsBlock, rehashed, block_from_bytes-to_bytes}
use augecoin.Core.Codec.Framed.{write_operations}
use augecoin.Core.Proposal.{Compressor, TransactionsResponse, compress, pack, response_to_bytes}
use augecoin.Core.Proposal.RoundTrip.{FitsResponse, Restores}
use augecoin.Node.Messages.{
  ConsensusEvent, transactions_response, serialize_consensus_msg, deserialize_consensus_msg,
  message_payload,
}
use augecoin.Node.Messages.RoundTrip.{FitsMessage, deserialize-serialize}
use augecoin.Tests.Data.{toy, pay_30, get_30, some_sig, signed_op, full_header}

pub signed_op-FitsOperation : FitsOperation signed_op
signed_op-FitsOperation = record {
  payload = ((omega arith, (pays, tt)), (omega arith, (gets, tt)), (omega arith, tt), omega arith);
  chain = omega arith;
  signatures = (omega arith, (refl, tt));
}
  where
    pays : FitsSender pay_30
    pays = record {
      account = omega arith;
      n = omega arith;
      amount = omega arith;
      payload = omega arith;
    }

    gets : FitsReceiver get_30
    gets = record { account = omega arith; amount = omega arith; payload = omega arith }

operation_from_bytes-to_bytes_example :
    operation_from_bytes (operation_to_bytes signed_op ++ (1 ∷ [])) ≡ ok signed_op
operation_from_bytes-to_bytes_example =
    operation_from_bytes-to_bytes signed_op (1 ∷ []) signed_op-FitsOperation

pub full_header-FitsHeader : FitsHeader full_header
full_header-FitsHeader = record {
  number = omega arith;
  key = refl;
  reward = omega arith;
  fee = omega arith;
  version = omega arith;
  available = omega arith;
  timestamp = omega arith;
  safe_box = refl;
  operations = refl;
  payload = omega arith;
  proof = refl;
  previous = refl;
  leader = omega arith;
  chain = omega arith;
}

abbrev full_block : OperationBlock
full_block = record {
  header = full_header;
  operations = signed_op ∷ [];
  leader_signature = some_sig;
  quorum_signatures = some_sig ∷ [];
  block_hash = [];
}

full_block-FitsBlock : FitsBlock full_block
unfolding operation_to_bytes to_be_bytes
full_block-FitsBlock = record {
  header = full_header-FitsHeader;
  count = omega arith;
  operations = ((signed_op-FitsOperation, omega arith), tt);
  leader = refl;
  quorum = omega arith;
  signatures = (refl, tt);
}

block_from_bytes-to_bytes_example :
    block_from_bytes toy (block_to_bytes full_block ++ (9 ∷ [])) ≡ ok (rehashed toy full_block)
block_from_bytes-to_bytes_example =
    block_from_bytes-to_bytes toy full_block (9 ∷ []) full_block-FitsBlock

-- a compression that marks what it compresses, with a limit of a thousand bytes
abbrev marked : ℕ → Bytes → Result Bytes Bytes
marked limit [] = err []
marked limit (_ ∷ x) = if leb (length x) limit then ok x else err []

abbrev marking : Compressor
marking = record {
  bulk_compress = λ x. ok (1 ∷ x);
  bulk_decompress = λ x limit. marked limit x;
  max_transmit_size = 1000;
}

marking-Restores : Restores marking
marking-Restores x y e small =
    subst (λ r. marked 1000 r ≡ ok x) (ok_injective (1 ∷ x) y e)
      (rw (le→leb (length x) 1000 small) refl)

abbrev answer : TransactionsResponse
answer = record { height = 4; transactions = signed_op ∷ []; compressed = true }

abbrev sent : ConsensusEvent
sent = transactions_response 4 answer 2

answer-FitsResponse : FitsResponse marking answer
unfolding pack compress write_operations operation_to_bytes to_be_bytes
answer-FitsResponse = record {
  high = omega arith;
  count = omega arith;
  each = ((signed_op-FitsOperation, omega arith), tt);
  short = omega arith;
  fits = (omega arith, (1 ∷ write_operations (signed_op ∷ []), refl));
}

sent-FitsMessage : FitsMessage marking sent
unfolding response_to_bytes pack compress write_operations operation_to_bytes to_be_bytes
sent-FitsMessage = (omega arith, omega arith, answer-FitsResponse, omega arith)

sent_short : length (message_payload marking sent) < u32_mod
unfolding message_payload response_to_bytes pack compress write_operations operation_to_bytes
    to_be_bytes
sent_short = omega arith

deserialize-serialize_example :
    deserialize_consensus_msg marking (serialize_consensus_msg marking sent) ≡ ok sent
deserialize-serialize_example =
    deserialize-serialize marking marking-Restores sent sent-FitsMessage sent_short
