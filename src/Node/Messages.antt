-- ===== src/Node/Messages.antt =====
-- crates/augecoin-node/src/consensus.rs: the messages between validators and their envelope. The texts
-- of the errors that say what is too short are one error here.
pub mod RoundTrip
use augecoin.Base.{
  ℕ, ◌/◌, Bool, not, List, [], ◌∷◌, ◌++◌, ltb, ◌==◌, if◌then◌else◌, Bytes, length, Result, ok, err,
}
use augecoin.Core.Operation.{Signature}
use augecoin.Core.Codec.Write.{write_u64, write_u32, write_each}
use augecoin.Core.Codec.Reader
use augecoin.Core.Codec.Reader.{Reader, ◌>>=◌, pure, fail, read_times}
use augecoin.Core.Proposal.{
  Compressor, ProposalError, ProposalMessage, GetTransactions, TransactionsResponse,
  proposal_to_bytes, proposal_from_bytes, request_to_bytes, request_from_bytes, response_to_bytes,
  response_from_bytes,
}

-- height, a block or a part of it, the sender
pub data ConsensusEvent : Type 0 where
  block_proposal : ℕ → Bytes → ℕ → ConsensusEvent
  light_proposal : ℕ → ProposalMessage → ℕ → ConsensusEvent
  get_transactions : ℕ → GetTransactions → ℕ → ConsensusEvent
  transactions_response : ℕ → TransactionsResponse → ℕ → ConsensusEvent
  -- height, block hash, signature, voter
  sign_vote : ℕ → Bytes → Signature → ℕ → ConsensusEvent
  -- height, block, signatures of the quorum, sender
  commit_notification block_response : ℕ → Bytes → List Signature → ℕ → ConsensusEvent
  -- height, requester
  block_request : ℕ → ℕ → ConsensusEvent
  -- height, new round, sender, signature
  round_change : ℕ → ℕ → ℕ → Signature → ConsensusEvent
  status_request : ℕ → ConsensusEvent
  -- height, sender
  status_response : ℕ → ℕ → ConsensusEvent

pub data MessageError : Type 0 where
  empty_data unexpected_eof payload_length_mismatch too_short : MessageError
  quorum_count_exceeds_maximum quorum_count_exceeds_payload : MessageError
  invalid : ProposalError → MessageError
  unknown_message_type : ℕ → MessageError

abbrev pub max_quorum_signatures : ℕ
max_quorum_signatures = 32_768

unfoldable pub message_tag : ConsensusEvent → ℕ
message_tag (block_proposal _ _ _) = 0
message_tag (sign_vote _ _ _ _) = 1
message_tag (commit_notification _ _ _ _) = 2
message_tag (block_request _ _) = 3
message_tag (block_response _ _ _ _) = 4
message_tag (round_change _ _ _ _) = 5
message_tag (status_request _) = 6
message_tag (status_response _ _) = 7
message_tag (light_proposal _ _ _) = 8
message_tag (get_transactions _ _ _) = 9
message_tag (transactions_response _ _ _) = 10

-- two numbers, then bytes behind their length
unfoldable pub framed : ℕ → ℕ → Bytes → Bytes
unfolding write_u64 write_u32
framed height id bytes = write_u64 height ++ (write_u64 id ++ (write_u32 (length bytes) ++ bytes))

unfoldable pub with_quorum : ℕ → ℕ → List Signature → Bytes → Bytes
unfolding write_u64 write_u32 write_each
with_quorum height id sigs block =
    write_u64 height
    ++ (write_u64 id
        ++ (write_u32 (length sigs)
            ++ (write_each (λ (sig : Signature). sig) sigs ++ (write_u32 (length block) ++ block))))

module _ (z : Compressor) where
  unfoldable pub message_payload : ConsensusEvent → Bytes
  unfolding write_u64 framed with_quorum proposal_to_bytes request_to_bytes response_to_bytes
  message_payload (block_proposal height block id) = framed height id block
  message_payload (light_proposal height p id) = framed height id (proposal_to_bytes p)
  message_payload (get_transactions height r id) = framed height id (request_to_bytes r)
  message_payload (transactions_response height r id) = framed height id (response_to_bytes z r)
  message_payload (sign_vote height hash signature voter) =
      write_u64 height ++ (hash ++ (write_u64 voter ++ signature))
  message_payload (commit_notification height block sigs id) = with_quorum height id sigs block
  message_payload (block_response height block sigs id) = with_quorum height id sigs block
  message_payload (block_request height id) = write_u64 height ++ write_u64 id
  message_payload (round_change height round id signature) =
      write_u64 height ++ (write_u64 round ++ (write_u64 id ++ signature))
  message_payload (status_request id) = write_u64 id
  message_payload (status_response height id) = write_u64 height ++ write_u64 id

  unfoldable pub serialize_consensus_msg : ConsensusEvent → Bytes
  unfolding message_tag message_payload write_u32
  serialize_consensus_msg msg =
      message_tag msg ∷ (write_u32 (length (message_payload msg)) ++ message_payload msg)

abbrev pub Read : Type 0 → Type 0
Read A = Reader MessageError A

abbrev pub read_u64 : Read ℕ
read_u64 = Reader.read_u64 unexpected_eof

abbrev pub read_u32 : Read ℕ
read_u32 = Reader.read_u32 unexpected_eof

abbrev pub read_bytes : ℕ → Read Bytes
read_bytes = Reader.read_fixed too_short

unfoldable pub read_framed : {A : Type 0} → (ℕ → ℕ → Bytes → Read A) → Read A
unfolding ◌>>=◌ Reader.read_u64 Reader.read_u32 Reader.read_fixed
read_framed use_bytes = do
  height ← read_u64
  id ← read_u64
  len ← read_u32
  bytes ← read_bytes len
  use_bytes height id bytes

unfoldable pub inner : {A : Type 0} → Result ProposalError A → Read A
unfolding pure fail
inner (ok a) = pure a
inner (err e) = fail (invalid e)

-- The count of signatures, which is tested against the limit and against what is left.
unfoldable pub check_quorum_count : ℕ → Read ℕ
check_quorum_count n left =
    if ltb max_quorum_signatures n
    then err quorum_count_exceeds_maximum
    else if ltb (length left / 64) n
    then err quorum_count_exceeds_payload
    else ok (n, left)

unfoldable pub read_quorum_count : Read ℕ
unfolding ◌>>=◌ check_quorum_count Reader.read_u32
read_quorum_count = do n ← read_u32; check_quorum_count n

unfoldable pub read_with_quorum :
    (ℕ → Bytes → List Signature → ℕ → ConsensusEvent) → Read ConsensusEvent
unfolding ◌>>=◌ pure read_times read_quorum_count Reader.read_u64 Reader.read_u32 Reader.read_fixed
read_with_quorum build = do
  height ← read_u64
  id ← read_u64
  n ← read_quorum_count
  sigs ← read_times n (read_bytes 64)
  len ← read_u32
  block ← read_bytes len
  pure (build height block sigs id)

unfoldable pub read_two : (ℕ → ℕ → ConsensusEvent) → Read ConsensusEvent
unfolding ◌>>=◌ pure Reader.read_u64
read_two build = do a ← read_u64; b ← read_u64; pure (build a b)

unfoldable pub read_sign_vote : Read ConsensusEvent
unfolding ◌>>=◌ pure Reader.read_u64 Reader.read_fixed
read_sign_vote = do
  height ← read_u64
  hash ← read_bytes 64
  voter ← read_u64
  signature ← read_bytes 64
  pure (sign_vote height hash signature voter)

unfoldable pub read_round_change : Read ConsensusEvent
unfolding ◌>>=◌ pure Reader.read_u64 Reader.read_fixed
read_round_change = do
  height ← read_u64
  round ← read_u64
  id ← read_u64
  signature ← read_bytes 64
  pure (round_change height round id signature)

unfoldable pub read_status_request : Read ConsensusEvent
unfolding ◌>>=◌ pure Reader.read_u64
read_status_request = do id ← read_u64; pure (status_request id)

unfoldable pub read_block_proposal : Read ConsensusEvent
unfolding read_framed pure
read_block_proposal = read_framed (λ height id block. pure (block_proposal height block id))

unfoldable pub read_light_proposal : Read ConsensusEvent
unfolding read_framed ◌>>=◌ pure inner proposal_from_bytes
read_light_proposal =
    read_framed
      λ height id bytes. do p ← inner (proposal_from_bytes bytes); pure (light_proposal height p id)

unfoldable pub read_get_transactions : Read ConsensusEvent
unfolding read_framed ◌>>=◌ pure inner request_from_bytes
read_get_transactions =
    read_framed λ height id bytes. do
      r ← inner (request_from_bytes bytes)
      pure (get_transactions height r id)

module _ (z : Compressor) where
  unfoldable pub read_transactions_response : Read ConsensusEvent
  unfolding read_framed ◌>>=◌ pure inner response_from_bytes
  read_transactions_response = read_framed λ height id bytes. do
    r ← inner (response_from_bytes z bytes)
    pure (transactions_response height r id)

  unfoldable pub read_by_tag : ℕ → Read ConsensusEvent
  unfolding fail read_block_proposal read_sign_vote read_with_quorum read_two read_round_change
      read_status_request read_light_proposal read_get_transactions read_transactions_response
  read_by_tag tag =
      if tag == 0
      then read_block_proposal
      else if tag == 8
      then read_light_proposal
      else if tag == 9
      then read_get_transactions
      else if tag == 10
      then read_transactions_response
      else if tag == 1
      then read_sign_vote
      else if tag == 2
      then read_with_quorum commit_notification
      else if tag == 3
      then read_two block_request
      else if tag == 4
      then read_with_quorum block_response
      else if tag == 5
      then read_round_change
      else if tag == 6
      then read_status_request
      else if tag == 7
      then read_two status_response
      else fail (unknown_message_type tag)

  -- The length in the envelope is that of all that follows it.
  unfoldable pub deserialize_consensus_msg : Bytes → Result MessageError ConsensusEvent
  unfolding read_by_tag Reader.read_u32
  deserialize_consensus_msg [] = err empty_data
  deserialize_consensus_msg (tag ∷ input) = elim (read_u32 input) [
    | err e ↦ err e
    | ok (payload_len, payload) ↦
        if not (payload_len == length payload)
        then err payload_length_mismatch
        else elim (read_by_tag tag payload) [ ok (msg, rest) ↦ ok msg | err e ↦ err e ]
  ]
