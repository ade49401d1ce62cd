-- ===== src/Node/Messages/RoundTrip.antt =====
-- crates/augecoin-node/src/consensus.rs: `deserialize_consensus_msg` after `serialize_consensus_msg`.
use augecoin.Base.{
  ℕ, ◌*◌, ◌≤◌, ◌<◌, ◌≡◌, refl, subst, ◌∙◌, List, [], ◌++◌, Bytes, length, length-append, arith, All,
  Result, ok, u32_mod, u64_mod, ==_iff,
}
use mathlib.Core.List.{append_assoc, append-nil}
use augecoin.Core.Operation.{Signature}
use augecoin.Core.Codec.Write.{write_u64, write_u32, write_each}
use augecoin.Core.Codec.Reader.{◌>>=◌, pure}
use augecoin.Core.Codec.Reads.{
  Reads, Reads_alone, bind-Reads, end-Reads, last-Reads, times-Reads, fixed-Reads, u32-Reads,
  u64-Reads,
}
use augecoin.Core.Block.RoundTrip.{length-write_each}
use augecoin.Core.Proposal.{
  Compressor, ProposalError, proposal_to_bytes, request_to_bytes, response_to_bytes,
  proposal_from_bytes, response_from_bytes,
}
use augecoin.Core.Proposal.RoundTrip.{
  FitsHashes, FitsProposal, FitsResponse, Restores, proposal_from_bytes-to_bytes,
  request_from_bytes-to_bytes, response_from_bytes-to_bytes,
}
use augecoin.Node.Messages.{
  ConsensusEvent, block_proposal, light_proposal, get_transactions, transactions_response,
  sign_vote, commit_notification, block_response, block_request, round_change, status_request,
  status_response, unexpected_eof, too_short, max_quorum_signatures, Read, read_u64, read_bytes,
  message_tag, framed, with_quorum, message_payload, serialize_consensus_msg, read_framed, inner,
  check_quorum_count, read_quorum_count, read_with_quorum, read_two, read_by_tag,
  deserialize_consensus_msg,
}

word : (v : ℕ) → v < u64_mod → Reads read_u64 (write_u64 v) v
word = u64-Reads unexpected_eof

bytes : (n : ℕ) (xs : Bytes) → length xs ≡ n → Reads (read_bytes n) xs xs
bytes = fixed-Reads too_short

framed-Reads :
    {A : Type 0} (use_bytes : ℕ → ℕ → Bytes → Read A) (height id : ℕ) (contents : Bytes) (a : A)
    → height < u64_mod
    → id < u64_mod
    → length contents < u32_mod
    → use_bytes height id contents ≡ pure a
    → Reads (read_framed use_bytes) (framed height id contents) a
unfolding read_framed framed
framed-Reads use_bytes height id contents a h i l e = bind-Reads _ (word height h) (
    bind-Reads _ (word id i) (
      bind-Reads _ (u32-Reads unexpected_eof (length contents) l)
        (end-Reads _ (bytes (length contents) contents refl) e)))

inner_ok :
    {A B : Type 0} (r : Result ProposalError A) (g : A → B) (a : A)
    → r ≡ ok a
    → (inner r >>= λ x. pure (g x)) ≡ pure (g a)
unfolding inner ◌>>=◌ pure
inner_ok r g a e = rw e refl

bind_at :
    {A B : Type 0} {m : Read A} {w : Bytes} {a : A}
    → Reads m w a
    → (f : A → Read B) (left : Bytes) → (m >>= f) (w ++ left) ≡ f a left
unfolding ◌>>=◌
bind_at r f left = rw (◌>>=◌, r.apply left) refl

alone :
    {E A : Type 0} (read : Bytes → Result E A) (written : Bytes) (a : A)
    → read (written ++ []) ≡ ok a
    → read written ≡ ok a
alone read written a h = subst (λ w. read w ≡ ok a) (append-nil written) h

check_quorum_count-passes :
    (n : ℕ) (left : Bytes)
    → n ≤ max_quorum_signatures
    → n * 64 ≤ length left
    → check_quorum_count n left ≡ ok (n, left)
unfolding check_quorum_count
check_quorum_count-passes n left small room = ground (arith, small, room)

read_quorum_count-write :
    (n : ℕ) (left : Bytes)
    → n ≤ max_quorum_signatures
    → n * 64 ≤ length left
    → read_quorum_count (write_u32 n ++ left) ≡ ok (n, left)
unfolding read_quorum_count
read_quorum_count-write n left small room =
    bind_at (u32-Reads unexpected_eof n (omega (arith, small))) check_quorum_count left
    ∙ check_quorum_count-passes n left small room

quorum_count-Reads :
    {B : Type 0} (f : ℕ → Read B) (n : ℕ) {v : Bytes} {b : B}
    → n ≤ max_quorum_signatures
    → n * 64 ≤ length v
    → Reads (f n) v b
    → Reads (read_quorum_count >>= f) (write_u32 n ++ v) b
unfolding ◌>>=◌
quorum_count-Reads f n {v} small room behind = record {
  apply = λ rest.
      rw
        (
          append_assoc (write_u32 n) v rest,
          ◌>>=◌,
          read_quorum_count-write n (v ++ rest) small
              (omega (arith, room, length-append {0} v rest)),
        )
        (behind.apply rest);
}

with_quorum-Reads :
    (build : ℕ → Bytes → List Signature → ℕ → ConsensusEvent) (height id : ℕ)
    (sigs : List Signature) (block : Bytes)
    → height < u64_mod
    → id < u64_mod
    → length sigs ≤ max_quorum_signatures
    → All (λ sig. length sig ≡ 64) sigs
    → length block < u32_mod
    → Reads (read_with_quorum build) (with_quorum height id sigs block) (build height block sigs id)
unfolding read_with_quorum with_quorum
with_quorum-Reads build height id sigs block h i few each short = bind-Reads _ (word height h) (
    bind-Reads _ (word id i) (
      quorum_count-Reads _ (length sigs) few room (
        bind-Reads _ (times-Reads _ (λ sig. sig) (λ sig. length sig ≡ 64) (bytes 64) sigs each) (
          bind-Reads _ (u32-Reads unexpected_eof (length block) short)
            (last-Reads _ (bytes (length block) block refl))))))
  where
    signatures : Bytes
    signatures = write_each (λ (sig : Signature). sig) sigs

    room : length sigs * 64 ≤ length (signatures ++ (write_u32 (length block) ++ block))
    room = omega (
      arith,
      length-write_each (λ (sig : Signature). sig) 64 sigs each,
      length-append {0} signatures (write_u32 (length block) ++ block),
    )

two-Reads :
    (build : ℕ → ℕ → ConsensusEvent) (a b : ℕ)
    → a < u64_mod
    → b < u64_mod
    → Reads (read_two build) (write_u64 a ++ write_u64 b) (build a b)
unfolding read_two
two-Reads build a b h k = bind-Reads _ (word a h) (last-Reads (build a) (word b k))

-- The numbers fit their words, signatures and hashes have 64 bytes, the parts can be read back, what
-- stands behind a length is shorter than 2^32 bytes, and what is compressed can be and fits the capacity.
abbrev pub FitsMessage : Compressor → ConsensusEvent → Type 0
FitsMessage z (block_proposal height block id) =
    (height < u64_mod) × (id < u64_mod) × (length block < u32_mod)
FitsMessage z (light_proposal height p id) =
    (height < u64_mod) × (id < u64_mod) × FitsProposal p × (length (proposal_to_bytes p) < u32_mod)
FitsMessage z (get_transactions height r id) =
    (height < u64_mod)
    × (id < u64_mod)
    × (r.height < u64_mod)
    × FitsHashes r.hashes
    × (length (request_to_bytes r) < u32_mod)
FitsMessage z (transactions_response height r id) =
    (height < u64_mod)
    × (id < u64_mod)
    × FitsResponse z r
    × (length (response_to_bytes z r) < u32_mod)
FitsMessage z (sign_vote height hash signature voter) =
    (height < u64_mod) × (length hash ≡ 64) × (voter < u64_mod) × (length signature ≡ 64)
FitsMessage z (commit_notification height block sigs id) =
    (height < u64_mod)
    × (id < u64_mod)
    × (length sigs ≤ max_quorum_signatures)
    × All (λ sig. length sig ≡ 64) sigs
    × (length block < u32_mod)
FitsMessage z (block_response height block sigs id) =
    (height < u64_mod)
    × (id < u64_mod)
    × (length sigs ≤ max_quorum_signatures)
    × All (λ sig. length sig ≡ 64) sigs
    × (length block < u32_mod)
FitsMessage z (block_request height id) = (height < u64_mod) × (id < u64_mod)
FitsMessage z (round_change height round id signature) =
    (height < u64_mod) × (round < u64_mod) × (id < u64_mod) × (length signature ≡ 64)
FitsMessage z (status_request id) = id < u64_mod
FitsMessage z (status_response height id) = (height < u64_mod) × (id < u64_mod)

module _ (z : Compressor) (inverse : Restores z) where
  payload-Reads :
      (msg : ConsensusEvent)
      → FitsMessage z msg
      → Reads (read_by_tag z (message_tag msg)) (message_payload z msg) msg
  unfolding read_by_tag message_tag message_payload
  payload-Reads (block_proposal height block id) (a, b, c) =
      framed-Reads _ height id block _ a b c refl
  payload-Reads (light_proposal height p id) (a, b, c, d) =
      framed-Reads _ height id (proposal_to_bytes p) _ a b d (
        inner_ok _ (λ x. light_proposal height x id) p
          (alone proposal_from_bytes (proposal_to_bytes p) p (proposal_from_bytes-to_bytes p [] c)))
  payload-Reads (get_transactions height r id) (a, b, c, d, e) =
      framed-Reads _ height id (request_to_bytes r) _ a b e
        (inner_ok _ (λ x. get_transactions height x id) r (request_from_bytes-to_bytes r c d))
  payload-Reads (transactions_response height r id) (a, b, c, d) =
      framed-Reads _ height id (response_to_bytes z r) _ a b d (
        inner_ok _ (λ x. transactions_response height x id) r
          (alone (response_from_bytes z) (response_to_bytes z r) r
            (response_from_bytes-to_bytes z inverse r [] c)))
  payload-Reads (sign_vote height hash signature voter) (a, b, c, d) =
      bind-Reads _ (word height a) (
        bind-Reads _ (bytes 64 hash b)
          (bind-Reads _ (word voter c) (last-Reads _ (bytes 64 signature d))))
  payload-Reads (commit_notification height block sigs id) (a, b, c, d, e) =
      with_quorum-Reads commit_notification height id sigs block a b c d e
  payload-Reads (block_response height block sigs id) (a, b, c, d, e) =
      with_quorum-Reads block_response height id sigs block a b c d e
  payload-Reads (block_request height id) (a, b) = two-Reads block_request height id a b
  payload-Reads (round_change height round id signature) (a, b, c, d) =
      bind-Reads _ (word height a) (
        bind-Reads _ (word round b)
          (bind-Reads _ (word id c) (last-Reads _ (bytes 64 signature d))))
  payload-Reads (status_request id) a = last-Reads _ (word id a)
  payload-Reads (status_response height id) (a, b) = two-Reads status_response height id a b

  -- A message between validators is read back as it was sent, whatever its kind, where its numbers fit
  -- their words, its signatures and hashes have 64 bytes, its parts can be read back, it has at most
  -- 32768 signatures, all that stands behind a length is shorter than 2^32 bytes, the operations of a
  -- compressed response have together at most max_transmit_size bytes and are compressed without
  -- failure, and decompression undoes a compression of data of at most that size.
  pub deserialize-serialize :
      (msg : ConsensusEvent)
      → FitsMessage z msg
      → length (message_payload z msg) < u32_mod
      → deserialize_consensus_msg z (serialize_consensus_msg z msg) ≡ ok msg
  unfolding deserialize_consensus_msg serialize_consensus_msg
  deserialize-serialize msg fits short =
      rw
        (
          deserialize_consensus_msg,
          (u32-Reads unexpected_eof (length (message_payload z msg)) short).apply
              (message_payload z msg),
          (==_iff (length (message_payload z msg)) (length (message_payload z msg))).1 refl,
          Reads_alone (payload-Reads msg fits),
        )
        refl
