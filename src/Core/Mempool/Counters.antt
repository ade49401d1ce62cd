-- ===== src/Core/Mempool/Counters.antt =====
-- crates/augecoin-core/src/mempool.rs: the counters that the pool keeps track of are those of senders;
-- an operation without senders leaves no trace in the indexes.
use augecoin.Base.{
  ℕ, suc, ◌<◌, ◌≡◌, refl, ap, ◌∙◌, false, [], ◌∷◌, ◌++◌, length, length-append, bytes_eq,
  text_lookup, text_insert, text_lookup-insert, arith, Bytes, ok, err, none,
}
use augecoin.Crypto.{Crypto}
use augecoin.Core.Operation.{Operation}
use augecoin.Core.Block.Hash.{op_hash}
use augecoin.Core.Mempool.{AccountLookup, Mempool, is_full, payload_senders}
use augecoin.Core.Mempool.Checks.{Check, ◌>>◌}
use augecoin.Core.Mempool.Admits.{admissible-absent}
use augecoin.Core.Mempool.Methods.{
  index_senders, absent, right_chain, validated, admissible, admitted, validate_and_admit,
}

four_passed :
    (full chain hash rest : Check (Unit {0}))
    → (full >> (chain >> (hash >> rest))) ≡ ok tt
    → (chain ≡ ok tt) × (rest ≡ ok tt)
four_passed (ok _) (ok _) (ok _) rest h = (refl, h)
four_passed (ok _) (ok _) (err e) rest h = cc
four_passed (ok _) (err e) hash rest h = cc
four_passed (err e) chain hash rest h = cc

module _ (c : Crypto) (db : AccountLookup) where
  -- The pool with an operation that has no senders: the indexes by sender stay as they are.
  untracked : Mempool → Operation → ℕ → Mempool
  untracked m op now = record m {
    operations = m.operations ++ (op ∷ []);
    admitted_at = m.admitted_at ++ (now ∷ []);
    by_hash = text_insert (op_hash c op) op m.by_hash;
  }

  admitted-untracked :
      (m : Mempool) (op : Operation) (now : ℕ)
      → payload_senders op.payload ≡ []
      → admitted c db m op now ≡ untracked m op now
  unfolding admitted untracked index_senders
  admitted-untracked m op now e = rw (admitted, e) refl

  absent_of_none :
      (h : Bytes) (m : Mempool) → text_lookup h m.by_hash ≡ none → absent c db h m ≡ ok tt
  absent_of_none h m e = rw (absent, e) refl

  admits_passed :
      (m : Mempool) (op : Operation) (now : ℕ)
      → admissible c db m op ≡ ok tt
      → validate_and_admit c db m op now ≡ ok (admitted c db m op now)
  unfolding validate_and_admit
  admits_passed m op now e = rw (validate_and_admit, e) refl

  admissible-untracked :
      (m : Mempool) (first second : Operation) (now : ℕ)
      → suc (length m.operations) < m.config.max_operations
      → bytes_eq (op_hash c second) (op_hash c first) ≡ false
      → text_lookup (op_hash c second) m.by_hash ≡ none
      → admissible c db m second ≡ ok tt
      → admissible c db (untracked m first now) second ≡ ok tt
  unfolding admissible untracked
  admissible-untracked m first second now room other fresh h =
      let (chain, rest) = four_passed _ (right_chain c db m second) _ (validated c db m second) h in
      rw (roomy, admissible, chain, absent_now) rest
    where
      roomy : is_full (untracked m first now) ≡ false
      roomy = ground (arith, room, length-append {0} m.operations (first ∷ []))

      gone : text_lookup (op_hash c second) (text_insert (op_hash c first) first m.by_hash) ≡ none
      gone =
          text_lookup-insert (op_hash c second) (op_hash c first) first m.by_hash
          ∙ rw (other, fresh) refl

      absent_now : absent c db (op_hash c second) (untracked m first now) ≡ ok tt
      absent_now = absent_of_none (op_hash c second) (untracked m first now) gone

  -- The pool does not see the counter of an operation without senders: where two operations, the first
  -- without senders, can each be admitted, have different hashes and there is room for both, the
  -- second is admitted behind the first, also where both name one counter of one account.
  pub senderless_untracked :
      (m : Mempool) (first second : Operation) (now later : ℕ)
      → payload_senders first.payload ≡ []
      → suc (length m.operations) < m.config.max_operations
      → bytes_eq (op_hash c second) (op_hash c first) ≡ false
      → admissible c db m first ≡ ok tt
      → admissible c db m second ≡ ok tt
      → (m' : Mempool) × (m'' : Mempool) × (validate_and_admit c db m first now ≡ ok m')
        × (validate_and_admit c db m' second later ≡ ok m'')
  senderless_untracked m first second now later none_sent room other a b = (
    untracked m first now,
    admitted c db (untracked m first now) second later,
    admits_passed m first now a ∙ ap ok (admitted-untracked m first now none_sent),
    admits_passed (untracked m first now) second later
        (admissible-untracked m first second now room other (admissible-absent c db m second b) b),
  )
