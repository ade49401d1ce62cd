-- ===== src/Core/Mempool/Methods.antt =====
-- crates/augecoin-core/src/mempool.rs: the methods. A set of positions to remove is the list of them in
-- ascending order, and they are removed from the last one to the first.
use augecoin.Base.{
  ℕ, zero, suc, Bool, not, Option, none, some, List, [], ◌∷◌, ◌++◌, leb, ◌==◌, if◌then◌else◌, Bytes,
  get_elem?, length, any, Dict, lookup, insert, text_lookup, text_insert, text_remove, ok, err,
}
use augecoin.Crypto.{Crypto}
use augecoin.Core.Operation.{SenderInfo, Operation}
use augecoin.Core.Block.Hash.{op_hash}
use augecoin.Core.Mempool.{
  AccountLookup, mempool_full, wrong_chain_id, duplicate_op_hash, duplicate_operation, nonce_of,
  nonce_lookup, nonce_insert, NonceDict, Mempool, is_full, payload_senders,
}
use augecoin.Core.Mempool.Checks.{
  Check, ◌>>◌, fail_if, for_each, validate_signatures, validate_n_operation_chaining,
  validate_block_n_operations,
}
use augecoin.Core.Mempool.Fees.{validate_balance_and_fee}

-- The two indexes by sender: the highest pending counter of an account, and the position of the
-- operation with a counter.
pub record Index : Type 0 where
  pub highest : Dict ℕ
  pub places : NonceDict

abbrev pub raised : Option ℕ → ℕ → ℕ
raised none n = n
raised (some prev) n = if leb n prev then prev else n

-- The loop body over the senders of the operation at a position.
unfoldable pub index_sender : ℕ → SenderInfo → Index → Index
unfolding nonce_insert insert lookup
index_sender idx s i = record {
  highest = insert s.account (raised (lookup s.account i.highest) s.n_operation) i.highest;
  places = nonce_insert (nonce_of s) idx i.places;
}

unfoldable pub index_senders : ℕ → List SenderInfo → Index → Index
unfolding index_sender
index_senders idx [] i = i
index_senders idx (s ∷ ss) i = index_senders idx ss (index_sender idx s i)

-- The loop of `rebuild_index` over the operations, from a position on.
unfoldable pub index_from : ℕ → List Operation → Index → Index
unfolding index_senders payload_senders
index_from idx [] i = i
index_from idx (op ∷ ops) i =
    index_from (suc idx) ops (index_senders idx (payload_senders op.payload) i)

abbrev pub no_index : Index
no_index = record { highest = []; places = [] }

abbrev pub index_of : Mempool → Index
index_of m = record { highest = m.sender_n_ops; places = m.op_index }

abbrev pub with_index : Mempool → Index → Mempool
with_index m i = record m { sender_n_ops = i.highest; op_index = i.places }

unfoldable pub rebuild_index : Mempool → Mempool
unfolding index_from
rebuild_index m = with_index m (index_from 0 m.operations no_index)

unfoldable pub set_admin_pubkey : Mempool → Bytes → Mempool
set_admin_pubkey m key = record m { admin_pubkey = some key }

-- `Vec::remove`
unfoldable pub remove_at {ℓ} : {A : Type ℓ} → ℕ → List A → List A
remove_at i [] = []
remove_at zero (x ∷ xs) = xs
remove_at (suc i) (x ∷ xs) = x ∷ remove_at i xs

-- The positions, from `i` on, of the operations that a test picks.
unfoldable pub positions {ℓ} : {A : Type ℓ} → (ℕ → A → Bool) → ℕ → List A → List ℕ
positions test i [] = []
positions test i (x ∷ xs) =
    let rest = positions test (suc i) xs in if test i x then i ∷ rest else rest

unfoldable pub contains : ℕ → List ℕ → Bool
contains n xs = any (λ x. x == n) xs

module _ (c : Crypto) where
  -- One operation out of the lists and out of `by_hash`; the indexes are left. At a position past the
  -- end the source panics; here nothing is done.
  unfoldable pub drop_at : ℕ → Mempool → Mempool
  unfolding text_remove op_hash remove_at
  drop_at i m = elim (get_elem? m.operations i) [
    | none ↦ m
    | some op ↦ record m {
      by_hash = text_remove (op_hash c op) m.by_hash;
      operations = remove_at i m.operations;
      admitted_at = remove_at i m.admitted_at;
    }
  ]

  -- The positions are in ascending order; the last one goes first.
  unfoldable pub drop_all : List ℕ → Mempool → Mempool
  unfolding drop_at
  drop_all [] m = m
  drop_all (i ∷ is) m = drop_at i (drop_all is m)

  -- The tail of the methods that remove: nothing is touched where nothing is to go.
  unfoldable pub remove_positions : List ℕ → Mempool → Mempool
  unfolding drop_all rebuild_index
  remove_positions [] m = m
  remove_positions (i ∷ is) m = rebuild_index (drop_all (i ∷ is) m)

  module _ (db : AccountLookup) where
    abbrev pub no_duplicate : Mempool → SenderInfo → Check (Unit {0})
    no_duplicate m s = elim (nonce_lookup (nonce_of s) m.op_index) [
      | none ↦ ok tt
      | some _ ↦ err (duplicate_operation s.account s.n_operation)
    ]

    abbrev pub absent : Bytes → Mempool → Check (Unit {0})
    absent hash m = elim (text_lookup hash m.by_hash) [
      | none ↦ ok tt
      | some _ ↦ err duplicate_op_hash
    ]

    -- The checks of `validate_and_admit` behind the one for the hash.
    unfoldable pub validated : Mempool → Operation → Check (Unit {0})
    unfolding validate_signatures for_each payload_senders nonce_lookup
        validate_n_operation_chaining validate_balance_and_fee
    validated m op =
        validate_signatures db c m op
        >> (for_each (no_duplicate m) (payload_senders op.payload)
            >> (validate_n_operation_chaining db m op >> validate_balance_and_fee db m op))

    abbrev pub right_chain : Mempool → Operation → Check (Unit {0})
    right_chain m op =
        fail_if (not (op.chain_id == m.config.chain_id))
          (wrong_chain_id m.config.chain_id op.chain_id)

    -- Everything that `validate_and_admit` looks at before it changes anything.
    unfoldable pub admissible : Mempool → Operation → Check (Unit {0})
    unfolding is_full text_lookup op_hash validated
    admissible m op =
        fail_if (is_full m) mempool_full
        >> (right_chain m op >> (absent (op_hash c op) m >> validated m op))

    -- The pool with the operation behind the pending ones.
    unfoldable pub admitted : Mempool → Operation → ℕ → Mempool
    unfolding text_insert op_hash index_senders payload_senders
    admitted m op now =
        with_index
          (record m {
            operations = m.operations ++ (op ∷ []);
            admitted_at = m.admitted_at ++ (now ∷ []);
            by_hash = text_insert (op_hash c op) op m.by_hash;
          })
          (index_senders (length m.operations) (payload_senders op.payload) (index_of m))

    unfoldable pub validate_and_admit : Mempool → Operation → ℕ → Check Mempool
    unfolding admissible admitted
    validate_and_admit m op now = elim (admissible m op) [
      | err e ↦ err e
      | ok _ ↦ ok (admitted m op now)
    ]

    unfoldable pub precheck_for_block : Mempool → Operation → Check (Unit {0})
    unfolding validate_signatures validate_block_n_operations validate_balance_and_fee
    precheck_for_block m op =
        validate_signatures db c m op
        >> (validate_block_n_operations db op >> validate_balance_and_fee db m op)
