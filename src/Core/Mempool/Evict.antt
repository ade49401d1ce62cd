-- ===== src/Core/Mempool/Evict.antt =====
-- crates/augecoin-core/src/mempool.rs: the methods that take operations out of the pool. What they log
-- is left out.
use augecoin.Base.{
  ℕ, zero, suc, ◌-◌, Bool, true, false, ◌||◌, Option, none, some, List, [], ◌∷◌, ◌++◌, ltb, ◌==◌,
  if◌then◌else◌, Bytes, get_elem?, length, map, any, Dict, lookup, insert, text_lookup, ok, err,
  u64_max,
}
use native.Mathlib.Decide.{ℕ_discrete}
use augecoin.Crypto.{Crypto}
use augecoin.Core.Operation.{SenderInfo, AddressReceiverInfo, OperationPayload, Operation}
use augecoin.Core.Mempool.{
  AccountLookup, Nonce, nonce_of, nonce_lookup, nonce_remove, Mempool, payload_senders,
  op_nonce_pairs,
}
use augecoin.Core.Mempool.Methods.{positions, contains, drop_at, remove_positions, rebuild_index}

operation_discrete : Discrete Operation
operation_discrete = hlevel ℕ_discrete

abbrev without_key : AddressReceiverInfo → AddressReceiverInfo
without_key r = record r { address = record (r.address) { public_key = none } }

-- Without the keys of the addresses, which `==` of AddressHash does not look at.
unfoldable pub erased : OperationPayload → OperationPayload
erased (OperationPayload.address_transaction ss rs fee) =
    OperationPayload.address_transaction ss (map without_key rs) fee
erased p = p

-- `==` of the derived `PartialEq`
unfoldable pub same_operation : Operation → Operation → Bool
unfolding erased operation_discrete ℕ_discrete
same_operation o op =
    elim (operation_discrete (record o { payload = erased o.payload })
      (record op { payload = erased op.payload })) [ yes _ ↦ true | no _ ↦ false ]

-- The lowest counter of an account, so far.
abbrev pub lowered : Option ℕ → ℕ → ℕ
lowered none n = if ltb n u64_max then n else u64_max
lowered (some front) n = if ltb n front then n else front

unfoldable pub lower_fronts : List Nonce → Dict ℕ → Dict ℕ
unfolding lookup insert
lower_fronts [] fronts = fronts
lower_fronts ((account, n) ∷ pairs) fronts =
    lower_fronts pairs (insert account (lowered (lookup account fronts) n) fronts)

-- The loop over the expired positions.
unfoldable pub fronts_of : List Operation → List ℕ → Dict ℕ → Dict ℕ
unfolding lower_fronts op_nonce_pairs
fronts_of ops [] fronts = fronts
fronts_of ops (i ∷ is) fronts = fronts_of ops is (elim (get_elem? ops i) [
  | none ↦ fronts
  | some op ↦ lower_fronts (op_nonce_pairs op.payload) fronts
])

abbrev pub behind_front : Dict ℕ → Nonce → Bool
behind_front fronts (account, n) = elim (lookup account fronts) [
  | none ↦ false
  | some front ↦ ltb front n
]

-- Some counter of the operation is behind the front of its account.
unfoldable pub orphaned : Dict ℕ → Operation → Bool
unfolding lookup op_nonce_pairs
orphaned fronts op = any (behind_front fronts) (op_nonce_pairs op.payload)

abbrev pub is_expired : ℕ → ℕ → ℕ → Bool
is_expired cutoff i t = ltb t cutoff

abbrev pub is_evicted : List ℕ → Dict ℕ → ℕ → Operation → Bool
is_evicted expired fronts i op = contains i expired || orphaned fronts op

abbrev pub names_sender : ℕ → ℕ → Operation → Bool
names_sender sender i op = any (λ (p : Nonce). p.0 == sender) (op_nonce_pairs op.payload)

-- `self.operations.iter().position(|o| o == op)`, from a position on
unfoldable pub place_of : Operation → ℕ → List Operation → Option ℕ
unfolding same_operation
place_of op i [] = none
place_of op i (o ∷ ops) = if same_operation o op then some i else place_of op (suc i) ops

abbrev pub to_list : Option ℕ → List ℕ
to_list none = []
to_list (some i) = i ∷ []

module _ (c : Crypto) where
  -- What goes with the expired positions: the operations behind one of them.
  unfoldable pub evict_with : List ℕ → Mempool → Mempool × ℕ
  unfolding positions fronts_of contains orphaned remove_positions
  evict_with [] m = (m, 0)
  evict_with (i ∷ is) m =
      let fronts = fronts_of m.operations (i ∷ is) [] in
      let evicted = positions (is_evicted (i ∷ is) fronts) 0 m.operations in
      (remove_positions c evicted m, length evicted)

  unfoldable pub evict_expired : Mempool → ℕ → Mempool × ℕ
  unfolding positions evict_with
  evict_expired m now =
      if m.config.ttl_seconds == 0
      then (m, 0)
      else evict_with (positions (is_expired (now - m.config.ttl_seconds)) 0 m.admitted_at) m

  -- `while operations.len() > max_operations`, on fuel, with the number of rounds.
  unfoldable pub drop_oldest : ℕ → Mempool → Mempool × ℕ
  unfolding drop_at
  drop_oldest zero m = (m, 0)
  drop_oldest (suc fuel) m = elim (ltb m.config.max_operations (length m.operations)) [
    | true ↦ let (rest, n) = drop_oldest fuel (drop_at c 0 m) in (rest, suc n)
    | false ↦ (m, 0)
  ]

  -- Each round takes an operation, so as many rounds as there are operations are enough.
  unfoldable pub evict_lowest_priority : Mempool → Mempool × ℕ
  unfolding drop_oldest rebuild_index
  evict_lowest_priority m =
      let (rest, n) = drop_oldest (length m.operations) m in
      (if ltb 0 n then rebuild_index rest else rest, n)

  unfoldable pub remove : Mempool → ℕ → ℕ → Mempool × Option Operation
  unfolding nonce_lookup nonce_remove drop_at rebuild_index
  remove m sender n = elim (nonce_lookup (sender, n) m.op_index) [
    | none ↦ (m, none)
    | some idx ↦ elim (get_elem? m.operations idx) [
      | none ↦ (m, none)
      | some op ↦
          let dropped = drop_at c idx m in
          (
            rebuild_index (record dropped { op_index = nonce_remove (sender, n) dropped.op_index }),
            some op,
          )
    ]
  ]

  unfoldable pub clear : Mempool → Mempool
  clear m = record m {
    operations = [];
    admitted_at = [];
    sender_n_ops = [];
    op_index = [];
    by_hash = [];
  }

  unfoldable pub get_by_hash : Mempool → Bytes → Option Operation
  unfolding text_lookup
  get_by_hash m hash = text_lookup hash m.by_hash

  unfoldable pub evict_all_for_sender : Mempool → ℕ → Mempool × ℕ
  unfolding positions op_nonce_pairs remove_positions
  evict_all_for_sender m sender =
      let evicted = positions (names_sender sender) 0 m.operations in
      (remove_positions c evicted m, length evicted)

  unfoldable pub places_of : Mempool → List SenderInfo → List ℕ
  unfolding nonce_lookup
  places_of m [] = []
  places_of m (s ∷ ss) = to_list (nonce_lookup (nonce_of s) m.op_index) ++ places_of m ss

  abbrev pub place_if_senderless : Mempool → Operation → List SenderInfo → List ℕ
  place_if_senderless m op [] = to_list (place_of op 0 m.operations)
  place_if_senderless m op (s ∷ ss) = places_of m (s ∷ ss)

  -- The positions of what a block has committed, in the order of the block.
  unfoldable pub committed_at : Mempool → List Operation → List ℕ
  unfolding payload_senders place_of places_of
  committed_at m [] = []
  committed_at m (op ∷ ops) =
      place_if_senderless m op (payload_senders op.payload) ++ committed_at m ops

  abbrev pub is_committed : Mempool → List Operation → ℕ → Operation → Bool
  is_committed m committed i op = contains i (committed_at m committed)

  unfoldable pub remove_committed : Mempool → List Operation → Mempool
  unfolding committed_at positions contains remove_positions
  remove_committed m committed =
      remove_positions c (positions (is_committed m committed) 0 m.operations) m

  module _ (db : AccountLookup) where
    -- A sender whose counter is below that of its account.
    abbrev pub is_behind : SenderInfo → Bool
    is_behind s = elim (db.get_account s.account) [
      | err e ↦ false
      | ok none ↦ false
      | ok (some acc) ↦ ltb s.n_operation acc.n_operation
    ]

    abbrev pub is_stale : ℕ → Operation → Bool
    is_stale i op = any is_behind (payload_senders op.payload)

    unfoldable pub remove_stale : Mempool → Mempool × ℕ
    unfolding positions payload_senders remove_positions
    remove_stale m =
        let stale = positions is_stale 0 m.operations in (remove_positions c stale m, length stale)
