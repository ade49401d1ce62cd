-- ===== src/Core/Mempool/Runs.antt =====
-- crates/augecoin-core/src/mempool.rs: every method keeps the pool valid, so that every pool that can
-- be reached is; and what a lookup by hash gives in such a pool.
use augecoin.Base.{
  ℕ, zero, suc, ◌-◌, ◌≡◌, refl, false, List, [], ◌∷◌, ltb, Bytes, text_lookup, get_elem?, length,
  ◌==◌, arith, ok, Bool-cases, Option-cases, inl, inr,
}
use augecoin.Crypto.{Crypto}
use augecoin.Core.Operation.{Operation}
use augecoin.Core.Mempool.{AccountLookup, MempoolConfig, Mempool, new, nonce_lookup, nonce_remove}
use augecoin.Core.Mempool.Methods.{
  index_from, positions, drop_at, set_admin_pubkey, validate_and_admit,
}
use augecoin.Core.Mempool.Admits.{validate_and_admit-IsValid}
use augecoin.Core.Mempool.Evict.{
  fronts_of, is_expired, is_evicted, is_committed, is_stale, names_sender, evict_with,
  evict_expired, drop_oldest, evict_lowest_priority, remove, clear, evict_all_for_sender,
  remove_committed, remove_stale,
}
use augecoin.Core.Mempool.Invariant.{
  IsResident, IsValid, drop_at-IsResident, rebuild_index-IsValid, remove_positions-IsValid,
}

module _ (c : Crypto) where
  drop_oldest-IsResident :
      (fuel : ℕ) (m : Mempool) → IsResident c m → IsResident c (drop_oldest c fuel m).0
  unfolding drop_oldest
  drop_oldest-IsResident zero m v = v
  drop_oldest-IsResident (suc fuel) m v =
      elim (Bool-cases (ltb m.config.max_operations (length m.operations))) [
        | inl e ↦
            rw (e, drop_oldest)
              (drop_oldest-IsResident fuel (drop_at c 0 m) (drop_at-IsResident c 0 m v))
        | inr e ↦ rw (e, drop_oldest) v
      ]

  -- Where nothing was dropped, the pool is as it was.
  drop_oldest-idle :
      (fuel : ℕ) (m : Mempool)
      → ltb 0 (drop_oldest c fuel m).1 ≡ false
      → (drop_oldest c fuel m).0 ≡ m
  unfolding drop_oldest
  drop_oldest-idle zero m h = refl
  drop_oldest-idle (suc fuel) m h =
      elim (Bool-cases (ltb m.config.max_operations (length m.operations))) [
        | inl e ↦ ground (arith, e, h)
        | inr e ↦ rw (e, drop_oldest) refl
      ]

  evict_lowest_priority-IsValid :
      (m : Mempool) → IsValid c m → IsValid c (evict_lowest_priority c m).0
  unfolding evict_lowest_priority
  evict_lowest_priority-IsValid m v =
      elim (Bool-cases (ltb 0 (drop_oldest c (length m.operations) m).1)) [
        | inl e ↦
            rw (e, evict_lowest_priority)
              (rebuild_index-IsValid c _ (drop_oldest-IsResident (length m.operations) m v.lists))
        | inr e ↦ rw (e, evict_lowest_priority, drop_oldest-idle (length m.operations) m e) v
      ]

  same_lists :
      (m m' : Mempool)
      → m.operations ≡ m'.operations
      → m.admitted_at ≡ m'.admitted_at
      → m.by_hash ≡ m'.by_hash
      → IsResident c m
      → IsResident c m'
  same_lists m m' e f g v = record {
    aligned = rw (← e, ← f) v.aligned;
    distinct = rw (← e) v.distinct;
    resident = λ h. rw (← e, ← g) (v.resident h);
  }

  remove-IsValid : (m : Mempool) (sender n : ℕ) → IsValid c m → IsValid c (remove c m sender n).0
  unfolding remove
  remove-IsValid m sender n v = elim (Option-cases (nonce_lookup (sender, n) m.op_index)) [
    | inl e ↦ rw (e, remove) v
    | inr (idx, e) ↦ elim (Option-cases (get_elem? m.operations idx)) [
      | inl f ↦ rw (e, remove, f) v
      | inr (op, f) ↦
          let dropped = drop_at c idx m in
          let kept = record dropped { op_index = nonce_remove (sender, n) dropped.op_index } in
          rw (e, remove, f)
            (rebuild_index-IsValid c kept
              (same_lists dropped kept refl refl refl (drop_at-IsResident c idx m v.lists)))
    ]
  ]

  clear-IsValid : (m : Mempool) → IsValid c (clear c m)
  unfolding clear index_from text_lookup
  clear-IsValid m = record {
    lists = record { aligned = refl; distinct = tt; resident = λ h. refl };
    indexed = refl;
  }

  evict_with-IsValid : (is : List ℕ) (m : Mempool) → IsValid c m → IsValid c (evict_with c is m).0
  unfolding evict_with
  evict_with-IsValid [] m v = v
  evict_with-IsValid (i ∷ is) m v =
      let fronts = fronts_of m.operations (i ∷ is) [] in
      remove_positions-IsValid c (positions (is_evicted (i ∷ is) fronts) 0 m.operations) m v

  evict_expired-IsValid :
      (m : Mempool) (now : ℕ) → IsValid c m → IsValid c (evict_expired c m now).0
  unfolding evict_expired
  evict_expired-IsValid m now v = elim (Bool-cases (m.config.ttl_seconds == 0)) [
    | inl e ↦ rw (e, evict_expired) v
    | inr e ↦
        rw (e, evict_expired)
          (evict_with-IsValid (positions (is_expired (now - m.config.ttl_seconds)) 0 m.admitted_at)
            m v)
  ]

  -- One call of a method. The accounts and the clock may differ from call to call.
  pub data Step : Mempool → Mempool → Type 0 where
    sets_admin : (m : Mempool) (key : Bytes) → Step m (set_admin_pubkey m key)
    admits :
        (db : AccountLookup) (m : Mempool) (op : Operation) (now : ℕ) {m' : Mempool}
        → validate_and_admit c db m op now ≡ ok m'
        → Step m m'
    expires : (m : Mempool) (now : ℕ) → Step m (evict_expired c m now).0
    shrinks : (m : Mempool) → Step m (evict_lowest_priority c m).0
    removes : (m : Mempool) (sender n : ℕ) → Step m (remove c m sender n).0
    clears : (m : Mempool) → Step m (clear c m)
    drops_stale : (db : AccountLookup) (m : Mempool) → Step m (remove_stale c db m).0
    commits : (m : Mempool) (committed : List Operation) → Step m (remove_committed c m committed)
    quarantines : (m : Mempool) (sender : ℕ) → Step m (evict_all_for_sender c m sender).0

  -- What a new pool becomes.
  pub data Reach (config : MempoolConfig) : Mempool → Type 0 where
    start : Reach config (new config)
    next : {m m' : Mempool} → Reach config m → Step m m' → Reach config m'

  Step-IsValid : {m m' : Mempool} → Step m m' → IsValid c m → IsValid c m'
  unfolding set_admin_pubkey remove_stale remove_committed evict_all_for_sender
  Step-IsValid (sets_admin m key) v = record {
    lists = same_lists m _ refl refl refl v.lists;
    indexed = v.indexed;
  }
  Step-IsValid (admits db m op now h) v = validate_and_admit-IsValid c db m op now v h
  Step-IsValid (expires m now) v = evict_expired-IsValid m now v
  Step-IsValid (shrinks m) v = evict_lowest_priority-IsValid m v
  Step-IsValid (removes m sender n) v = remove-IsValid m sender n v
  Step-IsValid (clears m) v = clear-IsValid m
  Step-IsValid (drops_stale db m) v =
      remove_positions-IsValid c (positions (is_stale c db) 0 m.operations) m v
  Step-IsValid (commits m committed) v =
      remove_positions-IsValid c (positions (is_committed c m committed) 0 m.operations) m v
  Step-IsValid (quarantines m sender) v =
      remove_positions-IsValid c (positions (names_sender sender) 0 m.operations) m v

  -- In every pool that a new one becomes by its methods, in whatever order they are called: each
  -- operation has its time of admission, no two operations have one hash, the index by hash finds
  -- exactly the pending operations, and the indexes by sender are those that `rebuild_index` builds
  -- from the pending operations.
  pub Reach-IsValid : {config : MempoolConfig} {m : Mempool} → Reach config m → IsValid c m
  unfolding new text_lookup index_from
  Reach-IsValid start = record {
    lists = record { aligned = refl; distinct = tt; resident = λ h. refl };
    indexed = refl;
  }
  Reach-IsValid (next r st) = Step-IsValid st (Reach-IsValid r)
