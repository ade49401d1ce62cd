-- ===== src/Core/Mempool/Bounds.antt =====
-- crates/augecoin-core/src/mempool.rs: how many operations a pool holds.
use augecoin.Base.{
  ℕ, zero, suc, ◌-◌, ◌≤◌, ◌<◌, ◌≡◌, refl, subst, ap, ◌∙◌, false, List, [], ◌∷◌, ltb, ◌==◌,
  get_elem?, length, length-append, arith, ok, Bool-cases, Option-cases, inl, inr,
}
use augecoin.Crypto.{Crypto}
use augecoin.Core.Operation.{Operation}
use augecoin.Core.Mempool.{
  AccountLookup, MempoolConfig, Mempool, mempool_full, new, is_full, nonce_lookup,
}
use augecoin.Core.Mempool.Admits.{validate_and_admit-ok}
use augecoin.Core.Mempool.Checks.{>>-ok, fail_if}
use augecoin.Core.Mempool.Methods.{
  remove_at, positions, drop_at, drop_all, remove_positions, rebuild_index, set_admin_pubkey,
  admissible, admitted,
}
use augecoin.Core.Mempool.Evict.{
  fronts_of, is_expired, is_evicted, is_committed, is_stale, names_sender, evict_with,
  evict_expired, drop_oldest, evict_lowest_priority, remove, clear, evict_all_for_sender,
  remove_committed, remove_stale,
}
use augecoin.Core.Mempool.Runs.{
  Step, sets_admin, admits, expires, shrinks, removes, clears, drops_stale, commits, quarantines,
  Reach, start, next,
}

length-remove_at : {A : Type 0} (i : ℕ) (xs : List A) → length (remove_at i xs) ≤ length xs
unfolding remove_at
length-remove_at i [] = omega arith
length-remove_at zero (x ∷ xs) = omega arith
length-remove_at (suc i) (x ∷ xs) = omega (arith, length-remove_at i xs)

-- The second pool has the settings of the first, and no more operations.
record IsSmaller (m m' : Mempool) : Type 0 where
  settings : m'.config ≡ m.config
  fewer : length m'.operations ≤ length m.operations

same-IsSmaller : (m : Mempool) → IsSmaller m m
same-IsSmaller m = record { settings = refl; fewer = omega arith }

then_-IsSmaller : {a b d : Mempool} → IsSmaller a b → IsSmaller b d → IsSmaller a d
then_-IsSmaller p q = record {
  settings = q.settings ∙ p.settings;
  fewer = omega (arith, p.fewer, q.fewer);
}

module _ (c : Crypto) where
  drop_at-IsSmaller : (i : ℕ) (m : Mempool) → IsSmaller m (drop_at c i m)
  unfolding drop_at
  drop_at-IsSmaller i m = elim (Option-cases (get_elem? m.operations i)) [
    | inl e ↦ rw (e, drop_at) (same-IsSmaller m)
    | inr (op, e) ↦
        rw (e, drop_at) (record { settings = refl; fewer = length-remove_at i m.operations })
  ]

  drop_all-IsSmaller : (is : List ℕ) (m : Mempool) → IsSmaller m (drop_all c is m)
  unfolding drop_all
  drop_all-IsSmaller [] m = same-IsSmaller m
  drop_all-IsSmaller (i ∷ is) m =
      then_-IsSmaller (drop_all-IsSmaller is m) (drop_at-IsSmaller i (drop_all c is m))

  remove_positions-IsSmaller : (is : List ℕ) (m : Mempool) → IsSmaller m (remove_positions c is m)
  unfolding remove_positions rebuild_index
  remove_positions-IsSmaller [] m = same-IsSmaller m
  remove_positions-IsSmaller (i ∷ is) m =
      let smaller = drop_all-IsSmaller (i ∷ is) m in
      record { settings = smaller.settings; fewer = smaller.fewer }

  drop_oldest-IsSmaller : (fuel : ℕ) (m : Mempool) → IsSmaller m (drop_oldest c fuel m).0
  unfolding drop_oldest
  drop_oldest-IsSmaller zero m = same-IsSmaller m
  drop_oldest-IsSmaller (suc fuel) m =
      elim (Bool-cases (ltb m.config.max_operations (length m.operations))) [
        | inl e ↦
            rw (e, drop_oldest)
              (then_-IsSmaller (drop_at-IsSmaller 0 m) (drop_oldest-IsSmaller fuel (drop_at c 0 m)))
        | inr e ↦ rw (e, drop_oldest) (same-IsSmaller m)
      ]

  evict_lowest_priority-IsSmaller : (m : Mempool) → IsSmaller m (evict_lowest_priority c m).0
  unfolding evict_lowest_priority rebuild_index
  evict_lowest_priority-IsSmaller m =
      let smaller = drop_oldest-IsSmaller (length m.operations) m in
      elim (Bool-cases (ltb 0 (drop_oldest c (length m.operations) m).1)) [
        | inl e ↦
            rw (e, evict_lowest_priority)
              (record { settings = smaller.settings; fewer = smaller.fewer })
        | inr e ↦ rw (e, evict_lowest_priority) smaller
      ]

  remove-IsSmaller : (m : Mempool) (sender n : ℕ) → IsSmaller m (remove c m sender n).0
  unfolding remove rebuild_index
  remove-IsSmaller m sender n = elim (Option-cases (nonce_lookup (sender, n) m.op_index)) [
    | inl e ↦ rw (e, remove) (same-IsSmaller m)
    | inr (idx, e) ↦ elim (Option-cases (get_elem? m.operations idx)) [
      | inl f ↦ rw (e, remove, f) (same-IsSmaller m)
      | inr (op, f) ↦
          let smaller = drop_at-IsSmaller idx m in
          rw (e, remove, f) (record { settings = smaller.settings; fewer = smaller.fewer })
    ]
  ]

  evict_with-IsSmaller : (is : List ℕ) (m : Mempool) → IsSmaller m (evict_with c is m).0
  unfolding evict_with
  evict_with-IsSmaller [] m = same-IsSmaller m
  evict_with-IsSmaller (i ∷ is) m =
      remove_positions-IsSmaller
        (positions (is_evicted (i ∷ is) (fronts_of m.operations (i ∷ is) [])) 0 m.operations) m

  evict_expired-IsSmaller : (m : Mempool) (now : ℕ) → IsSmaller m (evict_expired c m now).0
  unfolding evict_expired
  evict_expired-IsSmaller m now = elim (Bool-cases (m.config.ttl_seconds == 0)) [
    | inl e ↦ rw (e, evict_expired) (same-IsSmaller m)
    | inr e ↦
        rw (e, evict_expired)
          (evict_with-IsSmaller
            (positions (is_expired (now - m.config.ttl_seconds)) 0 m.admitted_at) m)
  ]

  -- The settings are those of the start, and there are no more operations than they allow.
  record IsBounded (config : MempoolConfig) (m : Mempool) : Type 0 where
    settings : m.config ≡ config
    few : length m.operations ≤ config.max_operations

  smaller-IsBounded :
      {config : MempoolConfig} {m m' : Mempool}
      → IsSmaller m m'
      → IsBounded config m
      → IsBounded config m'
  smaller-IsBounded s b = record {
    settings = s.settings ∙ b.settings;
    few = omega (arith, s.fewer, b.few);
  }

  admitted-IsBounded :
      (config : MempoolConfig) (db : AccountLookup) (m : Mempool) (op : Operation) (now : ℕ)
      → admissible c db m op ≡ ok tt
      → IsBounded config m
      → IsBounded config (admitted c db m op now)
  unfolding admissible admitted is_full
  admitted-IsBounded config db m op now passed b = record {
    settings = b.settings;
    few = omega (
      arith,
      length-append {0} m.operations (op ∷ []),
      below,
      ap (λ s. s.max_operations) b.settings,
    );
  }
    where
      below : length m.operations < m.config.max_operations
      below =
          let room : fail_if (is_full m) mempool_full ≡ ok tt = (>>-ok _ _ passed).0 in
          ground (arith, room)

  Step-IsBounded :
      {config : MempoolConfig} {m m' : Mempool}
      → Step c m m'
      → IsBounded config m
      → IsBounded config m'
  unfolding set_admin_pubkey clear remove_stale remove_committed evict_all_for_sender
  Step-IsBounded (sets_admin m key) b = record { settings = b.settings; few = b.few }
  Step-IsBounded {config} (admits db m op now h) b =
      let (passed, same) = validate_and_admit-ok c db m op now h in
      subst (IsBounded config) same (admitted-IsBounded config db m op now passed b)
  Step-IsBounded (expires m now) b = smaller-IsBounded (evict_expired-IsSmaller m now) b
  Step-IsBounded (shrinks m) b = smaller-IsBounded (evict_lowest_priority-IsSmaller m) b
  Step-IsBounded (removes m sender n) b = smaller-IsBounded (remove-IsSmaller m sender n) b
  Step-IsBounded (clears m) b = record { settings = b.settings; few = omega arith }
  Step-IsBounded (drops_stale db m) b =
      smaller-IsBounded (remove_positions-IsSmaller (positions (is_stale c db) 0 m.operations) m) b
  Step-IsBounded (commits m committed) b =
      smaller-IsBounded
        (remove_positions-IsSmaller (positions (is_committed c m committed) 0 m.operations) m) b
  Step-IsBounded (quarantines m sender) b =
      smaller-IsBounded
        (remove_positions-IsSmaller (positions (names_sender sender) 0 m.operations) m) b

  bounded : {config : MempoolConfig} {m : Mempool} → Reach c config m → IsBounded config m
  unfolding new
  bounded start = record { settings = refl; few = omega arith }
  bounded (next r st) = Step-IsBounded st (bounded r)

  drop_oldest-idle :
      (fuel : ℕ) (m : Mempool)
      → length m.operations ≤ m.config.max_operations
      → drop_oldest c fuel m ≡ (m, 0)
  unfolding drop_oldest
  drop_oldest-idle zero m h = refl
  drop_oldest-idle (suc fuel) m h = rw (within, drop_oldest) refl
    where
      within : ltb m.config.max_operations (length m.operations) ≡ false
      within = ground (arith, h)

  drop_first-length :
      (m : Mempool)
      → 0 < length m.operations
      → length (drop_at c 0 m).operations < length m.operations
  unfolding drop_at
  drop_first-length m some_left = shorter m.operations refl some_left
    where
      shorter :
          (ops : List Operation)
          → m.operations ≡ ops
          → 0 < length ops
          → length (drop_at c 0 m).operations < length ops
      shorter [] e h = absurd (omega (arith, h))
      shorter (op ∷ ops) e h = rw (e, drop_at, e, remove_at) (omega arith)

  -- As many rounds as there are operations are enough to come down to the limit.
  drop_oldest-within :
      (fuel : ℕ) (m : Mempool)
      → length m.operations ≤ fuel
      → length (drop_oldest c fuel m).0.operations ≤ m.config.max_operations
  unfolding drop_oldest
  drop_oldest-within zero m h = omega (arith, h)
  drop_oldest-within (suc fuel) m h =
      elim (Bool-cases (ltb m.config.max_operations (length m.operations))) [
        | inl e ↦
            let some_left : 0 < length m.operations = ground (arith, e) in
            let rest =
              drop_oldest-within fuel (drop_at c 0 m)
                (omega (arith, drop_first-length m some_left, h)) in
            rw (e, drop_oldest)
              (omega (arith, rest, ap (λ s. s.max_operations) (drop_at-IsSmaller 0 m).settings))
        | inr e ↦ rw (e, drop_oldest) (ground (arith, e))
      ]

  -- A pool that a new one becomes by its methods, in whatever order they are called, holds no more
  -- operations than its limit, so that `evict_lowest_priority` finds nothing to evict in it.
  pub Reach-IsBounded :
      {config : MempoolConfig} {m : Mempool}
      → Reach c config m
      → (length m.operations ≤ config.max_operations) × (evict_lowest_priority c m ≡ (m, 0))
  unfolding evict_lowest_priority
  Reach-IsBounded {config} {m} r =
      let b = bounded r in
      let idle =
        drop_oldest-idle (length m.operations) m
          (omega (arith, b.few, ap (λ s. s.max_operations) b.settings)) in
      (b.few, rw (evict_lowest_priority, idle) refl)
