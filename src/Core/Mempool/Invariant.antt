-- ===== src/Core/Mempool/Invariant.antt =====
-- crates/augecoin-core/src/mempool.rs: what every method keeps of the lists and the indexes.
use augecoin.Base.{
  ℕ, zero, suc, ◌≡◌, ◌≢◌, refl, sym, ◌∙◌, Option, none, some, List, [], ◌∷◌, if◌then◌else◌, Bytes,
  bytes_eq, bytes_eq→eq, bytes_eq_refl, get_elem?, length, find, arith, text_lookup,
  text_lookup-remove_any, Option-cases, inl, inr,
}
use augecoin.Crypto.{Crypto}
use augecoin.Core.Operation.{Operation}
use augecoin.Core.Block.Hash.{op_hash}
use augecoin.Core.Mempool.{Mempool}
use augecoin.Core.Mempool.Methods.{
  index_from, no_index, index_of, remove_at, drop_at, drop_all, remove_positions, rebuild_index,
}

length-remove_at_both :
    {A B : Type 0} (i : ℕ) (xs : List A) (ys : List B)
    → length xs ≡ length ys
    → length (remove_at i xs) ≡ length (remove_at i ys)
unfolding remove_at
length-remove_at_both i [] [] e = refl
length-remove_at_both i [] (y ∷ ys) e = absurd (omega arith)
length-remove_at_both i (x ∷ xs) [] e = absurd (omega arith)
length-remove_at_both zero (x ∷ xs) (y ∷ ys) e = omega arith
length-remove_at_both (suc i) (x ∷ xs) (y ∷ ys) e =
    omega (arith, length-remove_at_both i xs ys (omega arith))

module _ (c : Crypto) where
  -- The first operation with the hash.
  abbrev pub find_hash : Bytes → List Operation → Option Operation
  find_hash h ops = find (λ op. bytes_eq h (op_hash c op)) ops

  -- No two operations have one hash.
  abbrev pub Distinct : List Operation → Type 0
  Distinct [] = Unit
  Distinct (op ∷ ops) = (find_hash (op_hash c op) ops ≡ none) × Distinct ops

  -- The lists go together, no two operations have one hash, and `by_hash` finds exactly the pending
  -- operations.
  pub record IsResident (m : Mempool) : Type 0 where
    pub aligned : length m.admitted_at ≡ length m.operations
    pub distinct : Distinct m.operations
    pub resident : (h : Bytes) → text_lookup h m.by_hash ≡ find_hash h m.operations

  -- The other indexes are those that `rebuild_index` builds from the operations.
  pub record IsValid (m : Mempool) : Type 0 where
    pub lists : IsResident m
    pub indexed : index_of m ≡ index_from 0 m.operations no_index

  find_hash-present :
      (ops : List Operation) (i : ℕ) {op : Operation}
      → get_elem? ops i ≡ some op
      → find_hash (op_hash c op) ops ≢ none
  find_hash-present [] i e = ground arith
  find_hash-present (x ∷ xs) zero e = ground (arith, bytes_eq_refl (op_hash c x))
  find_hash-present (x ∷ xs) (suc i) e = ground (arith, find_hash-present xs i e)

  pub find_hash-remove_at :
      (h : Bytes) (ops : List Operation) (i : ℕ) {op : Operation}
      → Distinct ops
      → get_elem? ops i ≡ some op
      → find_hash h (remove_at i ops)
        ≡ (if bytes_eq h (op_hash c op) then none else find_hash h ops)
  unfolding remove_at
  find_hash-remove_at h [] i d e = ground arith
  find_hash-remove_at h (x ∷ xs) zero {op} d e = ground (arith, bytes_eq→eq h (op_hash c x), d.0)
  find_hash-remove_at h (x ∷ xs) (suc i) {op} d e = ground (
    arith,
    find_hash-remove_at h xs i d.1 e,
    find_hash-present xs i e,
    bytes_eq→eq h (op_hash c x),
    bytes_eq→eq h (op_hash c op),
    d.0,
  )

  absent-remove_at :
      (h : Bytes) (ops : List Operation) (i : ℕ)
      → find_hash h ops ≡ none
      → find_hash h (remove_at i ops) ≡ none
  unfolding remove_at
  absent-remove_at h [] i e = e
  absent-remove_at h (x ∷ xs) zero e = ground arith
  absent-remove_at h (x ∷ xs) (suc i) e = ground (arith, absent-remove_at h xs i)

  Distinct-remove_at : (ops : List Operation) (i : ℕ) → Distinct ops → Distinct (remove_at i ops)
  unfolding remove_at
  Distinct-remove_at [] i d = tt
  Distinct-remove_at (x ∷ xs) zero d = d.1
  Distinct-remove_at (x ∷ xs) (suc i) d =
      (absent-remove_at (op_hash c x) xs i d.0, Distinct-remove_at xs i d.1)

  pub drop_at-IsResident : (i : ℕ) (m : Mempool) → IsResident m → IsResident (drop_at c i m)
  unfolding drop_at
  drop_at-IsResident i m v = elim (Option-cases (get_elem? m.operations i)) [
    | inl e ↦ rw (e, drop_at) v
    | inr (op, e) ↦
        rw (e, drop_at)
          (record {
            aligned = length-remove_at_both i m.admitted_at m.operations v.aligned;
            distinct = Distinct-remove_at m.operations i v.distinct;
            resident = λ h.
                text_lookup-remove_any h (op_hash c op) m.by_hash
                ∙ (rw (v.resident h) refl
                    ∙ sym (find_hash-remove_at h m.operations i v.distinct e));
          })
  ]

  drop_all-IsResident : (is : List ℕ) (m : Mempool) → IsResident m → IsResident (drop_all c is m)
  unfolding drop_all
  drop_all-IsResident [] m v = v
  drop_all-IsResident (i ∷ is) m v =
      drop_at-IsResident i (drop_all c is m) (drop_all-IsResident is m v)

  pub rebuild_index-IsValid : (m : Mempool) → IsResident m → IsValid (rebuild_index m)
  unfolding rebuild_index
  rebuild_index-IsValid m v = record {
    lists = record { aligned = v.aligned; distinct = v.distinct; resident = v.resident };
    indexed = refl;
  }

  -- Whatever positions are removed, the pool stays valid.
  pub remove_positions-IsValid :
      (is : List ℕ) (m : Mempool) → IsValid m → IsValid (remove_positions c is m)
  unfolding remove_positions
  remove_positions-IsValid [] m v = v
  remove_positions-IsValid (i ∷ is) m v =
      rebuild_index-IsValid (drop_all c (i ∷ is) m) (drop_all-IsResident (i ∷ is) m v.lists)
