-- ===== src/Core/Mempool/Admits.antt =====
-- crates/augecoin-core/src/mempool.rs, `validate_and_admit`: what an admitted operation has, and that
-- the pool with it is valid.
use augecoin.Base.{
  ℕ, suc, ◌+◌, ◌≡◌, refl, sym, subst, ap, ◌∙◌, false, none, some, List, [], ◌∷◌, ◌++◌,
  if◌then◌else◌, Bytes, bytes_eq, bytes_eq→eq, bytes_eq_refl, text_lookup, length, length-append,
  arith, ok, err, text_lookup-insert, Option-cases, inl, inr,
}
use augecoin.Crypto.{Crypto}
use augecoin.Core.Operation.{Operation}
use augecoin.Core.Block.Hash.{op_hash}
use augecoin.Core.Mempool.{AccountLookup, Mempool, payload_senders}
use augecoin.Core.Mempool.Methods.{
  Index, index_senders, index_from, no_index, absent, admissible, admitted, validate_and_admit,
}
use augecoin.Core.Mempool.Checks.{Check, >>-ok}
use augecoin.Core.Mempool.Invariant.{find_hash, Distinct, IsValid}

index_from-append :
    (k j : ℕ) (ops : List Operation) (op : Operation) (i : Index)
    → k + length ops ≡ j
    → index_from k (ops ++ (op ∷ [])) i
      ≡ index_senders j (payload_senders op.payload) (index_from k ops i)
unfolding index_from
index_from-append k j [] op i e =
    let same : k ≡ j = omega (arith, e) in
    ap (λ n. index_senders n (payload_senders op.payload) i) same
index_from-append k j (x ∷ xs) op i e =
    index_from-append (suc k) j xs op (index_senders k (payload_senders x.payload) i) (omega arith)

module _ (c : Crypto) where
  find_hash-append :
      (h : Bytes) (ops : List Operation) (op : Operation)
      → find_hash c (op_hash c op) ops ≡ none
      → find_hash c h (ops ++ (op ∷ []))
        ≡ (if bytes_eq h (op_hash c op) then some op else find_hash c h ops)
  find_hash-append h [] op e = refl
  find_hash-append h (x ∷ xs) op e =
      ground (arith, find_hash-append h xs op, bytes_eq→eq h (op_hash c op))

  absent-append :
      (h : Bytes) (ops : List Operation) (op : Operation)
      → find_hash c h ops ≡ none
      → bytes_eq h (op_hash c op) ≡ false
      → find_hash c h (ops ++ (op ∷ [])) ≡ none
  absent-append h [] op e other = rw other
  absent-append h (x ∷ xs) op e other = ground (arith, absent-append h xs op)

  Distinct-append :
      (ops : List Operation) (op : Operation)
      → find_hash c (op_hash c op) ops ≡ none
      → Distinct c ops
      → Distinct c (ops ++ (op ∷ []))
  Distinct-append [] op e d = (refl, tt)
  Distinct-append (x ∷ xs) op e d =
      (absent-append (op_hash c x) xs op d.0 apart, Distinct-append xs op behind d.1)
    where
      apart : bytes_eq (op_hash c x) (op_hash c op) ≡ false
      apart =
          ground (arith, e, bytes_eq→eq (op_hash c x) (op_hash c op), bytes_eq_refl (op_hash c op))

      behind : find_hash c (op_hash c op) xs ≡ none
      behind = ground (arith, e)

  admitted-IsValid :
      (db : AccountLookup) (m : Mempool) (op : Operation) (now : ℕ)
      → find_hash c (op_hash c op) m.operations ≡ none
      → IsValid c m
      → IsValid c (admitted c db m op now)
  unfolding admitted
  admitted-IsValid db m op now fresh v = record {
    lists = record {
      aligned = omega (
        arith,
        length-append {0} m.operations (op ∷ []),
        length-append {0} m.admitted_at (now ∷ []),
        v.lists.aligned,
      );
      distinct = Distinct-append m.operations op fresh v.lists.distinct;
      resident = λ h.
          text_lookup-insert h (op_hash c op) op m.by_hash
          ∙ (rw (v.lists.resident h) refl ∙ sym (find_hash-append h m.operations op fresh));
    };
    indexed =
        ap (index_senders (length m.operations) (payload_senders op.payload)) v.indexed
        ∙ sym (index_from-append 0 (length m.operations) m.operations op no_index (omega arith));
  }

  -- An operation that is admitted has a hash that no pending one has.
  pub admissible-absent :
      (db : AccountLookup) (m : Mempool) (op : Operation)
      → admissible c db m op ≡ ok tt
      → text_lookup (op_hash c op) m.by_hash ≡ none
  unfolding admissible
  admissible-absent db m op h =
      let room = >>-ok _ _ h in
      let chain = >>-ok _ _ room.1 in
      let fresh = >>-ok _ _ chain.1 in
      elim (Option-cases (text_lookup (op_hash c op) m.by_hash)) [
        | inl e ↦ e
        | inr (o, e) ↦ absurd (present o e fresh.0)
      ]
    where
      present :
          (o : Operation)
          → text_lookup (op_hash c op) m.by_hash ≡ some o
          → absent c db (op_hash c op) m ≡ ok tt
          → ⊥
      present o e p = ground (arith, e, p)

  settled :
      (r : Check (Unit {0})) (a : Mempool) {b : Mempool}
      → elim r as (λ _. Check Mempool) [ err e ↦ err e | ok _ ↦ ok a ] ≡ ok b
      → (r ≡ ok tt) × (a ≡ b)
  settled (ok _) a h = (refl, cc)
  settled (err e) a h = cc

  -- What is admitted passed the checks, and the pool is the one with the operation at the end.
  pub validate_and_admit-ok :
      (db : AccountLookup) (m : Mempool) (op : Operation) (now : ℕ) {m' : Mempool}
      → validate_and_admit c db m op now ≡ ok m'
      → (admissible c db m op ≡ ok tt) × (admitted c db m op now ≡ m')
  unfolding validate_and_admit
  validate_and_admit-ok db m op now h = settled (admissible c db m op) (admitted c db m op now) h

  pub validate_and_admit-IsValid :
      (db : AccountLookup) (m : Mempool) (op : Operation) (now : ℕ) {m' : Mempool}
      → IsValid c m
      → validate_and_admit c db m op now ≡ ok m'
      → IsValid c m'
  validate_and_admit-IsValid db m op now v h =
      let (passed, same) = validate_and_admit-ok db m op now h in
      let fresh : find_hash c (op_hash c op) m.operations ≡ none =
        sym (v.lists.resident (op_hash c op)) ∙ admissible-absent db m op passed in
      subst (IsValid c) same (admitted-IsValid db m op now fresh v)
