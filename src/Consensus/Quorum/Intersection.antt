-- ===== src/Consensus/Quorum/Intersection.antt =====
-- Two quorums of one validator set share a validator.
use augecoin.Base.{
  ℕ, ◌+◌, ◌≤◌, ◌<◌, ◌≡◌, refl, sym, ap, ◌∙◌, Bool, true, false, ◌&&◌, ◌≢◌, ◌⊎◌, inl, inr, Option,
  none, some, List, [], ◌∷◌, ◌==◌, Bytes, length, filter, any, find, arith, Bool-cases,
  Option-cases,
}
use augecoin.Crypto.{Crypto}
use augecoin.Consensus.Validator.{ValidatorInfo, ValidatorSet, is_active, active_validators}
use augecoin.Consensus.Validator.Invariant.{IsFresh, IsDistinct}
use augecoin.Consensus.Quorum.{
  quorum_threshold, contains_id, insert_id, collect_by, first_signer, collect_signers,
  verify_quorum,
}
use augecoin.Consensus.Quorum.Counting.{In, IsNodup, IsCovered, count_meet, length-le-count}

abbrev pub vid : ValidatorInfo → ℕ
vid v = v.id

-- The key is well formed and the signature verifies under it.
abbrev pub verifies : Crypto → Bytes → Bytes → ValidatorInfo → Bool
verifies c message sig v =
    c.valid_key v.ed25519_public_key && c.verify v.ed25519_public_key sig message

-- A validator of the list with the id, and one of the signatures, which verifies under its key.
pub record IsSigned (c : Crypto) (message : Bytes) (vs : List ValidatorInfo) (sigs : List Bytes)
    (id : ℕ) : Type 0 where
  pub validator : ValidatorInfo
  pub signature : Bytes
  pub listed : In validator vs
  pub given : In signature sigs
  pub same_id : validator.id ≡ id
  pub valid : verifies c message signature validator ≡ true

find-In :
    {A : Type 0} (p : A → Bool) (xs : List A) (x : A) → find p xs ≡ some x → In x xs × (p x ≡ true)
find-In p [] x f = cc
find-In p (y ∷ ys) x f = elim (Bool-cases (p y)) [
  | inl here ↦ ground arith
  | inr there ↦ let (i, h) = find-In p ys x (ground arith) in (inr i, h)
]

any_of_In :
    (vs : List ValidatorInfo) (v : ValidatorInfo) → In v vs → any (λ w. vid w == v.id) vs ≡ true
any_of_In [] v i = absurd i
any_of_In (w ∷ vs) v (inl e) = ground arith
any_of_In (w ∷ vs) v (inr i) = ground (arith, any_of_In vs v i)

module _ (c : Crypto) (message : Bytes) (vs : List ValidatorInfo) where
  -- the validator that `sig` is of, if any
  abbrev pub pick : Bytes → Option ValidatorInfo
  pick sig = find (verifies c message sig) vs

  -- What holds of the ids that are collected.
  pub record AreSigners (sigs : List Bytes) (ids : List ℕ) : Type 0 where
    pub nodup : IsNodup ids
    pub covered : IsCovered vid ids vs
    pub signed : (id : ℕ) → contains_id ids id ≡ true → IsSigned c message vs sigs id

  insert_id-AreSigners :
      (sigs : List Bytes) (sig : Bytes) (v : ValidatorInfo) (ids : List ℕ)
      → In sig sigs
      → pick sig ≡ some v
      → AreSigners sigs ids
      → AreSigners sigs (insert_id v.id ids)
  unfolding insert_id
  insert_id-AreSigners sigs sig v ids i f a = elim (Bool-cases (contains_id ids v.id)) [
    | inl old ↦ rw old a
    | inr new ↦
        let (listed, valid) = find-In (verifies c message sig) vs v f in
        rw new (record {
          nodup = (new, a.nodup);
          covered = (any_of_In vs v listed, a.covered);
          signed = λ id h. inserted id (Bool-cases (v.id == id)) h listed valid;
        })
  ]
    where
      inserted :
          (id : ℕ)
          → ((v.id == id) ≡ true) ⊎ ((v.id == id) ≡ false)
          → contains_id (v.id ∷ ids) id ≡ true
          → In v vs
          → verifies c message sig v ≡ true
          → IsSigned c message vs sigs id
      inserted id (inl same) h listed valid = record {
        validator = v;
        signature = sig;
        listed = listed;
        given = i;
        same_id = ground arith;
        valid = valid;
      }
      inserted id (inr other) h listed valid = a.signed id (ground arith)

  collect_by-AreSigners :
      (all sigs : List Bytes) (ids : List ℕ)
      → ((sig : Bytes) → In sig sigs → In sig all)
      → AreSigners all ids
      → AreSigners all (collect_by pick sigs ids)
  unfolding collect_by
  collect_by-AreSigners all [] ids sub a = a
  collect_by-AreSigners all (sig ∷ sigs) ids sub a = elim (Option-cases (pick sig)) [
    | inl nobody ↦ rw nobody (collect_by-AreSigners all sigs ids (λ x h. sub x (inr h)) a)
    | inr (v, found) ↦ rw found (
        collect_by-AreSigners all sigs (insert_id v.id ids) (λ x h. sub x (inr h))
          (insert_id-AreSigners all sig v ids (sub sig (inl refl)) found a))
  ]

  -- The collected ids are distinct, each of a listed validator, each with a signature that
  -- verifies under that validator's key.
  pub signers-AreSigners : (sigs : List Bytes) → AreSigners sigs (collect_by pick sigs [])
  unfolding contains_id
  signers-AreSigners sigs =
      collect_by-AreSigners sigs sigs [] (λ sig h. h)
        (record { nodup = tt; covered = tt; signed = λ id h. no_id id h })
    where
      no_id : (id : ℕ) → contains_id [] id ≡ true → IsSigned c message vs sigs id
      no_id id h = cc

  -- Where the loop of `verify_quorum` does not panic, it finds what a search finds that passes
  -- over malformed keys.
  first_signer-pick :
      (ws : List ValidatorInfo) (sig : Bytes) (r : Option ValidatorInfo)
      → first_signer c sig message ws ≡ some r
      → find (verifies c message sig) ws ≡ r
  unfolding first_signer
  first_signer-pick [] sig r h = ground arith
  first_signer-pick (w ∷ ws) sig r h = ground (arith, first_signer-pick ws sig r)

  pub collect_signers-collect_by :
      (sigs : List Bytes) (ids r : List ℕ)
      → collect_signers c message vs sigs ids ≡ some r
      → collect_by pick sigs ids ≡ r
  unfolding collect_signers collect_by
  collect_signers-collect_by [] ids r h = ground arith
  collect_signers-collect_by (sig ∷ sigs) ids r h =
      elim (Option-cases (first_signer c sig message vs)) [
        | inl panic ↦ absurd (none_not_some (rw (panic, collect_signers) at h))
        | inr (none, e) ↦
            rw (first_signer-pick vs sig none e)
              (collect_signers-collect_by sigs ids r (rw (e, collect_signers) at h))
        | inr (some v, e) ↦
            rw (first_signer-pick vs sig (some v) e) (
              collect_signers-collect_by sigs (insert_id v.id ids) r (rw (e, collect_signers) at h))
      ]
    where
      none_not_some : ◌≡◌ {A = Option (List ℕ)} none (some r) → ⊥
      none_not_some p = cc

In-filter :
    (p : ValidatorInfo → Bool) (vs : List ValidatorInfo) (v : ValidatorInfo)
    → In v (filter p vs)
    → In v vs
In-filter p [] v i = i
In-filter p (w ∷ vs) v i = elim (Bool-cases (p w)) [
  | inl kept ↦ elim (filtered kept i) [ inl e ↦ inl e | inr j ↦ inr (In-filter p vs v j) ]
  | inr gone ↦ inr (In-filter p vs v (rw gone at i))
]
  where
    filtered : p w ≡ true → In v (filter p (w ∷ vs)) → (v ≡ w) ⊎ In v (filter p vs)
    filtered kept j = rw kept at j

IsFresh-In :
    (id : ℕ) (vs : List ValidatorInfo) (v : ValidatorInfo) → IsFresh id vs → In v vs → v.id ≢ id
IsFresh-In id [] v f i = absurd i
IsFresh-In id (w ∷ vs) v f (inl e) = rw e f.0
IsFresh-In id (w ∷ vs) v f (inr i) = IsFresh-In id vs v f.1 i

-- In a list with distinct ids an id names one validator.
same_validator :
    (vs : List ValidatorInfo) (v w : ValidatorInfo)
    → IsDistinct vs
    → In v vs
    → In w vs
    → v.id ≡ w.id
    → v ≡ w
same_validator [] v w d i j e = absurd i
same_validator (u ∷ vs) v w d (inl p) (inl q) e = p ∙ sym q
same_validator (u ∷ vs) v w d (inl p) (inr j) e =
    absurd (IsFresh-In u.id vs w d.0 j (sym e ∙ ap vid p))
same_validator (u ∷ vs) v w d (inr i) (inl q) e = absurd (IsFresh-In u.id vs v d.0 i (e ∙ ap vid q))
same_validator (u ∷ vs) v w d (inr i) (inr j) e = same_validator vs v w d.1 i j e

-- Two thresholds are more than there are validators.
two_thresholds : (n : ℕ) → 1 ≤ n → n < quorum_threshold n + quorum_threshold n
unfolding quorum_threshold
two_thresholds n h = ground arith

-- A signature of the list that verifies under the key of the validator.
abbrev pub HasSigned : Crypto → Bytes → List Bytes → ValidatorInfo → Type 0
HasSigned c message sigs v = (sig : Bytes) × In sig sigs × (verifies c message sig v ≡ true)

module _ (c : Crypto) (s : ValidatorSet) (h₁ h₂ : Bytes) (sigs₁ sigs₂ : List Bytes) where
  abbrev active : List ValidatorInfo
  active = filter is_active s.validators

  -- Two sets of signers that each reach the threshold share a validator.
  pub signers_meet :
      IsDistinct s.validators
      → 1 ≤ length active
      → quorum_threshold (length active) ≤ length (collect_by (pick c h₁ active) sigs₁ [])
      → quorum_threshold (length active) ≤ length (collect_by (pick c h₂ active) sigs₂ [])
      → (v : ValidatorInfo) × In v active × HasSigned c h₁ sigs₁ v × HasSigned c h₂ sigs₂ v
  signers_meet d some_active q₁ q₂ =
      let ids₁ = collect_by (pick c h₁ active) sigs₁ [] in
      let ids₂ = collect_by (pick c h₂ active) sigs₂ [] in
      let a₁ = signers-AreSigners c h₁ active sigs₁ in
      let a₂ = signers-AreSigners c h₂ active sigs₂ in
      let n₁ = length-le-count vid ids₁ active a₁.nodup a₁.covered in
      let n₂ = length-le-count vid ids₂ active a₂.nodup a₂.covered in
      let (u, i, p, q) =
        count_meet (λ v. contains_id ids₁ (vid v)) (λ v. contains_id ids₂ (vid v)) active
          (omega (arith, two_thresholds (length active) some_active, n₁, n₂)) in
      let x₁ = a₁.signed u.id p in
      let x₂ = a₂.signed u.id q in
      let e =
        same_validator s.validators x₁.validator x₂.validator d
          (In-filter is_active s.validators x₁.validator x₁.listed)
          (In-filter is_active s.validators x₂.validator x₂.listed) (x₁.same_id ∙ sym x₂.same_id) in
      (
        x₁.validator,
        x₁.listed,
        (x₁.signature, x₁.given, x₁.valid),
        (x₂.signature, x₂.given, rw e x₂.valid),
      )

-- A quorum that `verify_quorum` accepts is one of the ids that the search collects.
verify_quorum-true :
    (c : Crypto) (sigs : List Bytes) (s : ValidatorSet) (h : Bytes)
    → verify_quorum c sigs s h ≡ some true
    → let vs = filter is_active s.validators in
      quorum_threshold (length vs) ≤ length (collect_by (pick c h vs) sigs [])
unfolding verify_quorum active_validators
verify_quorum-true c sigs s h e =
    elim (Option-cases (collect_signers c h (filter is_active s.validators) sigs [])) [
      | inl panic ↦ absurd (ground arith)
      | inr (ids, collected) ↦
          rw (collect_signers-collect_by c h (filter is_active s.validators) sigs [] ids collected)
            (ground arith)
    ]

-- Two messages that `verify_quorum` accepts under one validator set with distinct ids and an active
-- validator have a common signer: one active validator under whose key a signature of each list
-- verifies, of the one message and of the other.
pub verify_quorum-share :
    (c : Crypto) (s : ValidatorSet) (h₁ h₂ : Bytes) (sigs₁ sigs₂ : List Bytes)
    → IsDistinct s.validators
    → 1 ≤ length (active_validators s)
    → verify_quorum c sigs₁ s h₁ ≡ some true
    → verify_quorum c sigs₂ s h₂ ≡ some true
    → (v : ValidatorInfo) × In v (active_validators s)
      × HasSigned c h₁ sigs₁ v
      × HasSigned c h₂ sigs₂ v
unfolding active_validators
verify_quorum-share c s h₁ h₂ sigs₁ sigs₂ d some_active e₁ e₂ =
    signers_meet c s h₁ h₂ sigs₁ sigs₂ d some_active (verify_quorum-true c sigs₁ s h₁ e₁)
      (verify_quorum-true c sigs₂ s h₂ e₂)
