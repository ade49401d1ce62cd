-- ===== src/Consensus/Validator/Invariant.antt =====
-- The invariant of the validator set, which every operation that admits a change keeps: ids are
-- distinct and below the next id, and one validator is active.
use augecoin.Base.{
  ℕ, ◌+◌, ◌≤◌, ◌<◌, ◌≡◌, refl, false, ◌&&◌, ◌≢◌, List, [], ◌∷◌, ◌++◌, ◌==◌, length, filter, any,
  find, arith, some, inl, inr, Bool-cases,
}
use augecoin.Consensus.Validator.{
  ValidatorStatus, ValidatorInfo, ValidatorSet, is_active, has_id, set_status, retain_others,
}

-- No validator of the list has the id.
abbrev pub IsFresh : ℕ → List ValidatorInfo → Type 0
IsFresh id [] = Unit
IsFresh id (v ∷ vs) = (v.id ≢ id) × IsFresh id vs

abbrev pub IsDistinct : List ValidatorInfo → Type 0
IsDistinct [] = Unit
IsDistinct (v ∷ vs) = IsFresh v.id vs × IsDistinct vs

abbrev pub IsBelow : ℕ → List ValidatorInfo → Type 0
IsBelow n [] = Unit
IsBelow n (v ∷ vs) = (v.id < n) × IsBelow n vs

pub record IsValid (s : ValidatorSet) : Type 0 where
  pub distinct : IsDistinct s.validators
  pub below : IsBelow s.next_validator_id s.validators
  pub live : 1 ≤ length (filter is_active s.validators)

-- appending the validator with the next id
pub IsFresh-append :
    (id : ℕ) (vs : List ValidatorInfo) (v : ValidatorInfo)
    → IsFresh id vs
    → v.id ≢ id
    → IsFresh id (vs ++ v ∷ [])
IsFresh-append id [] v h ne = (ne, tt)
IsFresh-append id (w ∷ vs) v h ne = (h.0, IsFresh-append id vs v h.1 ne)

pub IsDistinct-append :
    (vs : List ValidatorInfo) (v : ValidatorInfo)
    → IsDistinct vs
    → IsBelow v.id vs
    → IsDistinct (vs ++ v ∷ [])
IsDistinct-append [] v d b = (tt, tt)
IsDistinct-append (w ∷ vs) v d b =
    (IsFresh-append w.id vs v d.0 (omega arith), IsDistinct-append vs v d.1 b.1)

pub IsBelow-append :
    (n : ℕ) (vs : List ValidatorInfo) (v : ValidatorInfo)
    → IsBelow n vs
    → v.id ≡ n
    → IsBelow (n + 1) (vs ++ v ∷ [])
IsBelow-append n [] v b e = (omega arith, tt)
IsBelow-append n (w ∷ vs) v b e = (omega arith, IsBelow-append n vs v b.1 e)

pub active-append-le :
    (vs ws : List ValidatorInfo)
    → length (filter is_active vs) ≤ length (filter is_active (vs ++ ws))
active-append-le [] ws = omega arith
active-append-le (v ∷ vs) ws = elim (Bool-cases (is_active v)) [
  | inl a ↦ rw a (omega (arith, active-append-le vs ws))
  | inr a ↦ rw a (omega (arith, active-append-le vs ws))
]

-- removing an id
IsFresh-retain :
    (k id : ℕ) (vs : List ValidatorInfo) → IsFresh k vs → IsFresh k (retain_others id vs)
unfolding retain_others
IsFresh-retain k id [] h = tt
IsFresh-retain k id (v ∷ vs) h = ground (arith, IsFresh-retain k id vs h.1)

pub IsDistinct-retain :
    (id : ℕ) (vs : List ValidatorInfo) → IsDistinct vs → IsDistinct (retain_others id vs)
unfolding retain_others
IsDistinct-retain id [] h = tt
IsDistinct-retain id (v ∷ vs) h =
    ground (arith, IsDistinct-retain id vs h.1, IsFresh-retain v.id id vs h.0)

pub IsBelow-retain :
    (n id : ℕ) (vs : List ValidatorInfo) → IsBelow n vs → IsBelow n (retain_others id vs)
unfolding retain_others
IsBelow-retain n id [] h = tt
IsBelow-retain n id (v ∷ vs) h = ground (arith, IsBelow-retain n id vs h.1)

retain_others_fresh : (id : ℕ) (vs : List ValidatorInfo) → IsFresh id vs → retain_others id vs ≡ vs
unfolding retain_others
retain_others_fresh id [] h = refl
retain_others_fresh id (v ∷ vs) h = ground (arith, retain_others_fresh id vs h.1)

-- Removing an id takes one active validator away at most, and none if the id has no active one.
pub active-retain :
    (id : ℕ) (vs : List ValidatorInfo)
    → IsDistinct vs
    → (length (filter is_active vs) ≤ length (filter is_active (retain_others id vs)) + 1)
      × (any (λ v. has_id id v && is_active v) vs ≡ false
          → length (filter is_active vs) ≤ length (filter is_active (retain_others id vs)))
unfolding retain_others
active-retain id [] d = (omega arith, λ _. omega arith)
active-retain id (v ∷ vs) d = elim (Bool-cases (v.id == id)) [
  | inl same ↦
      let e : v.id ≡ id = ground arith in
      let gone : retain_others id vs ≡ vs = retain_others_fresh id vs (rw e at d.0) in
      rw (same, gone) (ground arith, ground arith)
  | inr other ↦
      let (one, all) = active-retain id vs d.1 in
      rw other (elim (Bool-cases (is_active v)) [
        | inl a ↦ rw a (omega arith, λ h. omega (arith, all h))
        | inr a ↦ rw a (omega arith, λ h. omega (arith, all h))
      ])
]

-- setting a status
pub IsFresh-set :
    (k id : ℕ) (st : ValidatorStatus) (vs : List ValidatorInfo)
    → IsFresh k vs
    → IsFresh k (set_status id st vs)
unfolding set_status
IsFresh-set k id st [] h = tt
IsFresh-set k id st (v ∷ vs) h = ground (arith, IsFresh-set k id st vs h.1)

pub IsDistinct-set :
    (id : ℕ) (st : ValidatorStatus) (vs : List ValidatorInfo)
    → IsDistinct vs
    → IsDistinct (set_status id st vs)
unfolding set_status
IsDistinct-set id st [] h = tt
IsDistinct-set id st (v ∷ vs) h =
    ground (arith, IsDistinct-set id st vs h.1, IsFresh-set v.id id st vs h.0)

pub IsBelow-set :
    (n id : ℕ) (st : ValidatorStatus) (vs : List ValidatorInfo)
    → IsBelow n vs
    → IsBelow n (set_status id st vs)
unfolding set_status
IsBelow-set n id st [] h = tt
IsBelow-set n id st (v ∷ vs) h = ground (arith, IsBelow-set n id st vs h.1)

-- Activation never lowers the number of active validators.
pub active-activate-le :
    (id : ℕ) (vs : List ValidatorInfo)
    → length (filter is_active vs)
      ≤ length (filter is_active (set_status id ValidatorStatus.active vs))
unfolding set_status
active-activate-le id [] = omega arith
active-activate-le id (v ∷ vs) = elim (Bool-cases (v.id == id)) [
  | inl same ↦ ground arith
  | inr other ↦ ground (arith, active-activate-le id vs)
]

-- Deactivation lowers it by one at most, and not where the validator that is found is not active.
pub active-deactivate :
    (id : ℕ) (vs : List ValidatorInfo) (w : ValidatorInfo)
    → find (has_id id) vs ≡ some w
    → (length (filter is_active vs)
        ≤ length (filter is_active (set_status id ValidatorStatus.inactive vs)) + 1)
      × (is_active w ≡ false
          → length (filter is_active vs)
            ≤ length (filter is_active (set_status id ValidatorStatus.inactive vs)))
unfolding set_status
active-deactivate id [] w f = cc
active-deactivate id (v ∷ vs) w f = elim (Bool-cases (v.id == id)) [
  | inl same ↦ ground arith
  | inr other ↦
      let (one, all) = active-deactivate id vs w (ground arith) in
      rw other (elim (Bool-cases (is_active v)) [
        | inl a ↦ rw a (omega arith, λ h. omega (arith, all h))
        | inr a ↦ rw a (omega arith, λ h. omega (arith, all h))
      ])
]
