-- ===== src/Consensus/Validator/Changes.antt =====
-- crates/augecoin-consensus/src/validator.rs: what the operations of the admin do to the invariant of
-- the validator set, one by one.
use augecoin.Base.{
  ℕ, ◌+◌, ◌⊎◌, none, Result, ◌≤◌, ◌<◌, ◌≡◌, refl, true, false, ◌&&◌, List, [], ◌∷◌, leb, ◌==◌,
  length, filter, any, find, arith, u64_max, wrapping_add, Bytes, some, inl, inr, OnOk, OnOk-map,
  Bool-cases, Option-cases,
}
use augecoin.Core.Operation.{ValidatorAdminOp}
use augecoin.Consensus.Validator.{
  ValidatorStatus, ValidatorInfo, ValidatorSet, is_active, has_id, active_validators, set_status,
  status_at, retain_others, is_last_active, apply_admin_op, ValidatorSetError,
}
use augecoin.Consensus.Validator.Invariant.{
  IsValid, IsDistinct, IsBelow, IsDistinct-append, IsBelow-append, active-append-le,
  IsDistinct-retain, IsBelow-retain, active-retain, IsDistinct-set, IsBelow-set, active-activate-le,
  active-deactivate,
}

-- An activation at a later height of the only active validator. No other operation is one.
abbrev pub Postpones : ValidatorAdminOp → ℕ → ValidatorSet → Type 0
Postpones (ValidatorAdminOp.add key h) current_height s = ⊥
Postpones (ValidatorAdminOp.remove id h) current_height s = ⊥
Postpones (ValidatorAdminOp.activate id h) current_height s =
    (current_height < h) × (is_last_active id s ≡ true)
Postpones (ValidatorAdminOp.deactivate id h) current_height s = ⊥

-- What an accepted operation makes of a set: the ids are distinct and below the next id, and there is
-- an active validator, except for the activation that postpones the last one.
abbrev pub Kept : ValidatorAdminOp → ℕ → ValidatorSet → ValidatorSet → Type 0
Kept op current_height s s' =
    IsDistinct s'.validators
    × IsBelow s'.next_validator_id s'.validators
    × ((1 ≤ length (active_validators s')) ⊎ Postpones op current_height s)

wrapping_add_one : (n : ℕ) → n < u64_max → wrapping_add n 1 ≡ n + 1
unfolding wrapping_add
wrapping_add_one n h = omega arith

pub any_of_find :
    (id : ℕ) (vs : List ValidatorInfo) (w : ValidatorInfo)
    → find (has_id id) vs ≡ some w
    → any (has_id id) vs ≡ true
any_of_find id [] w f = cc
any_of_find id (v ∷ vs) w f = ground (arith, any_of_find id vs w)

any_active_of_find :
    (id : ℕ) (vs : List ValidatorInfo) (w : ValidatorInfo)
    → find (has_id id) vs ≡ some w
    → is_active w ≡ true
    → any (λ v. has_id id v && is_active v) vs ≡ true
any_active_of_find id [] w f a = cc
any_active_of_find id (v ∷ vs) w f a = elim (Bool-cases (v.id == id)) [
  | inl same ↦ ground arith
  | inr other ↦ ground (arith, any_active_of_find id vs w)
]

none_of_find :
    (id : ℕ) (vs : List ValidatorInfo) → find (has_id id) vs ≡ none → any (has_id id) vs ≡ false
none_of_find id [] f = refl
none_of_find id (v ∷ vs) f = ground (arith, none_of_find id vs)

-- Pending validators are as little active as inactive ones.
active-pending :
    (id h : ℕ) (vs : List ValidatorInfo)
    → length (filter is_active (set_status id (ValidatorStatus.pending_activation h) vs))
      ≡ length (filter is_active (set_status id ValidatorStatus.inactive vs))
unfolding set_status
active-pending id h [] = refl
active-pending id h (v ∷ vs) = elim (Bool-cases (v.id == id)) [
  | inl same ↦ ground arith
  | inr other ↦ ground (arith, active-pending id h vs)
]

-- Adding: the next id is new, and nobody stops being active.
add-IsValid :
    (s : ValidatorSet) (key : Bytes) (h current_height : ℕ)
    → IsValid s
    → s.next_validator_id < u64_max
    → OnOk IsValid (apply_admin_op (ValidatorAdminOp.add key h) current_height s)
unfolding apply_admin_op
add-IsValid s key h current_height v room =
    let w : ValidatorInfo = record {
      id = s.next_validator_id;
      ed25519_public_key = key;
      status = status_at h current_height;
    } in
    record {
      distinct = IsDistinct-append s.validators w v.distinct v.below;
      below =
          rw (wrapping_add_one s.next_validator_id room)
            (IsBelow-append s.next_validator_id s.validators w v.below refl);
      live = omega (arith, v.live, active-append-le s.validators (w ∷ []));
    }

module _ (s : ValidatorSet) (id : ℕ) (v : IsValid s) where
  removed-IsValid :
      is_last_active id s ≡ false
      → IsValid (record s { validators = retain_others id s.validators })
  unfolding is_last_active active_validators
  removed-IsValid guard =
      let (one, all) = active-retain id s.validators v.distinct in
      record {
        distinct = IsDistinct-retain id s.validators v.distinct;
        below = IsBelow-retain s.next_validator_id id s.validators v.below;
        live = elim (Bool-cases (any (λ w. has_id id w && is_active w) s.validators)) [
          | inl hit ↦ ground (arith, one, v.live)
          | inr miss ↦ omega (arith, all miss, v.live)
        ];
      }

  remove-IsValid :
      (h current_height : ℕ)
      → OnOk IsValid (apply_admin_op (ValidatorAdminOp.remove id h) current_height s)
  unfolding apply_admin_op
  remove-IsValid h current_height = elim (Bool-cases (leb h current_height)) [
    | inr late ↦ rw late tt
    | inl due ↦ elim (Bool-cases (any (has_id id) s.validators)) [
      | inr absent ↦ rw (due, absent) tt
      | inl present ↦ elim (Bool-cases (is_last_active id s)) [
        | inl last ↦ rw (due, present, last) tt
        | inr guard ↦ rw (due, present, guard) (removed-IsValid guard)
      ]
    ]
  ]

  set-IsValid :
      (st : ValidatorStatus)
      → 1 ≤ length (filter is_active (set_status id st s.validators))
      → IsValid (record s { validators = set_status id st s.validators })
  set-IsValid st l = record {
    distinct = IsDistinct-set id st s.validators v.distinct;
    below = IsBelow-set s.next_validator_id id st s.validators v.below;
    live = l;
  }

  activated-IsValid :
      IsValid (record s { validators = set_status id ValidatorStatus.active s.validators })
  activated-IsValid =
      set-IsValid ValidatorStatus.active (omega (arith, v.live, active-activate-le id s.validators))

  -- A later activation of another validator than the last active one leaves an active one.
  postponed :
      (h : ℕ) (w : ValidatorInfo)
      → find (has_id id) s.validators ≡ some w
      → (1
          ≤ length (
              filter is_active (set_status id (ValidatorStatus.pending_activation h) s.validators)))
        ⊎ (is_last_active id s ≡ true)
  unfolding is_last_active active_validators
  postponed h w found =
      let (one, all) = active-deactivate id s.validators w found in
      let same = active-pending id h s.validators in
      elim (Bool-cases (is_active w)) [
        | inr a ↦ inl (omega (arith, all a, v.live, same))
        | inl a ↦ elim (Bool-cases (leb (length (filter is_active s.validators)) 1)) [
          | inl few ↦ inr (rw (few, any_active_of_find id s.validators w found a) refl)
          | inr many ↦ inl (ground (arith, many, one, same))
        ]
      ]

  activate-Kept :
      (h current_height : ℕ)
      → OnOk
          (Kept (ValidatorAdminOp.activate id h) current_height s)
          (apply_admin_op (ValidatorAdminOp.activate id h) current_height s)
  unfolding apply_admin_op status_at active_validators
  activate-Kept h current_height = elim (Option-cases (find (has_id id) s.validators)) [
    | inl absent ↦ rw (none_of_find id s.validators absent) tt
    | inr (w, found) ↦ elim (Bool-cases (leb h current_height)) [
      | inl due ↦
          let good = activated-IsValid in
          rw (any_of_find id s.validators w found, due) (good.distinct, good.below, inl good.live)
      | inr late ↦
          rw (any_of_find id s.validators w found, late)
            (
              IsDistinct-set id (ValidatorStatus.pending_activation h) s.validators v.distinct,
              IsBelow-set s.next_validator_id id (ValidatorStatus.pending_activation h) s.validators
                  v.below,
              elim (postponed h w found) [
                | inl live ↦ inl live
                | inr last ↦ inr (ground (arith, late), last)
              ],
            )
    ]
  ]

  deactivated-IsValid :
      (w : ValidatorInfo)
      → find (has_id id) s.validators ≡ some w
      → (is_active w && leb (length (filter is_active s.validators)) 1) ≡ false
      → IsValid (record s { validators = set_status id ValidatorStatus.inactive s.validators })
  deactivated-IsValid w found guard =
      let (one, all) = active-deactivate id s.validators w found in
      set-IsValid ValidatorStatus.inactive (elim (Bool-cases (is_active w)) [
        | inl a ↦ ground (arith, one, v.live)
        | inr a ↦ omega (arith, all a, v.live)
      ])

  deactivate-IsValid :
      (h current_height : ℕ)
      → OnOk IsValid (apply_admin_op (ValidatorAdminOp.deactivate id h) current_height s)
  unfolding apply_admin_op active_validators
  deactivate-IsValid h current_height = elim (Bool-cases (leb h current_height)) [
    | inr late ↦ rw late tt
    | inl due ↦ elim (Option-cases (find (has_id id) s.validators)) [
      | inl absent ↦ rw (due, absent) tt
      | inr (w, found) ↦
          elim (Bool-cases (is_active w && leb (length (filter is_active s.validators)) 1)) [
            | inl last ↦ rw (due, found, last) tt
            | inr guard ↦ rw (due, found, guard) (deactivated-IsValid w found guard)
          ]
    ]
  ]

live-Kept :
    (op : ValidatorAdminOp) (now : ℕ) (s : ValidatorSet) (r : Result ValidatorSetError ValidatorSet)
    → OnOk IsValid r
    → OnOk (Kept op now s) r
unfolding active_validators
live-Kept op now s r good = OnOk-map IsValid _ r (λ s' v. (v.distinct, v.below, inl v.live)) good

pub apply_admin_op-Kept :
    (op : ValidatorAdminOp) (now : ℕ) (s : ValidatorSet)
    → IsValid s
    → s.next_validator_id < u64_max
    → OnOk (Kept op now s) (apply_admin_op op now s)
apply_admin_op-Kept (ValidatorAdminOp.add key h) now s v room =
    live-Kept (ValidatorAdminOp.add key h) now s _ (add-IsValid s key h now v room)
apply_admin_op-Kept (ValidatorAdminOp.remove id h) now s v room =
    live-Kept (ValidatorAdminOp.remove id h) now s _ (remove-IsValid s id v h now)
apply_admin_op-Kept (ValidatorAdminOp.activate id h) now s v room = activate-Kept s id v h now
apply_admin_op-Kept (ValidatorAdminOp.deactivate id h) now s v room =
    live-Kept (ValidatorAdminOp.deactivate id h) now s _ (deactivate-IsValid s id v h now)
