-- ===== src/Consensus/Validator/Admin.antt =====
-- crates/augecoin-consensus/src/validator.rs, `apply_validator_admin`: what a signed change of the
-- validator set does to the invariant, and where the last active validator is not guarded.
use augecoin.Base.{
  subst, sym, ℕ, ◌+◌, ◌<◌, ◌≡◌, refl, Bool, true, false, List, [], ◌∷◌, leb, ◌==◌, length, filter,
  find, ok, err, arith, u64_max, some, inl, inr, OnOk, OnOk-map, empty_of_length, Bool-cases,
}
use augecoin.Crypto.{Crypto}
use augecoin.Core.Operation.{ValidatorAdminOp, OperationPayload, Operation}
use augecoin.Consensus.Validator.{
  ValidatorStatus, ValidatorInfo, ValidatorSet, is_active, has_id, active_validators, set_status,
  status_at, apply_admin_op, is_admin_signed, apply_payload, apply_validator_admin,
  no_active_validators, leader_for_height,
}
use augecoin.Consensus.Validator.Invariant.{IsValid}
use augecoin.Consensus.Validator.Changes.{Kept, any_of_find, apply_admin_op-Kept}

apply_payload-Kept :
    (signed : Bool) (va : ValidatorAdminOp) (now : ℕ) (s : ValidatorSet)
    → IsValid s
    → s.next_validator_id < u64_max
    → OnOk
        (λ s'. Kept va now s s' × (signed ≡ true))
        (apply_payload signed (OperationPayload.validator_admin va) now s)
unfolding apply_payload
apply_payload-Kept false va now s v room = tt
apply_payload-Kept true va now s v room =
    OnOk-map (Kept va now s) _ (apply_admin_op va now s) (λ s' good. (good, refl))
      (apply_admin_op-Kept va now s v room)

-- A change of the validator set that is accepted, whatever its activation height, was signed under
-- the admin key, keeps the ids distinct and below the next id, and leaves an active validator, unless
-- it is an `Activate` of the only active validator at a later height than the current one. The set
-- is taken to be well-formed, with an active validator, and its next id to be below `u64::MAX`.
pub apply_validator_admin-Kept :
    (c : Crypto) (op : Operation) (va : ValidatorAdminOp) (current_height : ℕ) (s : ValidatorSet)
    → op.payload ≡ OperationPayload.validator_admin va
    → IsValid s
    → s.next_validator_id < u64_max
    → OnOk
        (λ s'. Kept va current_height s s' × (is_admin_signed c op s ≡ true))
        (apply_validator_admin c op current_height s)
unfolding apply_validator_admin
apply_validator_admin-Kept c op va now s e v room =
    subst
      (λ q.
        OnOk (λ s'. Kept va now s s' × (is_admin_signed c op s ≡ true))
          (apply_payload (is_admin_signed c op s) q now s))
      (sym e) (apply_payload-Kept (is_admin_signed c op s) va now s v room)

-- A postponed activation takes the active validator of the id out.
active-postpone :
    (id h : ℕ) (vs : List ValidatorInfo) (w : ValidatorInfo)
    → find (has_id id) vs ≡ some w
    → is_active w ≡ true
    → length (filter is_active (set_status id (ValidatorStatus.pending_activation h) vs)) + 1
      ≡ length (filter is_active vs)
unfolding set_status
active-postpone id h [] w f a = cc
active-postpone id h (v ∷ vs) w f a = elim (Bool-cases (v.id == id)) [
  | inl same ↦ ground arith
  | inr other ↦ ground (arith, active-postpone id h vs w)
]

-- `Activate` at a later height has no guard for the last active validator: where the validator
-- that it names is the only active one, the change is accepted, and from then on no height has a
-- leader, until the activation is due.
pub activate_later_halts :
    (s : ValidatorSet) (id h current_height height : ℕ) (w : ValidatorInfo)
    → find (has_id id) s.validators ≡ some w
    → is_active w ≡ true
    → length (active_validators s) ≡ 1
    → current_height < h
    → (s' : ValidatorSet) × (apply_admin_op (ValidatorAdminOp.activate id h) current_height s
        ≡ ok s')
      × (leader_for_height s' height ≡ err no_active_validators)
unfolding apply_admin_op active_validators status_at leader_for_height
activate_later_halts s id h now height w found act one later =
    let vs = set_status id (ValidatorStatus.pending_activation h) s.validators in
    let later' : leb h now ≡ false = ground arith in
    let none_left : filter is_active vs ≡ [] =
      empty_of_length _ (omega (arith, active-postpone id h s.validators w found act)) in
    (
      record s { validators = vs },
      rw (any_of_find id s.validators w found, later'),
      rw (leader_for_height, none_left),
    )
