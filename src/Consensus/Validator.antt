-- ===== src/Consensus/Validator.antt =====
-- crates/augecoin-consensus/src/validator.rs: the validator set and its changes. A method that
-- writes returns the new set; on an error the set is as it was.
pub mod Invariant
pub mod Changes
pub mod Admin
pub mod Codec
use augecoin.Base.{
  ℕ, ◌%◌, Bool, true, false, ◌&&◌, Option, none, some, List, [], ◌∷◌, ◌++◌, leb, ◌==◌,
  if◌then◌else◌, Bytes, length, get_elem?, filter, any, find, Result, ok, err, wrapping_add, map,
}
use augecoin.Crypto.{Crypto}
use augecoin.Core.Operation.{ValidatorAdminOp, OperationPayload, Operation}
use augecoin.Core.Codec.Write.{to_bytes_stripped}

pub data ValidatorStatus : Type 0 where
  pending_activation : ℕ → ValidatorStatus
  active inactive : ValidatorStatus

pub record ValidatorInfo : Type 0 where
  pub id : ℕ
  pub ed25519_public_key : Bytes
  pub status : ValidatorStatus

pub record ValidatorSet : Type 0 where
  pub admin_public_key : Bytes
  pub validators : List ValidatorInfo
  pub next_validator_id : ℕ

pub data ValidatorSetError : Type 0 where
  invalid_admin_signature validator_not_found no_active_validators : ValidatorSetError
  cannot_remove_last_active invalid_activation : ValidatorSetError

-- `v.status == ValidatorStatus::Active`
abbrev pub is_active : ValidatorInfo → Bool
is_active v = elim v.status [ ValidatorStatus.active ↦ true | _ ↦ false ]

-- The loop of `ValidatorSet::new`.
unfoldable pub next_id_from : ℕ → List ValidatorInfo → ℕ
next_id_from next_id [] = next_id
next_id_from next_id (v ∷ vs) =
    next_id_from (if leb next_id v.id then wrapping_add v.id 1 else next_id) vs

unfoldable pub new_set : Bytes → List ValidatorInfo → ValidatorSet
unfolding next_id_from
new_set admin vs = record {
  admin_public_key = admin;
  validators = vs;
  next_validator_id = next_id_from 0 vs;
}

unfoldable pub active_validators : ValidatorSet → List ValidatorInfo
active_validators s = filter is_active s.validators

-- `active[index]`, which is in range since `index` is a remainder by the length.
unfoldable pub leader_for_height : ValidatorSet → ℕ → Result ValidatorSetError ValidatorInfo
unfolding active_validators
leader_for_height s height =
    elim (get_elem? (active_validators s) (height % length (active_validators s))) [
      | none ↦ err no_active_validators
      | some v ↦ ok v
    ]

-- The status of a validator that is added or activated.
unfoldable pub status_at : ℕ → ℕ → ValidatorStatus
status_at activation_height current_height =
    if leb activation_height current_height
    then ValidatorStatus.active
    else ValidatorStatus.pending_activation activation_height

-- the status of the first validator with the id, which `iter_mut().find(..)` gives
unfoldable pub set_status : ℕ → ValidatorStatus → List ValidatorInfo → List ValidatorInfo
set_status id status [] = []
set_status id status (v ∷ vs) =
    if v.id == id then record v { status = status } ∷ vs else v ∷ set_status id status vs

abbrev pub has_id : ℕ → ValidatorInfo → Bool
has_id id v = v.id == id

-- `validators.retain(|v| v.id != id)`
unfoldable pub retain_others : ℕ → List ValidatorInfo → List ValidatorInfo
retain_others id [] = []
retain_others id (v ∷ vs) = if v.id == id then retain_others id vs else v ∷ retain_others id vs

-- the test that guards the last active validator in `Remove` and in `remove_validator_direct`
unfoldable pub is_last_active : ℕ → ValidatorSet → Bool
unfolding active_validators
is_last_active id s =
    leb (length (active_validators s)) 1 && any (λ v. has_id id v && is_active v) s.validators

-- The match of `apply_validator_admin` on the operation.
unfoldable pub apply_admin_op :
    ValidatorAdminOp → ℕ → ValidatorSet → Result ValidatorSetError ValidatorSet
unfolding status_at is_last_active retain_others set_status active_validators
apply_admin_op (ValidatorAdminOp.add key activation_height) current_height s = ok (record s {
  validators =
      s.validators
      ++ record {
        id = s.next_validator_id;
        ed25519_public_key = key;
        status = status_at activation_height current_height;
      }
        ∷ [];
  next_validator_id = wrapping_add s.next_validator_id 1;
})
apply_admin_op (ValidatorAdminOp.remove id activation_height) current_height s =
    if leb activation_height current_height
    then if any (has_id id) s.validators
      then if is_last_active id s
        then err cannot_remove_last_active
        else ok (record s { validators = retain_others id s.validators })
      else err validator_not_found
    else err invalid_activation
apply_admin_op (ValidatorAdminOp.activate id activation_height) current_height s =
    if any (has_id id) s.validators
    then ok (record s {
      validators = set_status id (status_at activation_height current_height) s.validators;
    })
    else err validator_not_found
apply_admin_op (ValidatorAdminOp.deactivate id activation_height) current_height s =
    if leb activation_height current_height
    then elim (find (has_id id) s.validators) [
      | none ↦ err validator_not_found
      | some v ↦
          if is_active v && leb (length (active_validators s)) 1
          then err cannot_remove_last_active
          else ok (record s { validators = set_status id ValidatorStatus.inactive s.validators })
    ]
    else err invalid_activation

-- `all_ok`: some signature of the operation verifies under the admin key.
unfoldable pub is_admin_signed : Crypto → Operation → ValidatorSet → Bool
is_admin_signed c op s =
    any (λ sig. c.verify s.admin_public_key sig (to_bytes_stripped op)) op.signatures

-- The rest of `apply_validator_admin` once the payload is at hand.
unfoldable pub apply_payload :
    Bool → OperationPayload → ℕ → ValidatorSet → Result ValidatorSetError ValidatorSet
unfolding apply_admin_op
apply_payload signed (OperationPayload.validator_admin va_op) current_height s =
    if signed then apply_admin_op va_op current_height s else err invalid_admin_signature
apply_payload _ _ _ _ = err invalid_admin_signature

unfoldable pub apply_validator_admin :
    Crypto → Operation → ℕ → ValidatorSet → Result ValidatorSetError ValidatorSet
unfolding apply_payload is_admin_signed
apply_validator_admin c op current_height s =
    apply_payload (is_admin_signed c op s) op.payload current_height s

abbrev pub activate_if_due : ℕ → ValidatorInfo → ValidatorInfo
activate_if_due current_height v = elim v.status [
  | ValidatorStatus.pending_activation activation_height ↦
      if leb activation_height current_height
      then record v { status = ValidatorStatus.active }
      else v
  | _ ↦ v
]

unfoldable pub process_pending_activations : ℕ → ValidatorSet → ValidatorSet
process_pending_activations current_height s = record s {
  validators = map (activate_if_due current_height) s.validators;
}

-- The new id, and the set.
unfoldable pub add_validator_direct : Bytes → ℕ → ℕ → ValidatorSet → ℕ × ValidatorSet
unfolding status_at
add_validator_direct key activation_height current_height s = (
  s.next_validator_id,
  record s {
    validators =
        s.validators
        ++ record {
          id = s.next_validator_id;
          ed25519_public_key = key;
          status = status_at activation_height current_height;
        }
          ∷ [];
    next_validator_id = wrapping_add s.next_validator_id 1;
  },
)

unfoldable pub remove_validator_direct : ℕ → ValidatorSet → Result ValidatorSetError ValidatorSet
unfolding is_last_active retain_others
remove_validator_direct id s =
    if is_last_active id s
    then err cannot_remove_last_active
    else if length (retain_others id s.validators) == length s.validators
    then err validator_not_found
    else ok (record s { validators = retain_others id s.validators })

unfoldable pub set_validator_status_direct :
    ℕ → ValidatorStatus → ValidatorSet → Result ValidatorSetError ValidatorSet
unfolding set_status
set_validator_status_direct id status s =
    if any (has_id id) s.validators
    then ok (record s { validators = set_status id status s.validators })
    else err validator_not_found
