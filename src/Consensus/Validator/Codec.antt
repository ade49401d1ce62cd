-- ===== src/Consensus/Validator/Codec.antt =====
-- crates/augecoin-consensus/src/validator.rs, `to_bytes` and `from_bytes`: the stored form of the
-- set. The reader keeps the bytes behind its position; what follows the set is left unread.
use augecoin.Base.{
  ℕ, zero, suc, ◌<◌, ◌≡◌, refl, ◌∙◌, true, false, none, some, List, [], ◌∷◌, ◌++◌, ltb, ◌==◌,
  if◌then◌else◌, Bytes, length, length-append, All, arith, Result, ok, err, to_be_bytes,
  from_be_bytes, take_exact, take_exact-append_of_length, length-to_be_bytes, u32_round_trip,
  u64_round_trip, u32_mod, u64_mod,
}
use mathlib.Core.List.{append_assoc}
use augecoin.Crypto.{Crypto}
use augecoin.Consensus.Validator.{ValidatorStatus, ValidatorInfo, ValidatorSet}

unfoldable pub status_tag : ValidatorStatus → ℕ
status_tag ValidatorStatus.active = 0
status_tag ValidatorStatus.inactive = 1
status_tag (ValidatorStatus.pending_activation _) = 2

-- the activation height behind the tag 2
abbrev pub status_tail : ValidatorStatus → Bytes
status_tail (ValidatorStatus.pending_activation height) = to_be_bytes 8 height
status_tail _ = []

unfoldable pub write_validator : ValidatorInfo → Bytes
unfolding status_tag
write_validator v =
    to_be_bytes 8 v.id ++ (v.ed25519_public_key ++ (status_tag v.status ∷ status_tail v.status))

unfoldable pub write_validators : List ValidatorInfo → Bytes
write_validators [] = []
write_validators (v ∷ vs) = write_validator v ++ write_validators vs

unfoldable pub set_to_bytes : ValidatorSet → Bytes
set_to_bytes s =
    s.admin_public_key
    ++ (to_be_bytes 4 (length s.validators)
        ++ (write_validators s.validators ++ to_be_bytes 8 s.next_validator_id))

pub data DecodeError : Type 0 where
  too_short too_short_for_count too_short_for_validator : DecodeError
  too_short_for_activation_height too_short_for_next_id : DecodeError
  invalid_ed25519_key : DecodeError
  unknown_status_tag : ℕ → DecodeError

-- The next `n` bytes, or the error.
abbrev pub next_bytes :
    {A : Type 0}
    → ℕ
    → Bytes
    → DecodeError
    → (Bytes → Bytes → Result DecodeError A)
    → Result DecodeError A
next_bytes n left e k = elim (take_exact n left) [
  | none ↦ err e
  | some (bytes, rest) ↦ k bytes rest
]

unfoldable pub read_status : ℕ → Bytes → Result DecodeError (ValidatorStatus × Bytes)
read_status tag left =
    if tag == 0
    then ok (ValidatorStatus.active, left)
    else if tag == 1
    then ok (ValidatorStatus.inactive, left)
    else if tag == 2
    then next_bytes 8 left too_short_for_activation_height
        (λ height rest. ok (ValidatorStatus.pending_activation (from_be_bytes height), rest))
    else err (unknown_status_tag tag)

-- One round of the loop. The test for 8 + 32 + 1 bytes is made before anything is read.
unfoldable pub read_validator : Bytes → Result DecodeError (ValidatorInfo × Bytes)
read_validator left = next_bytes 8 left too_short_for_validator λ id left₁.
    next_bytes 32 left₁ too_short_for_validator λ key left₂. elim left₂ [
      | [] ↦ err too_short_for_validator
      | tag ∷ left₃ ↦ elim (read_status tag left₃) [
        | err e ↦ err e
        | ok (status, left₄) ↦
            ok (record { id = from_be_bytes id; ed25519_public_key = key; status = status }, left₄)
      ]
    ]

-- `for _ in 0..vcount`
unfoldable pub read_validators : ℕ → Bytes → Result DecodeError (List ValidatorInfo × Bytes)
read_validators zero left = ok ([], left)
read_validators (suc n) left = elim (read_validator left) [
  | err e ↦ err e
  | ok (v, left₁) ↦ elim (read_validators n left₁) [
    | err e ↦ err e
    | ok (vs, left₂) ↦ ok (v ∷ vs, left₂)
  ]
]

unfoldable pub set_from_bytes : Crypto → Bytes → Result DecodeError ValidatorSet
set_from_bytes c input =
    if ltb (length input) 44
    then err too_short
    else next_bytes 32 input too_short λ admin left₁. elim (c.valid_key admin) [
      | false ↦ err invalid_ed25519_key
      | true ↦ next_bytes 4 left₁ too_short_for_count λ vcount left₂.
          elim (read_validators (from_be_bytes vcount) left₂) [
            | err e ↦ err e
            | ok (vs, left₃) ↦ next_bytes 8 left₃ too_short_for_next_id λ next_id left₄.
                ok (record {
                  admin_public_key = admin;
                  validators = vs;
                  next_validator_id = from_be_bytes next_id;
                })
          ]
    ]

-- The values fit the words and the arrays that they stand in.
abbrev pub FitsStatus : ValidatorStatus → Type 0
FitsStatus (ValidatorStatus.pending_activation height) = height < u64_mod
FitsStatus _ = Unit

abbrev pub FitsValidator : ValidatorInfo → Type 0
FitsValidator v = (v.id < u64_mod) × (length v.ed25519_public_key ≡ 32) × FitsStatus v.status

pub record FitsSet (s : ValidatorSet) : Type 0 where
  pub admin_length : length s.admin_public_key ≡ 32
  pub count : length s.validators < u32_mod
  pub validators_fit : All FitsValidator s.validators
  pub next_id : s.next_validator_id < u64_mod

next_bytes-append :
    {A : Type 0} (n : ℕ) (xs rest : Bytes) (e : DecodeError)
    (k : Bytes → Bytes → Result DecodeError A)
    → length xs ≡ n
    → next_bytes n (xs ++ rest) e k ≡ k xs rest
next_bytes-append n xs rest e k h = rw (take_exact-append_of_length n xs rest h, next_bytes)

next_word :
    {A : Type 0} (n v : ℕ) (rest : Bytes) (e : DecodeError)
    (k : Bytes → Bytes → Result DecodeError A)
    → next_bytes n (to_be_bytes n v ++ rest) e k ≡ k (to_be_bytes n v) rest
next_word n v rest e k = next_bytes-append n (to_be_bytes n v) rest e k (length-to_be_bytes n v)

read_status-write :
    (st : ValidatorStatus) (rest : Bytes)
    → FitsStatus st
    → read_status (status_tag st) (status_tail st ++ rest) ≡ ok (st, rest)
unfolding read_status status_tag
read_status-write ValidatorStatus.active rest h = refl
read_status-write ValidatorStatus.inactive rest h = refl
read_status-write (ValidatorStatus.pending_activation height) rest h =
    next_word 8 height rest too_short_for_activation_height _ ∙ rw (u64_round_trip height h)

read_validator-write :
    (v : ValidatorInfo) (rest : Bytes)
    → FitsValidator v
    → read_validator (write_validator v ++ rest) ≡ ok (v, rest)
unfolding read_validator write_validator
read_validator-write v rest (id_fits, key_fits, status_fits) = simp append_assoc (
    next_word 8 v.id _ too_short_for_validator _
    ∙ (next_bytes-append 32 v.ed25519_public_key _ too_short_for_validator _ key_fits
        ∙ rw (read_status-write v.status rest status_fits, u64_round_trip v.id id_fits)))

read_validators-write :
    (vs : List ValidatorInfo) (rest : Bytes)
    → All FitsValidator vs
    → read_validators (length vs) (write_validators vs ++ rest) ≡ ok (vs, rest)
unfolding read_validators write_validators
read_validators-write [] rest h = refl
read_validators-write (v ∷ vs) rest (fits, more) = simp append_assoc (
    rw (read_validator-write v (write_validators vs ++ rest) fits, read_validators)
      (rw (read_validators-write vs rest more)))

-- Reading back the stored form gives the set, for every set whose numbers and arrays have their
-- sizes and whose admin key is one that `VerifyingKey::from_bytes` accepts, whatever bytes follow.
pub set_from_bytes-to_bytes :
    (c : Crypto) (s : ValidatorSet) (rest : Bytes)
    → FitsSet s
    → c.valid_key s.admin_public_key ≡ true
    → set_from_bytes c (set_to_bytes s ++ rest) ≡ ok s
unfolding set_from_bytes set_to_bytes
set_from_bytes-to_bytes c s rest fits valid = simp append_assoc (
    rw long (
      next_bytes-append 32 s.admin_public_key _ too_short _ fits.admin_length
      ∙ rw valid (
          next_word 4 (length s.validators) _ too_short_for_count _
          ∙ rw
              (
                u32_round_trip (length s.validators) fits.count,
                read_validators-write s.validators (to_be_bytes 8 s.next_validator_id ++ rest)
                    fits.validators_fit,
              )
              (next_word 8 s.next_validator_id rest too_short_for_next_id _
                ∙ rw (u64_round_trip s.next_validator_id fits.next_id)))))
  where
    count : Bytes
    count = to_be_bytes 4 (length s.validators)

    next_id : Bytes
    next_id = to_be_bytes 8 s.next_validator_id

    body : Bytes
    body = write_validators s.validators

    long : ltb (length (s.admin_public_key ++ (count ++ (body ++ (next_id ++ rest))))) 44 ≡ false
    long = ground (
      arith,
      length-append s.admin_public_key (count ++ (body ++ (next_id ++ rest))),
      length-append count (body ++ (next_id ++ rest)),
      length-append body (next_id ++ rest),
      length-append next_id rest,
      length-to_be_bytes 4 (length s.validators),
      length-to_be_bytes 8 s.next_validator_id,
      fits.admin_length,
    )
