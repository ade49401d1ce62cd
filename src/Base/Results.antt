-- ===== src/Base/Results.antt =====
-- Results with an error, and what holds of a result that is not one.
use mathlib.Core.Path.{◌≡◌, subst}
use mathlib.Core.Option.{Option, none, some}

pub data Result (E : Type 0) (A : Type 0) : Type 0 where
  ok : A → Result E A
  err : E → Result E A

-- `map_err(f)`
abbrev pub map_err : {E F A : Type 0} → (E → F) → Result E A → Result F A
map_err f (ok a) = ok a
map_err f (err e) = err (f e)

-- `ok_or(e)`
abbrev pub ok_or : {E A : Type 0} → Option A → E → Result E A
ok_or none e = err e
ok_or (some a) e = ok a

-- The value of a result that is `ok` has the property.
abbrev pub OnOk : {E A : Type 0} → (A → Type 0) → Result E A → Type 0
OnOk P (ok a) = P a
OnOk P (err e) = Unit

pub ok_injective : {E A : Type 0} (x y : A) → ◌≡◌ {A = Result E A} (ok x) (ok y) → x ≡ y
ok_injective x y p = cc

pub OnOk-use : {E A : Type 0} (P : A → Type 0) (r : Result E A) {a : A} → OnOk P r → r ≡ ok a → P a
OnOk-use P (ok b) {a} h e = subst P (ok_injective b a e) h
OnOk-use P (err e) h p = cc

pub OnOk-map :
    {E A : Type 0} (P Q : A → Type 0) (r : Result E A) → ((a : A) → P a → Q a) → OnOk P r → OnOk Q r
OnOk-map P Q (ok a) f h = f a h
OnOk-map P Q (err e) f h = tt

-- The result is an error.
abbrev pub IsErr : {E A : Type 0} → Result E A → Type 0
IsErr (ok a) = ⊥
IsErr (err e) = Unit
