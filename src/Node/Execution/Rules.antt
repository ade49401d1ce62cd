-- ===== src/Node/Execution/Rules.antt =====
-- Rules for what holds after steps that did not fail.
use augecoin.Base.{List, [], ◌∷◌, Result, ok, err, OnOk, All}
use augecoin.Node.Execution.State.{ExecutionError, ExecState, Exec, ◌>>=◌, ◌>>◌, each}

pub bind-OnOk :
    {A B : Type 0} (P : A × ExecState → Type 0) (Q : B × ExecState → Type 0) (m : Exec A)
    (f : A → Exec B) (s : ExecState)
    → OnOk P (m s)
    → ((a : A) (t : ExecState) → P (a, t) → OnOk Q (f a t))
    → OnOk Q ((m >>= f) s)
bind-OnOk {A} {B} P Q m f s h k = go (m s) h
  where
    go :
        (r : Result ExecutionError (A × ExecState))
        → OnOk P r
        → OnOk Q (elim r [ ok (a, t) ↦ f a t | err e ↦ err e ])
    go (ok (a, t)) p = k a t p
    go (err e) p = tt

pub then-OnOk :
    {A B : Type 0} (P : A × ExecState → Type 0) (Q : B × ExecState → Type 0) (m : Exec A)
    (n : Exec B) (s : ExecState)
    → OnOk P (m s)
    → ((a : A) (t : ExecState) → P (a, t) → OnOk Q (n t))
    → OnOk Q ((m >> n) s)
then-OnOk {A} {B} P Q m n s h k = go (m s) h
  where
    go :
        (r : Result ExecutionError (A × ExecState))
        → OnOk P r
        → OnOk Q (elim r [ ok (a, t) ↦ n t | err e ↦ err e ])
    go (ok (a, t)) p = k a t p
    go (err e) p = tt

-- An invariant of every round is one of the loop.
pub each-OnOk :
    {A : Type 0} (Good : A → Type 0) (P : ExecState → Type 0) (step : A → Exec (Unit {0}))
    → ((x : A) (s : ExecState) → Good x → P s → OnOk (λ r. P r.1) (step x s))
    → (xs : List A) (s : ExecState) → All Good xs
    → P s
    → OnOk (λ r. P r.1) (each step xs s)
unfolding each
each-OnOk Good P step keep [] s g p = p
each-OnOk Good P step keep (x ∷ xs) s g p =
    then-OnOk (λ r. P r.1) (λ r. P r.1) (step x) (each step xs) s (keep x s g.0 p)
      (λ a t q. each-OnOk Good P step keep xs t g.1 q)

-- The same where the invariant asks nothing of the elements.
pub each-keeps :
    {A : Type 0} (P : ExecState → Type 0) (step : A → Exec (Unit {0}))
    → ((x : A) (s : ExecState) → P s → OnOk (λ r. P r.1) (step x s))
    → (xs : List A) (s : ExecState) → P s
    → OnOk (λ r. P r.1) (each step xs s)
unfolding each
each-keeps P step keep [] s p = p
each-keeps P step keep (x ∷ xs) s p =
    then-OnOk (λ r. P r.1) (λ r. P r.1) (step x) (each step xs) s (keep x s p)
      (λ a t q. each-keeps P step keep xs t q)
