-- ===== src/Prelude/Results.antt =====
-- Go's pair of a value and an error: `err e` where the error is not nil.
use mathlib.Core.Bool.{Bool, true, false}
use mathlib.Core.Path.{◌≡◌, refl}
use mathlib.Core.Logic.{◌⊎◌, inl, inr}

pub data Result (E A : Type 0) : Type 0 where
  ok : A → Result E A
  err : E → Result E A

-- An operation that returns an error only.
abbrev pub Checked : Type 0 → Type 0
Checked E = Result E (Unit {0})

infixl 5 ◌>>=◌ ◌>>◌
abbrev pub ◌>>=◌ : {E A B : Type 0} → Result E A → (A → Result E B) → Result E B
ok a >>= f = f a
err e >>= f = err e

abbrev pub ◌>>◌ : {E B : Type 0} → Checked E → Result E B → Result E B
m >> k = m >>= λ _. k

-- `if b { return e }`
abbrev pub fail_if : {E : Type 0} → Bool → E → Checked E
fail_if true e = err e
fail_if false e = ok tt

-- To split on a computed result and keep the equation.
pub Result-cases :
    {E A : Type 0} (r : Result E A) → ((a : A) × (r ≡ ok a)) ⊎ ((e : E) × (r ≡ err e))
Result-cases (ok a) = inl (a, refl)
Result-cases (err e) = inr (e, refl)

-- A value satisfies `P`, an error `Q`.
pub data Outcome {E A : Type 0} (P : A → Type 0) (Q : E → Type 0) : Result E A → Type 0 where
  of_value : {a : A} → P a → Outcome P Q (ok a)
  of_error : {e : E} → Q e → Outcome P Q (err e)

pub bind-Outcome :
    {E A B : Type 0} {P : A → Type 0} {R : B → Type 0} {Q : E → Type 0} {m : Result E A}
    {f : A → Result E B}
    → Outcome P Q m
    → ((a : A) → P a → Outcome R Q (f a))
    → Outcome R Q (m >>= f)
bind-Outcome (of_value {a = a} h) k = k a h
bind-Outcome (of_error h) k = of_error h

pub weaken-Outcome :
    {E A : Type 0} {P R : A → Type 0} {Q : E → Type 0} {m : Result E A}
    → Outcome P Q m
    → ((a : A) → P a → R a)
    → Outcome R Q m
weaken-Outcome (of_value {a = a} h) k = of_value (k a h)
weaken-Outcome (of_error h) k = of_error h

-- A step whose result is looked at.
pub ok-Outcome : {E A : Type 0} (m : Result E A) → Outcome (λ a. m ≡ ok a) (λ e. Unit {0}) m
ok-Outcome (ok a) = of_value refl
ok-Outcome (err e) = of_error tt

-- What holds of a value holds where it is the result.
pub Outcome-ok : {E A : Type 0} {P : A → Type 0} {Q : E → Type 0} {a : A} → Outcome P Q (ok a) → P a
Outcome-ok (of_value h) = h
