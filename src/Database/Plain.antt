-- ===== src/Database/Plain.antt =====
-- Statements on the state of the database: a statement that fails changes nothing. A sequence of them is
-- the description that a transaction is held against.
use self_host.Prelude.{Bool, true, false, Option, none, some, ℕ, Result, ok, err, ◌≡◌, refl}

abbrev pub Statement : Type 0 → Type 0 → Type 0 → Type 0
Statement S E A = S → Result E (A × S)

module _ {S E A : Type 0} where
  unfoldable pub pure : A → Statement S E A
  pure a s = ok (a, s)

  with_state : S → Result E A → Result E (A × S)
  with_state s (ok a) = ok (a, s)
  with_state s (err e) = err e

  unfoldable pub lift : Result E A → Statement S E A
  unfolding with_state
  lift r s = with_state s r

module _ {S E A B : Type 0} where
  unfoldable pub continue : (A → Statement S E B) → Result E (A × S) → Result E (B × S)
  continue f (ok (a, s)) = f a s
  continue f (err e) = err e

  infixl 5 ◌>>=◌ ◌>>◌
  unfoldable pub ◌>>=◌ : Statement S E A → (A → Statement S E B) → Statement S E B
  unfolding continue
  ◌>>=◌ m f s = continue f (m s)

  abbrev pub ◌>>◌ : Statement S E A → Statement S E B → Statement S E B
  m >> n = m >>= λ _. n

continue-eq-ok :
    {S E A B : Type 0} (f : A → Statement S E B) (r : Result E (A × S)) {b : B × S}
    → continue f r ≡ ok b
    → (a : A) × (t : S) × (r ≡ ok (a, t)) × (f a t ≡ ok b)
unfolding continue
continue-eq-ok f (ok (a, t)) h = (a, t, refl, h)
continue-eq-ok f (err e) h = cc

-- The first of two statements that both succeeded.
pub bind-eq-ok :
    {S E A B : Type 0} (m : Statement S E A) (f : A → Statement S E B) (s : S) {b : B × S}
    → (m >>= f) s ≡ ok b
    → (a : A) × (t : S) × (m s ≡ ok (a, t)) × (f a t ≡ ok b)
unfolding ◌>>=◌
bind-eq-ok m f s h = continue-eq-ok f (m s) h

unfoldable pub optional : {S E A : Type 0} → Option A → (A → Statement S E ℕ) → Statement S E ℕ
optional none f = pure 0
optional (some a) f = f a

unfoldable pub when : {S E : Type 0} → Bool → Statement S E ℕ → Statement S E ℕ
when true m = m
when false m = pure 0
