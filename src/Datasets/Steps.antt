-- ===== src/Datasets/Steps.antt =====
-- Steps of the operations on uploads: what a result and its world satisfy, and steps that read only.
use self_host.Prelude.{
  ◌≡◌, inl, inr, refl, sym, subst, Bool, true, false, Option, none, some, Result, ok, err, fail_if,
  Option-cases, Result-cases,
}
use self_host.Datasets.World.{
  World, UploadError, Call, Act, ◌>>=◌, continue, lift, reading, call, fault_of, found,
}

-- A result with its world: `P` of a value, `Q` of an error.
pub data After {O E A : Type 0} (P : A → World O → Type 0) (Q : World O → Type 0)
    : Result (UploadError E) A × World O → Type 0 where
  done : {a : A} {w : World O} → P a w → After P Q (ok a, w)
  stopped : {e : UploadError E} {w : World O} → Q w → After P Q (err e, w)

module _ {O E A B : Type 0} {P : A → World O → Type 0} {R : B → World O → Type 0}
    {Q : World O → Type 0} where
  pub continue-After :
      (f : A → Act O E B) {r : Result (UploadError E) A × World O}
      → After P Q r
      → ((a : A) (w : World O) → P a w → After R Q (f a w))
      → After R Q (continue f r)
  unfolding continue
  continue-After f (done {a = a} {w = w} h) k = k a w h
  continue-After f (stopped h) k = stopped h

  pub bind-After :
      (m : Act O E A) (f : A → Act O E B) (w : World O)
      → After P Q (m w)
      → ((a : A) (v : World O) → P a v → After R Q (f a v))
      → After R Q ((m >>= f) w)
  unfolding ◌>>=◌
  bind-After m f w h k = continue-After f h k

-- The world is as before, and the value satisfies `P`.
unfoldable pub Reads : {O A : Type 0} → World O → (A → Type 0) → A → World O → Type 0
Reads w P a v = (v ≡ w) × P a

module _ {O E : Type 0} (w : World O) where
  pub call-Reads :
      (faults : Call → Option E) (c : Call)
      → After (Reads w (λ a. Unit)) (λ v. v ≡ w) (call faults c w)
  unfolding call fault_of Reads
  call-Reads faults c = elim (Option-cases (faults c)) [
    | inl e ↦ rw e (done (refl, tt))
    | inr (x, e) ↦ rw e (stopped refl)
  ]

  pub lift-Reads :
      {A : Type 0} (r : Result (UploadError E) A)
      → After (Reads w (λ a. r ≡ ok a)) (λ v. v ≡ w) (lift r w)
  unfolding lift Reads
  lift-Reads (ok a) = done (refl, refl)
  lift-Reads (err e) = stopped refl

  pub reading-Reads :
      {A : Type 0} (f : World O → Result (UploadError E) A)
      → After (Reads w (λ a. f w ≡ ok a)) (λ v. v ≡ w) (reading f w)
  unfolding reading Reads
  reading-Reads f = elim (Result-cases (f w)) [
    | inl (a, e) ↦ rw e (done (refl, refl))
    | inr (x, e) ↦ rw e (stopped refl)
  ]

module _ {O E A B : Type 0} (w : World O) {Fact : A → Type 0} {R : B → World O → Type 0}
    {Q : World O → Type 0} where
  continue-Reads :
      (f : A → Act O E B) {r : Result (UploadError E) A × World O}
      → After (Reads w Fact) (λ v. v ≡ w) r
      → Q w
      → ((a : A) → Fact a → After R Q (f a w))
      → After R Q (continue f r)
  unfolding continue Reads
  continue-Reads f (done {a = a} (e, h)) q k = subst (λ u. After R Q (f a u)) (sym e) (k a h)
  continue-Reads f (stopped e) q k = stopped (subst Q (sym e) q)

  -- A step that reads, and what follows it.
  pub bind-Reads :
      (m : Act O E A) (f : A → Act O E B)
      → After (Reads w Fact) (λ v. v ≡ w) (m w)
      → Q w
      → ((a : A) → Fact a → After R Q (f a w))
      → After R Q ((m >>= f) w)
  unfolding ◌>>=◌
  bind-Reads m f h q k = continue-Reads f h q k

pub weaken-After :
    {O E A : Type 0} {P P' : A → World O → Type 0} {Q : World O → Type 0}
    {r : Result (UploadError E) A × World O}
    → After P Q r
    → ((a : A) (v : World O) → P a v → P' a v)
    → After P' Q r
weaken-After (done {a = a} {w = v} h) k = done (k a v h)
weaken-After (stopped h) k = stopped h

-- Also the worlds of an error.
pub weaken-Both :
    {O E A : Type 0} {P P' : A → World O → Type 0} {Q Q' : World O → Type 0}
    {r : Result (UploadError E) A × World O}
    → After P Q r
    → ((a : A) (v : World O) → P a v → P' a v)
    → ((v : World O) → Q v → Q' v)
    → After P' Q' r
weaken-Both (done {a = a} {w = v} h) k l = done (k a v h)
weaken-Both (stopped {w = v} h) k l = stopped (l v h)

pub found-some :
    {E A : Type 0} (o : Option A) (e : UploadError E) (a : A) → found o e ≡ ok a → o ≡ some a
unfolding found
found-some (some x) e a h = cc h
found-some none e a h = cc h

pub fail_if-ok :
    {E : Type 0} (b : Bool) (e : UploadError E) {u : Unit} → fail_if b e ≡ ok u → b ≡ false
fail_if-ok true e h = cc h
fail_if-ok false e h = refl
