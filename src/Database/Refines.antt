-- ===== src/Database/Refines.antt =====
-- A transaction whose every failing step rolls back is one atomic statement: rules for `search`.
use self_host.Prelude.{
  ◌≡◌, refl, ◌∙◌, ap, Bool, true, false, Option, none, some, ℕ, Result, ok, err, Option-cases, inl,
  inr, arith,
}
use self_host.Database.Plain.{Statement}
use self_host.Database.Plain
use self_host.Database.{
  Conn, Faults, Exec, pure, in_tx, else_rollback, lift, begin_tx, commit, continue, ◌>>=◌, optional,
  when, transaction, step,
}

-- The state of the connection after the steps of an open transaction.
unfoldable pub outcome : {S E A : Type 0} → Conn S → Result E (A × S) → Result E A × Conn S
outcome c (ok (a, s)) = (ok a, record c { pending = some s })
outcome c (err e) = (err e, record c { pending = none })

-- Inside an open transaction `m` does what `b` does on the pending state; where it fails it has rolled back.
pub record Runs {S E A : Type 0} (m : Exec S E A) (b : Statement S E A) : Type 0 where
  pub at :
      (k : S) (s : S)
      → m (record { committed = k; pending = some s })
        ≡ outcome (record { committed = k; pending = some s }) (b s)

-- What a transaction is held against: the whole sequence as one statement, committed or without effect.
ended : {S E A : Type 0} → S → A → S → Option E → Result E A × S
ended s a s' none = (ok a, s')
ended s a s' (some e) = (err e, s)

finished : {S E A : Type 0} → Faults S E → S → Result E (A × S) → Result E A × S
finished f s (ok (a, s')) = ended s a s' (f.at_commit s')
finished f s (err e) = (err e, s)

begun : {S E A : Type 0} → Faults S E → S → Result E (A × S) → Option E → Result E A × S
begun f s r none = finished f s r
begun f s r (some e) = (err e, s)

unfoldable pub atomically : {S E A : Type 0} → Faults S E → Statement S E A → S → Result E A × S
unfolding ended finished begun
atomically f b s = begun f s (b s) (f.at_begin s)

begun-eq-ok :
    {S E A : Type 0} (f : Faults S E) (s : S) (r : Result E (A × S)) (o : Option E) (a : A)
    → (begun f s r o).0 ≡ ok a
    → (t : S) × (r ≡ ok (a, t)) × ((begun f s r o).1 ≡ t)
unfolding begun finished ended
begun-eq-ok f s r (some e) a h = cc
begun-eq-ok f s (err e) none a h = cc
begun-eq-ok f s (ok (b, t)) none a h = elim (Option-cases (f.at_commit t)) [
  | inl e ↦ let g : ok b ≡ ok a = rw e at h in (t, cc g, rw e refl)
  | inr (x, e) ↦ let g : err x ≡ ok a = rw e at h in cc g
]

-- Where the atomic statement succeeds, so did the sequence, and its state is committed.
pub atomically-eq-ok :
    {S E A : Type 0} (f : Faults S E) (b : Statement S E A) (s : S) (a : A)
    → (atomically f b s).0 ≡ ok a
    → (t : S) × (b s ≡ ok (a, t)) × ((atomically f b s).1 ≡ t)
unfolding atomically
atomically-eq-ok f b s a h = begun-eq-ok f s (b s) (f.at_begin s) a h

-- A connection with no open transaction.
abbrev pub idle : {S : Type 0} → S → Conn S
idle s = record { committed = s; pending = none }

module _ {S E : Type 0} where
  pub Runs-pure : {A : Type 0} (a : A) → Runs {S = S} {E = E} (pure a) (Plain.pure a)
  unfolding pure Plain.pure outcome
  Runs-pure a = record { at = λ k s. refl }

  pub Runs-step : {A : Type 0} (f : Faults S E) (q : Statement S E A) → Runs (step f q) q
  unfolding step in_tx else_rollback outcome
  Runs-step f q = record { at = λ k s. ground arith }

  pub Runs-lift :
      {A : Type 0} (r : Result E A) → Runs {S = S} {E = E} (else_rollback (lift r)) (Plain.lift r)
  unfolding lift Plain.lift else_rollback outcome
  Runs-lift r = record { at = λ k s. ground arith }

  pub Runs-optional :
      {A : Type 0} (o : Option A) (m : A → Exec S E ℕ) (b : A → Statement S E ℕ)
      → ((a : A) → Runs (m a) (b a))
      → Runs (optional o m) (Plain.optional o b)
  unfolding optional Plain.optional
  Runs-optional none m b h = Runs-pure 0
  Runs-optional (some a) m b h = h a

  pub Runs-when :
      (c : Bool) (m : Exec S E ℕ) (b : Statement S E ℕ)
      → Runs m b
      → Runs (when c m) (Plain.when c b)
  unfolding when Plain.when
  Runs-when true m b h = h
  Runs-when false m b h = Runs-pure 0

module _ {S E A B : Type 0} where
  bind_outcome :
      (k s : S) (r : Result E (A × S)) (f : A → Exec S E B) (g : A → Statement S E B)
      → ((a : A) → Runs (f a) (g a))
      → continue f (outcome (record { committed = k; pending = some s }) r)
        ≡ outcome (record { committed = k; pending = some s }) (Plain.continue g r)
  unfolding continue Plain.continue outcome
  bind_outcome k s (ok (a, s')) f g h = (h a).at k s'
  bind_outcome k s (err e) f g h = refl

  pub Runs-bind :
      (m : Exec S E A) (b : Statement S E A) (f : A → Exec S E B) (g : A → Statement S E B)
      → Runs m b
      → ((a : A) → Runs (f a) (g a))
      → Runs (m >>= f) (Plain.◌>>=◌ b g)
  unfolding ◌>>=◌ Plain.◌>>=◌
  Runs-bind m b f g hm hf = record {
    at = λ k s. ap (continue f) (hm.at k s) ∙ bind_outcome k s (b s) f g hf;
  }

pub ruleset runs_rules = (Runs-pure, Runs-step, Runs-lift, Runs-optional, Runs-when, Runs-bind)

-- BeginTx, steps that roll back where they fail, and Commit behave as one atomic statement and leave no
-- transaction open.
pub transaction-atomically :
    {S E A : Type 0} (f : Faults S E) (m : Exec S E A) (b : Statement S E A)
    → Runs m b
    → (s : S) → transaction f m (idle s) ≡ (let (r, s') = atomically f b s in (r, idle s'))
unfolding atomically transaction begin_tx commit pure outcome ◌>>=◌
transaction-atomically f m b h s = ground (arith, h.at s s)
