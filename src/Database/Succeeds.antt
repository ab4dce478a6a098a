-- ===== src/Database/Succeeds.antt =====
-- What a sequence of steps that succeeded did.
use self_host.Prelude.{◌≡◌, refl, Result, ok, err}
use self_host.Database.{Conn, Exec, continue, ◌>>=◌}

module _ {S E A B : Type 0} where
  continue-eq-ok :
      (f : A → Exec S E B) (r : Result E A × Conn S) {b : B}
      → (continue f r).0 ≡ ok b
      → (a : A) × (r.0 ≡ ok a) × (continue f r ≡ f a r.1)
  unfolding continue
  continue-eq-ok f (ok a, c) h = (a, refl, refl)
  continue-eq-ok f (err e, c) h = cc

  -- The first of two steps that both succeeded, and the second one's run.
  pub bind-eq-ok :
      (m : Exec S E A) (f : A → Exec S E B) (c : Conn S) {b : B}
      → ((m >>= f) c).0 ≡ ok b
      → (a : A) × ((m c).0 ≡ ok a) × ((m >>= f) c ≡ f a (m c).1)
  unfolding ◌>>=◌
  bind-eq-ok m f c h = continue-eq-ok f (m c) h
