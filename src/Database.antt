-- ===== src/Database.antt =====
-- A connection of database/sql as the services use it: BeginTx, statements inside the transaction, Rollback
-- and Commit. The database is a parameter: a state `S`, statements on it, and the faults of BeginTx and
-- Commit. One transaction is open at a time; what other connections commit meanwhile is not modelled.
pub mod Plain
pub mod Refines
pub mod Succeeds
use self_host.Prelude.{Bool, true, false, Option, none, some, ℕ, if◌then◌else◌, Result, ok, err}
use self_host.Database.Plain.{Statement}

pub record Conn (S : Type 0) : Type 0 where
  pub committed : S
  -- The state inside the open transaction.
  pub pending : Option S

-- Where BeginTx and Commit fail, and the error of a transaction that is not open (sql.ErrTxDone).
pub record Faults (S E : Type 0) : Type 0 where
  pub at_begin : S → Option E
  pub at_commit : S → Option E
  pub tx_done : E

abbrev pub Exec : Type 0 → Type 0 → Type 0 → Type 0
Exec S E A = Conn S → Result E A × Conn S

unfoldable pub rolled_back : {S : Type 0} → Conn S → Conn S
rolled_back c = record c { pending = none }

module _ {S E A : Type 0} where
  unfoldable pub pure : A → Exec S E A
  pure a c = (ok a, c)

  after_statement : Conn S → Result E (A × S) → Result E A × Conn S
  after_statement c (ok (a, s)) = (ok a, record c { pending = some s })
  after_statement c (err e) = (err e, c)

  run_pending : E → Statement S E A → Conn S → Option S → Result E A × Conn S
  run_pending done q c none = (err done, c)
  run_pending done q c (some s) = after_statement c (q s)

  -- A statement inside the transaction.
  unfoldable pub in_tx : Faults S E → Statement S E A → Exec S E A
  unfolding run_pending after_statement
  in_tx faults q c = run_pending faults.tx_done q c c.pending

  or_rollback : Result E A × Conn S → Result E A × Conn S
  or_rollback (ok a, c) = (ok a, c)
  or_rollback (err e, c) = (err e, rolled_back c)

  -- `if err != nil { tx.Rollback(); return err }`
  unfoldable pub else_rollback : Exec S E A → Exec S E A
  unfolding or_rollback rolled_back
  else_rollback m c = or_rollback (m c)

  unfoldable pub after_query : Conn S → Result E (A × S) → Result E A × Conn S
  after_query c (ok (a, s)) = (ok a, record c { committed = s })
  after_query c (err e) = (err e, c)

  -- A statement outside any transaction, committed at once.
  unfoldable pub query : Statement S E A → Exec S E A
  unfolding after_query
  query q c = after_query c (q c.committed)

  unfoldable pub fail : E → Exec S E A
  fail e c = (err e, c)

  -- `if err := check; err != nil { tx.Rollback(); return err }` for a check outside the database.
  unfoldable pub lift : Result E A → Exec S E A
  lift r c = (r, c)

module _ {S E : Type 0} where
  begin_from : Conn S → Option E → Result E Unit × Conn S
  begin_from c (some e) = (err e, c)
  begin_from c none = (ok tt, record c { pending = some c.committed })

  unfoldable pub begin_tx : Faults S E → Exec S E Unit
  unfolding begin_from
  begin_tx faults c = begin_from c (faults.at_begin c.committed)

  commit_with : Conn S → S → Option E → Result E Unit × Conn S
  commit_with c s (some e) = (err e, record c { pending = none })
  commit_with c s none = (ok tt, record { committed = s; pending = none })

  commit_from : Faults S E → Conn S → Option S → Result E Unit × Conn S
  commit_from faults c none = (err faults.tx_done, c)
  commit_from faults c (some s) = commit_with c s (faults.at_commit s)

  unfoldable pub commit : Faults S E → Exec S E Unit
  unfolding commit_from commit_with
  commit faults c = commit_from faults c c.pending

module _ {S E A B : Type 0} where
  unfoldable pub continue : (A → Exec S E B) → Result E A × Conn S → Result E B × Conn S
  continue f (ok a, c) = f a c
  continue f (err e, c) = (err e, c)

  infixl 5 ◌>>=◌ ◌>>◌
  unfoldable pub ◌>>=◌ : Exec S E A → (A → Exec S E B) → Exec S E B
  unfolding continue
  ◌>>=◌ m f c = continue f (m c)

  abbrev pub ◌>>◌ : Exec S E A → Exec S E B → Exec S E B
  m >> n = m >>= λ _. n

-- A step that is made only where the field is given, and counts no row otherwise.
unfoldable pub optional : {S E A : Type 0} → Option A → (A → Exec S E ℕ) → Exec S E ℕ
optional none f = pure 0
optional (some a) f = f a

-- A step under a condition.
unfoldable pub when : {S E : Type 0} → Bool → Exec S E ℕ → Exec S E ℕ
when true m = m
when false m = pure 0

-- BeginTx, the steps, Commit.
unfoldable pub transaction : {S E A : Type 0} → Faults S E → Exec S E A → Exec S E A
transaction faults m = do begin_tx faults; a ← m; commit faults; pure a

-- A statement of a transaction, with the rollback that follows its error.
unfoldable pub step : {S E A : Type 0} → Faults S E → Statement S E A → Exec S E A
step faults q = else_rollback (in_tx faults q)
