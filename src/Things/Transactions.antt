-- ===== src/Things/Transactions.antt =====
-- The update of things against a description without transactions.
use self_host.Prelude.{ℕ, ◌+◌, ◌≡◌}
use self_host.Database.{Faults}
use self_host.Database.Plain.{Statement, pure, optional, ◌>>=◌}
use self_host.Database.Refines.{runs_rules, atomically, idle, transaction-atomically}
use self_host.Policy.Rule.{Uuid}
use self_host.Things.{ThingQueries, UpdateThingParams, update_by_uuid}

module _ {S E : Type 0} (q : ThingQueries S E) where
  -- Write the given fields in order and count the rows.
  unfoldable pub updated : Uuid → UpdateThingParams → Statement S E ℕ
  updated uuid p = do
    n1 ← optional p.name (q.set_name uuid)
    n2 ← optional p.type (q.set_type uuid)
    n3 ← optional p.state (q.set_state uuid)
    n4 ← optional p.tags (q.set_tags uuid)
    pure (n1 + n2 + n3 + n4)

  -- Things: the update is one atomic statement that writes all given fields or leaves the database as
  -- it was, and no transaction stays open.
  pub update_by_uuid-atomically :
      (faults : Faults S E) (uuid : Uuid) (p : UpdateThingParams) (s : S)
      → update_by_uuid q faults uuid p (idle s)
        ≡ (let (r, s') = atomically faults (updated uuid p) s in (r, idle s'))
  unfolding update_by_uuid updated
  update_by_uuid-atomically faults uuid p s =
      transaction-atomically faults _ (updated uuid p) (search runs_rules depth 10) s
