-- ===== src/Timeseries/Update/Transactions.antt =====
-- The update of time series against a description without transactions.
use self_host.Prelude.{ℕ, ◌+◌, ◌≡◌}
use self_host.Database.{Faults}
use self_host.Database.Plain.{Statement, pure, optional, ◌>>=◌}
use self_host.Database.Refines.{runs_rules, atomically, idle, transaction-atomically}
use self_host.Policy.Rule.{Uuid}
use self_host.Timeseries.Update.{SeriesQueries, UpdateTimeseriesParams, update_timeseries}

module _ {F S E : Type 0} (q : SeriesQueries F S E) where
  -- Write the given fields in order and count the rows.
  unfoldable pub updated : Uuid → UpdateTimeseriesParams F → Statement S E ℕ
  updated uuid p = do
    n1 ← optional p.name (q.set_name uuid)
    n2 ← optional p.si_unit (q.set_si_unit uuid)
    n3 ← optional p.thing (q.set_thing uuid)
    n4 ← optional p.lower_bound (q.set_lower_bound uuid)
    n5 ← optional p.upper_bound (q.set_upper_bound uuid)
    n6 ← optional p.tags (q.set_tags uuid)
    pure (n1 + n2 + n3 + n4 + n5 + n6)

  -- Time series: the update is one atomic statement that writes all given fields or leaves the database as
  -- it was, and no transaction stays open.
  pub update_timeseries-atomically :
      (faults : Faults S E) (uuid : Uuid) (p : UpdateTimeseriesParams F) (s : S)
      → update_timeseries q faults uuid p (idle s)
        ≡ (let (r, s') = atomically faults (updated uuid p) s in (r, idle s'))
  unfolding update_timeseries updated
  update_timeseries-atomically faults uuid p s =
      transaction-atomically faults _ (updated uuid p) (search runs_rules depth 14) s
