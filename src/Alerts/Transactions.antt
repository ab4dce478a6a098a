-- ===== src/Alerts/Transactions.antt =====
-- The update of alerts against a description without transactions.
use self_host.Prelude.{ℕ, ◌+◌, ◌≡◌}
use self_host.Database.{Faults}
use self_host.Database.Plain.{Statement, pure, optional, ◌>>=◌}
use self_host.Database.Refines.{runs_rules, atomically, idle, transaction-atomically}
use self_host.Policy.Rule.{Uuid}
use self_host.Alerts.{AlertQueries, UpdateAlertByUuidParams, update_alert_by_uuid}

module _ {S E : Type 0} (q : AlertQueries S E) where
  -- Write the given fields in order and count the rows.
  unfoldable pub updated : Uuid → UpdateAlertByUuidParams → Statement S E ℕ
  updated uuid p = do
    n1 ← optional p.resource (q.set_resource uuid)
    n2 ← optional p.environment (q.set_environment uuid)
    n3 ← optional p.event (q.set_event uuid)
    n4 ← optional p.origin (q.set_origin uuid)
    n5 ← optional p.severity (q.set_severity uuid)
    n6 ← optional p.status (q.set_status uuid)
    n7 ← optional p.service (q.set_service uuid)
    n8 ← optional p.value (q.set_value uuid)
    n9 ← optional p.description (q.set_description uuid)
    n10 ← optional p.tags (q.set_tags uuid)
    n11 ← optional p.timeout (q.set_timeout uuid)
    n12 ← optional p.rawdata (q.set_rawdata uuid)
    pure (n1 + n2 + n3 + n4 + n5 + n6 + n7 + n8 + n9 + n10 + n11 + n12)

  -- Alerts: the update is one atomic statement that writes all given fields or leaves the database as
  -- it was, and no transaction stays open.
  pub update_alert_by_uuid-atomically :
      (faults : Faults S E) (uuid : Uuid) (p : UpdateAlertByUuidParams) (s : S)
      → update_alert_by_uuid q faults uuid p (idle s)
        ≡ (let (r, s') = atomically faults (updated uuid p) s in (r, idle s'))
  unfolding update_alert_by_uuid updated
  update_alert_by_uuid-atomically faults uuid p s =
      transaction-atomically faults _ (updated uuid p) (search runs_rules depth 26) s
