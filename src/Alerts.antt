-- ===== src/Alerts.antt =====
-- AlertService of internal/services/alert.go: CreateAlert, UpdateAlertByUuid and DeleteAlert. The queries of
-- postgres/alerts.sql.go are parameters; raw data stands as its bytes.
pub mod Transactions
use self_host.Prelude.{
  [], ◌∷◌, true, false, ℕ, ◌+◌, Option, none, some, List, Result, ok, err, Bool, ◌==◌,
  if◌then◌else◌,
}
use self_host.Prelude.Int.{ℤ}
use self_host.Text.{Text}
use self_host.Database.{Exec, Faults, pure, fail, query, optional, transaction, step, ◌>>=◌, ◌>>◌}
use self_host.Database.Plain.{Statement}
use self_host.Policy.Rule.{Uuid}

-- The values of the enumerations are texts.
abbrev pub AlertSeverity : Type 0
AlertSeverity = Text

abbrev pub AlertStatus : Type 0
AlertStatus = Text

pub record CreateAlertParams : Type 0 where
  pub resource : Text
  pub environment : Text
  pub event : Text
  pub severity : AlertSeverity
  pub status : AlertStatus
  pub value : Text
  pub description : Text
  pub origin : Text
  pub service : List Text
  -- `none` is the nil slice, which becomes NULL.
  pub tags : Option (List Text)
  pub timeout : ℤ
  pub rawdata : Text

pub record AlertQueries (S E : Type 0) : Type 0 where
  pub create_alert : CreateAlertParams → Statement S E Uuid
  pub delete_alert : Uuid → Statement S E ℕ
  pub set_resource : Uuid → Text → Statement S E ℕ
  pub set_environment : Uuid → Text → Statement S E ℕ
  pub set_event : Uuid → Text → Statement S E ℕ
  pub set_origin : Uuid → Text → Statement S E ℕ
  pub set_severity : Uuid → AlertSeverity → Statement S E ℕ
  pub set_status : Uuid → AlertStatus → Statement S E ℕ
  pub set_service : Uuid → (List Text) → Statement S E ℕ
  pub set_value : Uuid → Text → Statement S E ℕ
  pub set_description : Uuid → Text → Statement S E ℕ
  pub set_tags : Uuid → (List Text) → Statement S E ℕ
  pub set_timeout : Uuid → ℤ → Statement S E ℕ
  pub set_rawdata : Uuid → Text → Statement S E ℕ

pub record UpdateAlertByUuidParams : Type 0 where
  pub resource : Option Text
  pub environment : Option Text
  pub event : Option Text
  pub origin : Option Text
  pub severity : Option AlertSeverity
  pub status : Option AlertStatus
  pub service : Option (List Text)
  pub value : Option Text
  pub description : Option Text
  pub tags : Option (List Text)
  pub timeout : Option ℤ
  pub rawdata : Option Text

module _ {S E : Type 0} (q : AlertQueries S E) (faults : Faults S E) where
  -- Outside a transaction; the copy of the tags that the source makes is not used.
  unfoldable pub create_alert : CreateAlertParams → Exec S E Uuid
  create_alert p = query (q.create_alert p)

  unfoldable pub delete_alert : Uuid → Exec S E ℕ
  delete_alert uuid = query (q.delete_alert uuid)

  unfoldable pub update_alert_by_uuid : Uuid → UpdateAlertByUuidParams → Exec S E ℕ
  update_alert_by_uuid uuid p = transaction faults (do
    n1 ← optional p.resource (λ x. step faults (q.set_resource uuid x))
    n2 ← optional p.environment (λ x. step faults (q.set_environment uuid x))
    n3 ← optional p.event (λ x. step faults (q.set_event uuid x))
    n4 ← optional p.origin (λ x. step faults (q.set_origin uuid x))
    n5 ← optional p.severity (λ x. step faults (q.set_severity uuid x))
    n6 ← optional p.status (λ x. step faults (q.set_status uuid x))
    n7 ← optional p.service (λ x. step faults (q.set_service uuid x))
    n8 ← optional p.value (λ x. step faults (q.set_value uuid x))
    n9 ← optional p.description (λ x. step faults (q.set_description uuid x))
    n10 ← optional p.tags (λ x. step faults (q.set_tags uuid x))
    n11 ← optional p.timeout (λ x. step faults (q.set_timeout uuid x))
    n12 ← optional p.rawdata (λ x. step faults (q.set_rawdata uuid x))
    pure (n1 + n2 + n3 + n4 + n5 + n6 + n7 + n8 + n9 + n10 + n11 + n12))
