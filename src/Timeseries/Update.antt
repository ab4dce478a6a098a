-- ===== src/Timeseries/Update.antt =====
-- AddTimeseries, UpdateTimeseries, DeleteTimeseries and DeleteTsData of internal/services/timeseries.go.
-- The queries are parameters; `F` are the float64 values, on which nothing is computed here.
pub mod Transactions
use self_host.Prelude.{
  [], ◌∷◌, true, false, ℕ, ◌+◌, Option, none, some, List, Result, ok, err, Bool, ◌==◌,
  if◌then◌else◌,
}
use self_host.Prelude.Int.{ℤ}
use mathlib.Core.Option.{map}
use self_host.Text.{Text}
use self_host.Database.{Exec, Faults, pure, fail, query, optional, transaction, step, ◌>>=◌, ◌>>◌}
use self_host.Database.Plain.{Statement}
use self_host.Policy.Rule.{Uuid}
use self_host.Timeseries.Rollups.{Time}

pub record NewTimeseriesParams (F : Type 0) : Type 0 where
  pub created_by : Uuid
  pub thing_uuid : Uuid
  pub name : Text
  pub si_unit : Text
  pub tags : List Text
  pub lower_bound : Option F
  pub upper_bound : Option F

pub record Series (F : Type 0) : Type 0 where
  pub uuid : Uuid
  pub created_by : Option Uuid
  pub thing_uuid : Option Uuid
  pub name : Text
  pub si_unit : Text
  pub tags : List Text
  pub lower_bound : Option F
  pub upper_bound : Option F

-- The bounds are float32.
pub record DeleteTsDataParams (G : Type 0) : Type 0 where
  pub uuid : Uuid
  pub start : Time
  pub stop : Time
  pub greater_or_eq : Option G
  pub less_or_eq : Option G

pub record DeleteTsDataRangeParams (F : Type 0) : Type 0 where
  pub ts_uuids : List Uuid
  pub start : Time
  pub stop : Time
  pub ge_null : Bool
  pub ge : F
  pub le_null : Bool
  pub le : F

is_none : {A : Type 0} → Option A → Bool
is_none none = true
is_none (some a) = false

or_zero : {A : Type 0} → A → Option A → A
or_zero z none = z
or_zero z (some a) = a

-- `widen` is the conversion of a float32 to float64.
unfoldable pub delete_params :
    {F G : Type 0} → (G → F) → F → DeleteTsDataParams G → DeleteTsDataRangeParams F
unfolding is_none or_zero
delete_params widen z p = record {
  ts_uuids = p.uuid ∷ [];
  start = p.start;
  stop = p.stop;
  ge_null = is_none p.greater_or_eq;
  ge = or_zero z (map widen p.greater_or_eq);
  le_null = is_none p.less_or_eq;
  le = or_zero z (map widen p.less_or_eq);
}

pub record SeriesQueries (F S E : Type 0) : Type 0 where
  pub create_timeseries : NewTimeseriesParams F → Statement S E (Series F)
  pub delete_timeseries : Uuid → Statement S E ℕ
  pub delete_ts_data_range : DeleteTsDataRangeParams F → Statement S E ℕ
  -- The float64 zero value.
  pub zero_float : F
  pub set_name : Uuid → Text → Statement S E ℕ
  pub set_si_unit : Uuid → Text → Statement S E ℕ
  pub set_thing : Uuid → Uuid → Statement S E ℕ
  pub set_lower_bound : Uuid → (Option F) → Statement S E ℕ
  pub set_upper_bound : Uuid → (Option F) → Statement S E ℕ
  pub set_tags : Uuid → (List Text) → Statement S E ℕ

pub record UpdateTimeseriesParams (F : Type 0) : Type 0 where
  pub name : Option Text
  pub si_unit : Option Text
  pub thing : Option Uuid
  pub lower_bound : Option (Option F)
  pub upper_bound : Option (Option F)
  pub tags : Option (List Text)

module _ {F S E : Type 0} (q : SeriesQueries F S E) (faults : Faults S E) where
  unfoldable pub add_timeseries : NewTimeseriesParams F → Exec S E (Series F)
  add_timeseries p = transaction faults (step faults (q.create_timeseries p))

  unfoldable pub delete_timeseries : Uuid → Exec S E ℕ
  delete_timeseries uuid = query (q.delete_timeseries uuid)

  unfoldable pub delete_ts_data : {G : Type 0} → (G → F) → DeleteTsDataParams G → Exec S E ℕ
  unfolding delete_params
  delete_ts_data widen p = query (q.delete_ts_data_range (delete_params widen q.zero_float p))

  unfoldable pub update_timeseries : Uuid → UpdateTimeseriesParams F → Exec S E ℕ
  update_timeseries uuid p = transaction faults (do
    n1 ← optional p.name (λ x. step faults (q.set_name uuid x))
    n2 ← optional p.si_unit (λ x. step faults (q.set_si_unit uuid x))
    n3 ← optional p.thing (λ x. step faults (q.set_thing uuid x))
    n4 ← optional p.lower_bound (λ x. step faults (q.set_lower_bound uuid x))
    n5 ← optional p.upper_bound (λ x. step faults (q.set_upper_bound uuid x))
    n6 ← optional p.tags (λ x. step faults (q.set_tags uuid x))
    pure (n1 + n2 + n3 + n4 + n5 + n6))
