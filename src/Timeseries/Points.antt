-- ===== src/Timeseries/Points.antt =====
-- AddDataToTimeseries of internal/services/timeseries.go. The float64 values are a parameter `F` with its
-- comparison, units and their conversion are those of the package go-units, and the queries are parameters.
pub mod Batches
pub mod Sifted
pub mod Stored
use self_host.Prelude.{
  ℕ, ◌+◌, Bool, true, false, Option, none, some, List, [], ◌∷◌, ltb, if◌then◌else◌, length, take,
  drop, is_empty, Result, ok, err, min, ◌-◌, zero, suc,
}
use self_host.Prelude
use self_host.Text.{Text, text_eq}
use self_host.Database.{Exec, pure, lift, query, ◌>>=◌}
use self_host.Database.Plain.{Statement}
use self_host.Policy.Rule.{Uuid}
use self_host.Timeseries.Rollups.{Time}

-- insertTimeseriesBatchSize
abbrev pub batch_size : ℕ
batch_size = 256

pub record DataPoint (F : Type 0) : Type 0 where
  pub value : F
  pub timestamp : Time

-- The bounds of a row of timeseries.
pub record Bounds (F : Type 0) : Type 0 where
  pub lower_bound : Option F
  pub upper_bound : Option F

pub data PointError (E : Type 0) : Type 0 where
  invalid_unit : PointError E
  invalid_unit_conversion : PointError E
  database_error : E → PointError E

-- The package go-units, and `<` on float64.
pub record Values (F U : Type 0) : Type 0 where
  pub less : F → F → Bool
  pub find_unit : Text → Option U
  pub convert : F → U → U → Option F

pub record PointQueries (F S E : Type 0) : Type 0 where
  pub get_timeseries_by_uuid : S → Uuid → Result E (Bounds F)
  pub get_unit_from_timeseries : S → Uuid → Result E Text
  -- The INSERT that insertTimeseriesBatch builds.
  pub insert_points : Uuid → Uuid → List (DataPoint F) → Statement S E ℕ

pub record AddDataToTimeseriesParams (F : Type 0) : Type 0 where
  pub uuid : Uuid
  pub points : List (DataPoint F)
  pub created_by : Uuid
  pub unit : Option Text

unfoldable pub in_unit : {E U : Type 0} → U → Option U → Result (PointError E) (U × U)
in_unit from (some to) = ok (from, to)
in_unit from none = err invalid_unit

unfoldable pub find_units :
    {F U E : Type 0} → Values F U → Option U → Text → Result (PointError E) (U × U)
unfolding in_unit
find_units v (some from) ts_unit = in_unit from (v.find_unit ts_unit)
find_units v none ts_unit = err invalid_unit

unfoldable pub found_or : {E A : Type 0} → Option A → PointError E → Result (PointError E) A
found_or (some a) e = ok a
found_or none e = err e

module _ {F U : Type 0} (v : Values F U) where
  -- `series.LowerBound.Valid` and the value is below it
  unfoldable pub below : Option F → F → Bool
  below none x = false
  below (some b) x = v.less x b

  unfoldable pub above : Option F → F → Bool
  above none x = false
  above (some b) x = v.less b x

  unfoldable pub skip_or_add : Bounds F → DataPoint F → List (DataPoint F) → List (DataPoint F)
  skip_or_add series item rest =
      if below series.lower_bound item.value
      then rest
      else if above series.upper_bound item.value
      then rest
      else item ∷ rest

module _ {F U E : Type 0} (v : Values F U) where
  unfoldable pub convert_value : Option (U × U) → F → Result (PointError E) F
  unfolding found_or
  convert_value none x = ok x
  convert_value (some (from, to)) x = found_or (v.convert x from to) invalid_unit_conversion

  -- The loop over the points.
  unfoldable pub filter_points :
      Bounds F → Option (U × U) → List (DataPoint F) → Result (PointError E) (List (DataPoint F))
  filter_points series units [] = ok []
  filter_points series units (p ∷ ps) = Prelude.◌>>=◌ (convert_value units p.value) λ x.
      Prelude.◌>>=◌ (filter_points series units ps)
        λ rest. ok (skip_or_add v series (record p { value = x }) rest)

-- The slices of the loop over `start`, by fuel for the rounds.
unfoldable pub batches {ℓ} : {A : Type ℓ} → ℕ → ℕ → List A → List (List A)
batches zero start points = []
batches (suc fuel) start points =
    let rest = batches fuel (start + batch_size) points in
    if ltb start (length points)
    then take (min (start + batch_size) (length points) - start) (drop start points) ∷ rest
    else []

unfoldable pub from_database : {E A : Type 0} → Result E A → Result (PointError E) A
from_database (ok a) = ok a
from_database (err e) = err (database_error e)

module _ {F U S E : Type 0} (v : Values F U) (q : PointQueries F S E) where
  -- A query that only reads, outside a transaction.
  unfoldable pub read : {A : Type 0} → (S → Result E A) → Exec S (PointError E) A
  unfolding from_database
  read f c = (from_database (f c.committed), c)

  unfoldable pub insert_timeseries_batch :
      Uuid → Uuid → List (DataPoint F) → Statement S (PointError E) ℕ
  unfolding from_database
  insert_timeseries_batch uuid created_by points s =
      from_database (q.insert_points uuid created_by points s)

  -- The units to convert between; none where the points come in the unit of the series.
  unfoldable pub conversion : Uuid → Option Text → Exec S (PointError E) (Option (U × U))
  conversion uuid none = pure none
  conversion uuid (some unit) = do
    ts_unit ← read (λ s. q.get_unit_from_timeseries s uuid)
    if text_eq ts_unit unit
        then pure none
        else (do units ← lift (find_units v (v.find_unit unit) ts_unit); pure (some units))

  unfoldable pub insert_batches :
      Uuid → Uuid → ℕ → List (List (DataPoint F)) → Exec S (PointError E) ℕ
  insert_batches uuid created_by total [] = pure total
  insert_batches uuid created_by total (b ∷ bs) = do
    count ← query (insert_timeseries_batch uuid created_by b)
    insert_batches uuid created_by (total + count) bs

  unfoldable pub add_data_to_timeseries : AddDataToTimeseriesParams F → Exec S (PointError E) ℕ
  add_data_to_timeseries p = do
    series ← read (λ s. q.get_timeseries_by_uuid s p.uuid)
    units ← conversion p.uuid p.unit
    filtered ← lift (filter_points v series units p.points)
    if is_empty filtered
        then pure 0
        else insert_batches p.uuid p.created_by 0 (batches (length filtered) 0 filtered)
