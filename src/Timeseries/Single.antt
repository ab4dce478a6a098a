-- ===== src/Timeseries/Single.antt =====
-- QuerySingleSourceData, querySingleSourceAggregatedData, loadAggregateSources and shouldAggregateData of
-- internal/services/timeseries.go. The queries, which only read, and time.LoadLocation are parameters; no other client
-- writes between them.
pub mod Sources
pub mod Rolled
use self_host.Prelude.{
  ℕ, Bool, true, false, not, ◌&&◌, Option, none, some, List, [], ◌∷◌, ◌++◌, if◌then◌else◌, is_empty,
  length, Result, ok, err, Checked, ◌>>=◌, ◌>>◌, fail_if,
}
use self_host.Text.{Text, codes, text_eq, trim_space}
use self_host.Policy.Rule.{Uuid}
use self_host.Timeseries.Rollups.{Time, TimeRange, rollup_source_for_precision, split_rollup_ranges}
use self_host.Timeseries.Truncate.{Calendar, truncate_time}
use self_host.Timeseries.Query.{TsRow, exceeds}
use self_host.Timeseries.Aggregate.{
  Numbers, AggregateError, database_error, invalid_unit, unknown_timezone, unsupported_precision,
  too_many_points, DataRow, AggregateRollupRow, QuerySingleSourceDataParams, shown, kept,
  aggregate_single_source_rows, aggregate_single_source_from_sources,
}

pub record TsQueries (F E : Type 0) : Type 0 where
  pub get_unit_from_timeseries : Uuid → Result E Text
  pub find_timeseries_by_uuid : Uuid → Checked E
  pub get_ts_data_range : List Uuid → Time → Time → Result E (List (DataRow F))
  pub get_ts_daily_rollup_range : List Uuid → Time → Time → Result E (List (AggregateRollupRow F))
  pub get_ts_hourly_rollup_range : List Uuid → Time → Time → Result E (List (AggregateRollupRow F))

unfoldable pub should_aggregate_data : Text → Text → Bool
should_aggregate_data aggregate precision =
    not (is_empty (trim_space precision)) && not (is_empty (trim_space aggregate))

unfoldable pub asked_database : {E A : Type 0} → Result E A → Result (AggregateError E) A
asked_database (ok a) = ok a
asked_database (err e) = err (database_error e)

unfoldable pub located : {E : Type 0} → Option Calendar → Result (AggregateError E) Calendar
located (some cal) = ok cal
located none = err unknown_timezone

module _ {F E : Type 0} (q : TsQueries F E) (uuids : List Uuid) where
  -- The loop over the raw ranges.
  unfoldable pub load_raw_rows : List TimeRange → Result (AggregateError E) (List (DataRow F))
  load_raw_rows [] = ok []
  load_raw_rows (r ∷ rs) = asked_database (q.get_ts_data_range uuids r.start r.stop) >>= λ rows.
      load_raw_rows rs >>= λ rest. ok (rows ++ rest)

  unfoldable pub load_rollup_rows :
      Text → Option TimeRange → Result (AggregateError E) (List (AggregateRollupRow F))
  load_rollup_rows source none = ok []
  load_rollup_rows source (some r) =
      if text_eq source (codes "daily")
      then asked_database (q.get_ts_daily_rollup_range uuids r.start r.stop)
      else if text_eq source (codes "hourly")
      then asked_database (q.get_ts_hourly_rollup_range uuids r.start r.stop)
      else ok []

  unfoldable pub load_split :
      Text
      → Option TimeRange × List TimeRange
      → Result (AggregateError E) (List (DataRow F) × List (AggregateRollupRow F))
  load_split source (rollup_range, raw_ranges) = load_raw_rows raw_ranges >>= λ raw_rows.
      load_rollup_rows source rollup_range >>= λ rollup_rows. ok (raw_rows, rollup_rows)

  unfoldable pub load_aggregate_sources :
      Time
      → Time
      → Text
      → Result (AggregateError E) (List (DataRow F) × List (AggregateRollupRow F))
  unfolding load_split
  load_aggregate_sources start end precision =
      let source = rollup_source_for_precision true (codes "UTC") precision in
      load_split source (split_rollup_ranges start end source)

unfoldable pub truncate_in : {E : Type 0} → Calendar → Text → Time → Result (AggregateError E) Time
truncate_in tzloc precision = truncate_time tzloc unsupported_precision precision

unfoldable pub find_unit_pair :
    {E U : Type 0} → Option U → Option U → Result (AggregateError E) (Option (U × U))
find_unit_pair (some to_unit) (some from_unit) = ok (some (from_unit, to_unit))
find_unit_pair (some to_unit) none = err invalid_unit
find_unit_pair none from_unit = err invalid_unit

module _ {F G U E : Type 0} (n : Numbers F G U) (q : TsQueries F E) where
  unfoldable pub query_single_source_aggregated_data :
      QuerySingleSourceDataParams G
      → Calendar
      → Option (U × U)
      → Result (AggregateError E) (List (TsRow G))
  query_single_source_aggregated_data p tzloc units =
      if is_empty (rollup_source_for_precision p.use_rollups p.timezone p.precision)
      then (asked_database (q.get_ts_data_range (p.uuid ∷ []) p.start p.end) >>= λ rows.
          aggregate_single_source_rows n (truncate_in tzloc p.precision) rows p units)
      else load_aggregate_sources q (p.uuid ∷ []) p.start p.end p.precision >>= λ sources.
          aggregate_single_source_from_sources n (truncate_in tzloc p.precision) sources.0 sources.1
            p units

  -- The loop over the points of a query without an aggregate.
  unfoldable pub raw_result :
      QuerySingleSourceDataParams G
      → Option (U × U)
      → List (DataRow F)
      → Result (AggregateError E) (List (TsRow G))
  raw_result p units [] = ok []
  raw_result p units (item ∷ rows) = shown n units item.value >>= λ f.
      raw_result p units rows >>= λ rest. ok (kept n p f item.ts rest)

  -- The units to convert between, none where the series has the unit asked for.
  unfoldable pub query_units :
      QuerySingleSourceDataParams G → Result (AggregateError E) (Option (U × U))
  query_units p = elim p.unit [
    | none ↦ ok none
    | some unit ↦ asked_database (q.get_unit_from_timeseries p.uuid) >>= λ ts_unit.
        if text_eq ts_unit unit
        then ok none
        else find_unit_pair (n.find_unit unit) (n.find_unit ts_unit)
  ]

  -- Where there is no row the series is looked up; then the limit is tested.
  unfoldable pub checked_result :
      QuerySingleSourceDataParams G → List (TsRow G) → Result (AggregateError E) (List (TsRow G))
  checked_result p rows =
      (if is_empty rows then asked_database (q.find_timeseries_by_uuid p.uuid) else ok tt)
      >> fail_if (exceeds p.max_points (length rows)) too_many_points
      >> ok rows

  unfoldable pub series_rows :
      QuerySingleSourceDataParams G
      → Calendar
      → Option (U × U)
      → Result (AggregateError E) (List (TsRow G))
  series_rows p tzloc units =
      if should_aggregate_data p.aggregate p.precision
      then query_single_source_aggregated_data p tzloc units
      else (asked_database (q.get_ts_data_range (p.uuid ∷ []) p.start p.end) >>= λ rows.
          raw_result p units rows)

  unfoldable pub query_single_source_data :
      (Text → Option Calendar)
      → QuerySingleSourceDataParams G
      → Result (AggregateError E) (List (TsRow G))
  unfolding located
  query_single_source_data load_location p = query_units p >>= λ units.
      located (load_location p.timezone) >>= λ tzloc.
      series_rows p tzloc units >>= λ rows. checked_result p rows
