-- ===== src/Examples/Multi.antt =====
-- Two series aggregated by hours.
use self_host.Prelude.{ℕ, ◌≡◌, refl, true, false, none, some, List, [], ◌∷◌, inl, inr, ok}
use self_host.Text.{Text, codes, text_eq, is_space, trim_left, trim_right, trim_space}
use self_host.Policy.Rule.{Uuid}
use self_host.Timeseries.Rollups.{rollup_source_for_precision}
use self_host.Timeseries.Truncate.{
  Calendar, truncate_time, truncated_by, find_precision, or_unsupported,
}
use self_host.Timeseries.Query.{TsRow, in_valid_range, exceeds, validate_multi_series_limits}
use self_host.Timeseries.Aggregate.{
  DataRow, sort_keys, insert_key, keys_with, lower, upper, updated, bucket_or_new,
  accumulate_aggregate_bucket, aggregate_bucket_value, bucket_of,
}
use self_host.Timeseries.Single.{
  TsQueries, should_aggregate_data, asked_database, located, truncate_in,
}
use self_host.Timeseries.Multi.{
  QueryMultiSourceDataParams, limits_of, add_series, asked_limit, store_rows,
  accumulate_series_aggregate_bucket, add_series_raw_rows, kept_row, series_result, series_limits,
  all_series, aggregate_multi_source_rows, query_multi_source_aggregated_data, results_of,
  query_multi_source_data,
}
use self_host.Timeseries.Multi.Series.{VisitsAll}
use self_host.Timeseries.Multi.Results.{data_of}
use self_host.Timeseries.Multi.Each.{Alone, query_multi-Alone}
use self_host.Examples.Aggregate.{naturals, calendar}

abbrev at_30 : ℕ
at_30 = 108000000000000

abbrev row : Uuid → ℕ → DataRow ℕ
row id v = record { ts_uuid = id; value = v; ts = at_30 }

abbrev database : TsQueries ℕ Text
database = record {
  get_unit_from_timeseries = λ id. ok (codes "C");
  find_timeseries_by_uuid = λ id. ok tt;
  get_ts_data_range = λ ids start end. ok (row 1 4 ∷ row 2 9 ∷ row 1 7 ∷ []);
  get_ts_daily_rollup_range = λ ids start end. ok [];
  get_ts_hourly_rollup_range = λ ids start end. ok [];
}

abbrev params : QueryMultiSourceDataParams ℕ
params = record {
  uuids = 2 ∷ 1 ∷ 2 ∷ [];
  start = 0;
  end = 200000000000000;
  greater_or_eq = none;
  less_or_eq = none;
  aggregate = codes "sum";
  precision = codes "hour";
  timezone = codes "UTC";
  use_rollups = false;
  max_points_per_series = 5;
  max_total_points = 5;
}

abbrev answer : List (Uuid × List (TsRow ℕ))
answer = (2, record { v = 9; ts = at_30 } ∷ []) ∷ (1, record { v = 11; ts = at_30 } ∷ []) ∷ []

same-VisitsAll : VisitsAll (λ ids. ids)
same-VisitsAll = record { keys = λ ids id i. i }

hourly : should_aggregate_data params.aggregate params.precision ≡ true
unfolding should_aggregate_data trim_space trim_left trim_right is_space
hourly = refl

answered :
    query_multi_source_data naturals database
      (λ p. ok [])
      (λ ids. ids)
      (λ rows. rows)
      (λ zone. some calendar)
      params
    ≡ ok answer
unfolding query_multi_source_data located should_aggregate_data trim_space trim_left trim_right
    is_space query_multi_source_aggregated_data rollup_source_for_precision asked_database
    aggregate_multi_source_rows add_series_raw_rows accumulate_series_aggregate_bucket add_series
    accumulate_aggregate_bucket keys_with bucket_or_new updated lower upper truncate_in
    truncate_time truncated_by find_precision or_unsupported text_eq all_series series_result
    sort_keys insert_key bucket_of aggregate_bucket_value kept_row in_valid_range series_limits
    asked_limit validate_multi_series_limits exceeds limits_of store_rows results_of
answered = refl

query_multi-Alone_example :
    (cal : Calendar) × (some calendar ≡ some cal)
    × Alone naturals database
        (λ p. ok [])
        (λ ids. ids)
        same-VisitsAll
        (λ rows. rows)
        params
        1
        cal
        (data_of 1 answer)
query_multi-Alone_example =
    query_multi-Alone naturals database (λ p. ok []) (λ ids. ids) same-VisitsAll (λ rows. rows)
      params 1 (λ zone. some calendar) answer hourly (inr (inl refl)) answered
