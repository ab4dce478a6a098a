-- ===== src/Examples/Aggregate.antt =====
-- A series aggregated by days, with rollups and without.
use self_host.Prelude.{
  Outcome, ℕ, ◌+◌, ◌-◌, ◌*◌, ◌/◌, ◌%◌, ◌≡◌, refl, subst, true, Option, none, some, List, [], ◌∷◌,
  ltb, leb, Result, ok, arith,
}
use mathlib.Core.List.{Permᴰ}
use mathlib.Core.List.Permᴰ
use mathlib.Core.Option.{some-injective}
use self_host.Text.{Text, codes, text_eq, is_space, trim_left, trim_right, trim_space}
use self_host.Timeseries.Rollups.{
  Time, Span, nanoseconds, first_full, last_full, left_range, right_range,
  rollup_source_for_precision, split_ranges, split_rollup_ranges,
}
use self_host.Timeseries.Rollups.Partition.{in_range}
use self_host.Timeseries.Truncate.{
  Calendar, truncate_time, truncated_by, find_precision, midnight, or_unsupported,
}
use self_host.Timeseries.Truncate.Coarse.{IsUtc}
use self_host.Timeseries.Query.{exceeds, in_valid_range}
use self_host.Timeseries.Aggregate.{
  Numbers, AggregateError, unsupported_precision, DataRow, QuerySingleSourceDataParams, lower,
  upper, aggregate_single_source_rows, accumulate_aggregate_bucket, add_raw_rows, add_rollup_rows,
  aggregate_bucket_value, aggregate_single_source_from_sources, bucket_of, bucket_or_new,
  build_single_source_aggregate_result, insert_key, kept, keys_with, result_rows, shown, sort_keys,
  updated,
}
use self_host.Timeseries.Aggregate.Sums.{IsExact}
use self_host.Timeseries.Aggregate.Table.{filter, rollup_table, upsert_rollup}
use self_host.Timeseries.Aggregate.Same.{aggregate_single_source_rows-Perm}
use self_host.Timeseries.Aggregate.Rising.{
  IsRising, IsReturned, aggregate_single_source_rows-IsRising,
}
use self_host.Timeseries.Single.{
  TsQueries, query_single_source_data, asked_database, checked_result, load_aggregate_sources,
  load_raw_rows, load_rollup_rows, load_split, located, query_single_source_aggregated_data,
  query_units, series_rows, should_aggregate_data, truncate_in,
}
use self_host.Timeseries.Single.Sources.{IsStored}
use self_host.Timeseries.Single.Rolled.{without_rollups, query-without_rollups}

-- Whole numbers, which are added exactly; no units.
abbrev pub naturals : Numbers ℕ ℕ ℕ
naturals = record {
  zero = 0;
  add = λ x y. x + y;
  divide = λ x y. x / y;
  of_count = λ k. k;
  less = ltb;
  float32 = λ x. x;
  le = leb;
  find_unit = λ u. none;
  convert = λ x u w. none;
}

naturals-IsExact : IsExact naturals
unfolding lower upper
naturals-IsExact = record {
  add_zero = λ x. omega arith;
  add_comm = λ x y. omega arith;
  add_assoc = λ x y z. omega arith;
  lower_comm = λ x y. ground arith;
  lower_assoc = λ x y z. ground arith;
  upper_comm = λ x y. ground arith;
  upper_assoc = λ x y z. ground arith;
}

abbrev day : ℕ
day = nanoseconds Span.day

-- A calendar of twelve months of 31 days.
abbrev pub calendar : Calendar
calendar = record {
  year = λ t. t / day / 372;
  month = λ t. t / day / 31 % 12 + 1;
  day = λ t. t / day % 31 + 1;
  hour = λ t. t / 3600000000000 % 24;
  minute = λ t. t / 60000000000 % 60;
  weekday = λ t. t / day % 7;
  date = λ y m d h min.
      ((y * 12 + (m - 1)) * 31 + (d - 1)) * day + h * 3600000000000 + min * 60000000000;
  days_before = λ k t. t - k * day;
}

same_day : (t : Time) → (t - t % day) / day ≡ t / day
same_day t = omega arith

calendar-IsUtc : IsUtc calendar
calendar-IsUtc = record {
  year_of_day = λ t. rw (same_day t) refl;
  month_of_day = λ t. rw (same_day t) refl;
  day_of_day = λ t. rw (same_day t) refl;
  weekday_of_day = λ t. rw (same_day t) refl;
  days_before_of_day = λ k t. omega arith;
}

abbrev point : Time → ℕ → DataRow ℕ
point t v = record { ts_uuid = 1; value = v; ts = t }

-- Hours 30, 50, 60 and 80.
abbrev points : List (DataRow ℕ)
points =
    point 108000000000000 4
    ∷ point 180000000000000 9
    ∷ point 216000000000000 2
    ∷ point 288000000000000 7
    ∷ []

abbrev database : TsQueries ℕ Text
database = record {
  get_unit_from_timeseries = λ id. ok (codes "C");
  find_timeseries_by_uuid = λ id. ok tt;
  get_ts_data_range = λ ids start end.
      ok (filter (λ a. in_range (record { start = start; stop = end }) a.ts) points);
  get_ts_daily_rollup_range = λ ids start end. ok (
      filter (λ a. in_range (record { start = start; stop = end }) a.bucket_ts)
        (rollup_table naturals Span.day points));
  get_ts_hourly_rollup_range = λ ids start end. ok (
      filter (λ a. in_range (record { start = start; stop = end }) a.bucket_ts)
        (rollup_table naturals Span.hour points));
}

-- The sums of the days of the hours from 29 to 79.
abbrev params : QuerySingleSourceDataParams ℕ
params = record {
  uuid = 1;
  start = 104400000000000;
  end = 284400000000000;
  greater_or_eq = none;
  less_or_eq = none;
  unit = none;
  aggregate = codes "sum";
  precision = codes "day";
  timezone = codes "UTC";
  use_rollups = true;
  max_points = 10;
}

abbrev locations : Text → Option Calendar
locations name = some calendar

database-IsStored : IsStored naturals database 1 points
database-IsStored = record {
  points = λ r. (_, refl, Permᴰ.refl _);
  hourly = λ r. (_, refl, Permᴰ.refl _);
  daily = λ r. (_, refl, Permᴰ.refl _);
}

-- Day 1 holds one of the points, day 2 two.
sums :
    query_single_source_data naturals database locations params
    ≡ ok (record { v = 4; ts = 86400000000000 } ∷ record { v = 11; ts = 172800000000000 } ∷ [])
unfolding query_single_source_data asked_database checked_result load_aggregate_sources
    load_raw_rows load_rollup_rows load_split located query_single_source_aggregated_data
    query_units series_rows should_aggregate_data truncate_in accumulate_aggregate_bucket
    add_raw_rows add_rollup_rows aggregate_bucket_value aggregate_single_source_from_sources
    bucket_of bucket_or_new build_single_source_aggregate_result insert_key kept keys_with
    result_rows shown sort_keys updated exceeds in_valid_range first_full last_full left_range
    right_range rollup_source_for_precision split_ranges split_rollup_ranges midnight or_unsupported
    is_space trim_left trim_right trim_space aggregate_single_source_rows lower upper truncate_time
    truncated_by find_precision text_eq filter rollup_table upsert_rollup in_range
sums = refl

abbrev day_of : Time → Result (AggregateError Text) Time
day_of t = ok (t - t % day)

query-without_rollups_example :
    query_single_source_data naturals database locations params
    ≡ query_single_source_data naturals database locations (without_rollups params)
query-without_rollups_example =
    query-without_rollups naturals naturals-IsExact database points locations
      (λ cal e. subst IsUtc (some-injective _ _ e) calendar-IsUtc)
      (refl, (refl, (refl, (refl, tt)))) params database-IsStored (omega arith)

aggregate_single_source_rows-Perm_example :
    aggregate_single_source_rows naturals day_of (point 5 1 ∷ point 3 2 ∷ []) params none
    ≡ aggregate_single_source_rows naturals day_of (point 3 2 ∷ point 5 1 ∷ []) params none
aggregate_single_source_rows-Perm_example =
    aggregate_single_source_rows-Perm naturals (λ t. t - t % day) day_of (λ t. refl)
      naturals-IsExact (point 5 1 ∷ point 3 2 ∷ []) (point 3 2 ∷ point 5 1 ∷ [])
      (Permᴰ.swap refl refl) params none

aggregate_single_source_rows-IsRising_example :
    Outcome {E = AggregateError Text} IsRising IsReturned (
      aggregate_single_source_rows naturals
        (truncate_time calendar unsupported_precision (codes "day"))
        points
        params
        none)
aggregate_single_source_rows-IsRising_example =
    aggregate_single_source_rows-IsRising naturals Text calendar params none points
