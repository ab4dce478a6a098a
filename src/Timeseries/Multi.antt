-- ===== src/Timeseries/Multi.antt =====
-- Queries over several series in internal/services/timeseries.go: aggregateMultiSourceRows, aggregateMultiSourceFromSources,
-- accumulateSeriesAggregateBucket, queryMultiSourceAggregatedData, appendRawMultiSourceRows and QueryMultiSourceData. The
-- queries, the order in which Go visits a map and sort.Slice of rows are parameters.
pub mod Gather
pub mod Series
pub mod Results
pub mod Each
use self_host.Prelude.{
  ℕ, ◌+◌, Bool, true, false, ◌||◌, Option, none, some, List, [], ◌∷◌, ◌++◌, ◌==◌, ltb,
  if◌then◌else◌, is_empty, any, length, Result, ok, err, ◌>>=◌, ◌>>◌,
}
use self_host.Text.{Text}
use self_host.Policy.Rule.{Uuid}
use self_host.Timeseries.Rollups.{Time, rollup_source_for_precision}
use self_host.Timeseries.Truncate.{Calendar}
use self_host.Timeseries.Query.{
  TsRow, Limits, LimitError, LimitedRow, Mapping, with_row, in_valid_range,
  validate_multi_series_limits, append_raw_multi_source_limited_rows,
}
use self_host.Timeseries.Aggregate.{
  Numbers, AggregateError, limit_error, DataRow, AggregateRollupRow, AggregateBucket, Buckets,
  no_buckets, sort_keys, accumulate_aggregate_bucket, aggregate_bucket_value, bucket_of,
}
use self_host.Timeseries.Single.{
  TsQueries, should_aggregate_data, asked_database, located, load_aggregate_sources, truncate_in,
}

pub record QueryMultiSourceDataParams (G : Type 0) : Type 0 where
  pub uuids : List Uuid
  pub start : Time
  pub end : Time
  pub greater_or_eq : Option G
  pub less_or_eq : Option G
  pub aggregate : Text
  pub precision : Text
  pub timezone : Text
  pub use_rollups : Bool
  pub max_points_per_series : ℕ
  pub max_total_points : ℕ

unfoldable pub limits_of : {G : Type 0} → QueryMultiSourceDataParams G → Limits
limits_of p = record {
  max_points_per_series = p.max_points_per_series;
  max_total_points = p.max_total_points;
}

-- bucketsBySeries and keysBySeries, with the keys of the two maps, which are the same.
pub record SeriesBuckets (F : Type 0) : Type 0 where
  pub of : Uuid → Buckets F
  pub series : List Uuid

abbrev pub no_series : {F : Type 0} → SeriesBuckets F
no_series = record { of = λ id. no_buckets; series = [] }

unfoldable pub add_series : Uuid → List Uuid → List Uuid
add_series id ids = if any (λ k. k == id) ids then ids else ids ++ id ∷ []

unfoldable pub asked_limit : {E A : Type 0} → Result LimitError A → Result (AggregateError E) A
asked_limit (ok a) = ok a
asked_limit (err e) = err (limit_error e)

-- `mapping[seriesID] = rows` where there are rows
unfoldable pub store_rows : {G : Type 0} → Mapping G → Uuid → List (TsRow G) → Mapping G
store_rows mapping id [] = mapping
store_rows mapping id (row ∷ rows) = λ k. if id == k then row ∷ rows else mapping k

module _ {F G U : Type 0} (n : Numbers F G U) where
  unfoldable pub accumulate_series_aggregate_bucket :
      SeriesBuckets F → Uuid → Time → ℕ → F → F → F → SeriesBuckets F
  accumulate_series_aggregate_bucket b id bucket_ts count sum min max = record {
    of = λ k.
        if id == k
        then accumulate_aggregate_bucket n (b.of id) bucket_ts count sum min max
        else b.of k;
    series = add_series id b.series;
  }

  module _ (p : QueryMultiSourceDataParams G) where
    unfoldable pub kept_row : G → Time → List (TsRow G) → List (TsRow G)
    kept_row f ts rest =
        if in_valid_range n.le f p.less_or_eq p.greater_or_eq
        then record { v = f; ts = ts } ∷ rest
        else rest

    -- The loop of appendRawMultiSourceRows
    unfoldable pub append_range_rows :
        Mapping G → ℕ → List (DataRow F) → Result LimitError (Mapping G)
    append_range_rows mapping total [] = ok mapping
    append_range_rows mapping total (item ∷ rows) =
        let f = n.float32 item.value in
        let mapping' = with_row mapping item.ts_uuid (record { v = f; ts = item.ts }) in
        let skipped = append_range_rows mapping total rows in
        let appended =
          (validate_multi_series_limits (length (mapping' item.ts_uuid)) (total + 1) (limits_of p)
            >> append_range_rows mapping' (total + 1) rows) in
        if in_valid_range n.le f p.less_or_eq p.greater_or_eq then appended else skipped

    -- `sort` is sort.Slice of rows by Before.
    unfoldable pub append_raw_multi_source_rows :
        (List (TsRow G) → List (TsRow G)) → List (DataRow F) → Result LimitError (Mapping G)
    append_raw_multi_source_rows sort rows = append_range_rows (λ id. []) 0 rows >>= λ mapping.
        ok (λ id. if is_empty (mapping id) then [] else sort (mapping id))

module _ {F G U E : Type 0} (n : Numbers F G U) where
  module _ (truncate : Time → Result (AggregateError E) Time) where
    unfoldable pub add_series_raw_rows :
        SeriesBuckets F → List (DataRow F) → Result (AggregateError E) (SeriesBuckets F)
    add_series_raw_rows b [] = ok b
    add_series_raw_rows b (item ∷ rows) = truncate item.ts >>= λ ts.
        add_series_raw_rows
          (accumulate_series_aggregate_bucket n b item.ts_uuid ts 1 item.value item.value
            item.value)
          rows

    unfoldable pub add_series_rollup_rows :
        SeriesBuckets F → List (AggregateRollupRow F) → Result (AggregateError E) (SeriesBuckets F)
    add_series_rollup_rows b [] = ok b
    add_series_rollup_rows b (item ∷ rows) = truncate item.bucket_ts >>= λ ts.
        add_series_rollup_rows
          (accumulate_series_aggregate_bucket n b item.ts_uuid ts item.sample_count item.sample_sum
            item.sample_min item.sample_max)
          rows

  module _ (p : QueryMultiSourceDataParams G) where
    -- The loop over the keys of one series
    unfoldable pub series_result :
        (Time → Option (AggregateBucket F)) → List Time → Result (AggregateError E) (List (TsRow G))
    series_result at [] = ok []
    series_result at (key ∷ keys) = bucket_of n (at key) >>= λ bucket.
        aggregate_bucket_value n bucket p.aggregate >>= λ value.
        series_result at keys >>= λ rest. ok (kept_row n p (n.float32 value) key rest)

    unfoldable pub series_limits : ℕ → List (TsRow G) → Result (AggregateError E) Unit
    series_limits total rows =
        if is_empty rows
        then ok tt
        else asked_limit
            (validate_multi_series_limits (length rows) (total + length rows) (limits_of p))

    -- The loop over the series
    unfoldable pub all_series :
        (Uuid → Buckets F) → ℕ → Mapping G → List Uuid → Result (AggregateError E) (Mapping G)
    all_series of total mapping [] = ok mapping
    all_series of total mapping (id ∷ ids) =
        series_result (of id).at (sort_keys (of id).keys) >>= λ rows.
        series_limits total rows
        >> all_series of (total + length rows) (store_rows mapping id rows) ids

    module _ (visit : List Uuid → List Uuid) where
      unfoldable pub aggregate_multi_source_rows :
          (Time → Result (AggregateError E) Time)
          → List (DataRow F)
          → Result (AggregateError E) (Mapping G)
      aggregate_multi_source_rows truncate rows =
          if is_empty rows
          then ok (λ id. [])
          else add_series_raw_rows truncate no_series rows >>= λ b.
              all_series b.of 0 (λ id. []) (visit b.series)

      unfoldable pub aggregate_multi_source_from_sources :
          (Time → Result (AggregateError E) Time)
          → List (DataRow F)
          → List (AggregateRollupRow F)
          → Result (AggregateError E) (Mapping G)
      aggregate_multi_source_from_sources truncate raw_rows rollup_rows =
          add_series_raw_rows truncate no_series raw_rows >>= λ b.
          add_series_rollup_rows truncate b rollup_rows >>= λ c.
          all_series c.of 0 (λ id. []) (visit c.series)

      unfoldable pub query_multi_source_aggregated_data :
          TsQueries F E → Calendar → Result (AggregateError E) (Mapping G)
      query_multi_source_aggregated_data q tzloc =
          if is_empty (rollup_source_for_precision p.use_rollups p.timezone p.precision)
          then (asked_database (q.get_ts_data_range p.uuids p.start p.end) >>= λ rows.
              aggregate_multi_source_rows (truncate_in tzloc p.precision) rows)
          else load_aggregate_sources q p.uuids p.start p.end p.precision >>= λ sources.
              aggregate_multi_source_from_sources (truncate_in tzloc p.precision) sources.0
                sources.1

-- The loop over the series asked for, with the map of those seen
unfoldable pub results_of :
    {G : Type 0} → Mapping G → List Uuid → List Uuid → List (Uuid × List (TsRow G))
results_of mapping seen [] = []
results_of mapping seen (key ∷ keys) =
    let rest = results_of mapping (if any (λ k. k == key) seen then seen else key ∷ seen) keys in
    if any (λ k. k == key) seen || is_empty (mapping key) then rest else (key, mapping key) ∷ rest

module _ {F G U E : Type 0} (n : Numbers F G U) (q : TsQueries F E)
    (get_ts_data_range_limited : QueryMultiSourceDataParams G → Result E (List (LimitedRow F)))
    (visit : List Uuid → List Uuid) (sort : List (TsRow G) → List (TsRow G)) where
  unfoldable pub multi_raw_data :
      QueryMultiSourceDataParams G → Result (AggregateError E) (Mapping G)
  multi_raw_data p =
      if ltb 0 p.max_points_per_series || ltb 0 p.max_total_points
      then (asked_database (get_ts_data_range_limited p) >>= λ rows.
          asked_limit
            (append_raw_multi_source_limited_rows n.float32 (limits_of p) (λ id. []) rows))
      else asked_database (q.get_ts_data_range p.uuids p.start p.end) >>= λ rows.
          asked_limit (append_raw_multi_source_rows n p sort rows)

  unfoldable pub query_multi_source_data :
      (Text → Option Calendar)
      → QueryMultiSourceDataParams G
      → Result (AggregateError E) (List (Uuid × List (TsRow G)))
  unfolding located
  query_multi_source_data load_location p = located (load_location p.timezone) >>= λ tzloc.
      (if should_aggregate_data p.aggregate p.precision
        then query_multi_source_aggregated_data n p visit q tzloc
        else multi_raw_data p)
      >>= λ mapping. ok (results_of mapping [] p.uuids)
