-- ===== src/Timeseries/Single/Rolled.antt =====
-- The answer of a query with rollups is that of one without.
use self_host.Prelude.{
  ℕ, ◌≤◌, ◌%◌, ◌≡◌, refl, sym, ap, ◌∙◌, inl, inr, false, Option, some, List, [], ◌∷◌, if◌then◌else◌,
  is_empty, All, Result, ok, ◌>>=◌, Option-cases, arith,
}
use self_host.Text.{Text, codes, text_eq}
use self_host.Timeseries.Rollups.{
  Time, Span, nanoseconds, microsecond, rollup_source_for_precision, split_rollup_ranges,
  split_ranges,
}
use self_host.Timeseries.Truncate.{
  Calendar, Precision, precisions, find_precision, truncated_by, truncate_time, or_unsupported,
}
use self_host.Timeseries.Truncate.Coarse.{
  IsUtc, IsCoarse, truncated_by-truncated, rollup_source, source_of, source_of-Served, source-cases,
}
use self_host.Timeseries.Query.{TsRow}
use self_host.Timeseries.Aggregate.{
  Numbers, AggregateError, AggregateBucket, DataRow, QuerySingleSourceDataParams, bucket_of,
  no_buckets, add_raw_rows, sort_keys, kept, shown, result_rows, aggregate_bucket_value,
  build_single_source_aggregate_result, aggregate_single_source_rows,
  aggregate_single_source_from_sources,
}
use self_host.Timeseries.Aggregate.Sums.{IsExact}
use self_host.Timeseries.Aggregate.Same.{from_sources-rows}
use self_host.Timeseries.Single.{
  TsQueries, load_split, load_aggregate_sources, asked_database, truncate_in, series_rows,
  should_aggregate_data, located, raw_result, query_units, checked_result,
  query_single_source_aggregated_data, query_single_source_data,
}
use self_host.Timeseries.Single.Sources.{IsStored, loaded-same}

abbrev pub without_rollups :
    {G : Type 0} → QuerySingleSourceDataParams G → QuerySingleSourceDataParams G
without_rollups p = record p { use_rollups = false }

module _ {F G U E : Type 0} (n : Numbers F G U) (q : TsQueries F E)
    (p : QuerySingleSourceDataParams G) (units : Option (U × U)) where
  result_rows-params :
      (at : Time → Option (AggregateBucket F)) (keys : List Time)
      → result_rows {E = E} n p units at keys ≡ result_rows n (without_rollups p) units at keys
  unfolding result_rows kept
  result_rows-params at [] = refl
  result_rows-params at (key ∷ keys) = λ i. bucket_of n (at key) >>= λ bucket.
      aggregate_bucket_value n bucket p.aggregate >>= λ value. shown n units value >>= λ f.
      result_rows-params at keys i >>= λ rest. ok (kept n p f bucket.ts rest)

  raw_result-params :
      (rows : List (DataRow F))
      → raw_result n q p units rows ≡ raw_result n q (without_rollups p) units rows
  unfolding raw_result kept
  raw_result-params [] = refl
  raw_result-params (r ∷ rows) = λ i.
      shown n units r.value >>= λ f. raw_result-params rows i >>= λ rest. ok (kept n p f r.ts rest)

  rows-params :
      (truncate : Time → Result (AggregateError E) Time) (rows : List (DataRow F))
      → aggregate_single_source_rows n truncate rows p units
        ≡ aggregate_single_source_rows n truncate rows (without_rollups p) units
  unfolding aggregate_single_source_rows build_single_source_aggregate_result
  rows-params truncate rows = λ i.
      add_raw_rows n truncate no_buckets rows >>= λ b. result_rows-params b.at (sort_keys b.keys) i

source-off : (timezone precision : Text) → rollup_source_for_precision false timezone precision ≡ []
unfolding rollup_source_for_precision
source-off timezone precision = refl

module _ {F G U E : Type 0} (n : Numbers F G U) (q : TsQueries F E)
    (p : QuerySingleSourceDataParams G) (cal : Calendar) (units : Option (U × U)) where
  raw_query : Result (AggregateError E) (List (TsRow G))
  raw_query = asked_database (q.get_ts_data_range (p.uuid ∷ []) p.start p.end) >>= λ rows.
      aggregate_single_source_rows n (truncate_in cal p.precision) rows p units

  by_rows :
      rollup_source_for_precision p.use_rollups p.timezone p.precision ≡ []
      → query_single_source_aggregated_data n q p cal units ≡ raw_query
  unfolding query_single_source_aggregated_data raw_query
  by_rows e = rw e refl

rollup_source-nonempty : (u : Span) → is_empty (rollup_source u) ≡ false
rollup_source-nonempty Span.hour = refl
rollup_source-nonempty Span.day = refl

split_rollup_ranges-source :
    (u : Span) (start end : Time)
    → split_rollup_ranges start end (rollup_source u) ≡ split_ranges u start end
unfolding split_rollup_ranges text_eq
split_rollup_ranges-source Span.hour start end = refl
split_rollup_ranges-source Span.day start end = refl

truncate_in-found :
    {E : Type 0} (cal : Calendar) (precision : Text) (c : Precision)
    → find_precision precisions precision ≡ some c
    → (t : Time) → truncate_in {E = E} cal precision t ≡ ok (truncated_by cal c t)
unfolding truncate_in truncate_time or_unsupported
truncate_in-found cal precision c h t = rw h refl

day_at_least : (u : Span) (end : ℕ) → nanoseconds Span.day ≤ end → nanoseconds u ≤ end
day_at_least Span.hour end h = omega arith
day_at_least Span.day end h = h

module _ {F G U E : Type 0} (n : Numbers F G U) (x : IsExact n) (q : TsQueries F E)
    (pts : List (DataRow F)) (cal : Calendar) (p : QuerySingleSourceDataParams G)
    (stored : IsStored n q p.uuid pts) (late : nanoseconds Span.day ≤ p.end)
    (micro : All (λ r. r.ts % microsecond ≡ 0) pts) (units : Option (U × U)) where
  loaded-rows :
      (utc : IsUtc cal) (u : Span) (c : Precision)
      → IsCoarse u c
      → find_precision precisions p.precision ≡ some c
      → source_of p.precision ≡ rollup_source u
      → (load_aggregate_sources q (p.uuid ∷ []) p.start p.end p.precision >>= λ sources.
          aggregate_single_source_from_sources n
            (truncate_in cal p.precision)
            sources.0
            sources.1
            p
            units)
        ≡ (asked_database (q.get_ts_data_range (p.uuid ∷ []) p.start p.end) >>= λ rows.
            aggregate_single_source_rows n (truncate_in cal p.precision) rows p units)
  unfolding load_aggregate_sources load_split asked_database source_of
  loaded-rows utc u c coarse found source =
      let g = truncated_by cal c in
      let (raw, all, rollups, e, d, a, h) =
        loaded-same n x q p.uuid pts stored g u p.start p.end
          (truncated_by-truncated cal utc coarse) (day_at_least u p.end late) micro in
      rw source (
        rw (split_rollup_ranges-source u p.start p.end) (
          rw e (
            rw d (
              rw a (
                from_sources-rows n g (truncate_in cal p.precision)
                  (truncate_in-found cal p.precision c found) x raw all rollups h p units)))))

  by_sources :
      (u : Span)
      → rollup_source_for_precision p.use_rollups p.timezone p.precision ≡ rollup_source u
      → query_single_source_aggregated_data n q p cal units ≡ (
          load_aggregate_sources q (p.uuid ∷ []) p.start p.end p.precision >>= λ sources.
          aggregate_single_source_from_sources n
            (truncate_in cal p.precision)
            sources.0
            sources.1
            p
            units)
  unfolding query_single_source_aggregated_data
  by_sources u e = rw e (rw (rollup_source-nonempty u) refl)

  same_rows :
      raw_query n q p cal units
      ≡ query_single_source_aggregated_data n q (without_rollups p) cal units
  unfolding raw_query
  same_rows =
      (λ i. asked_database (q.get_ts_data_range (p.uuid ∷ []) p.start p.end) >>= λ rows.
      rows-params n q p units (truncate_in cal p.precision) rows i)
      ∙ sym (by_rows n q (without_rollups p) cal units (source-off p.timezone p.precision))

  aggregated-without_rollups :
      (p.timezone ≡ codes "UTC" → IsUtc cal)
      → query_single_source_aggregated_data n q p cal units
        ≡ query_single_source_aggregated_data n q (without_rollups p) cal units
  unfolding raw_query query_single_source_aggregated_data
  aggregated-without_rollups utc = elim (source-cases p.use_rollups p.timezone p.precision) [
    | inl e ↦ by_rows n q p cal units e ∙ same_rows
    | inr (z, e) ↦ elim (source_of-Served p.precision) [
      | inl f ↦ by_rows n q p cal units (e ∙ f) ∙ same_rows
      | inr (u, c, found, coarse, s) ↦
          by_sources u (e ∙ s) ∙ loaded-rows (utc z) u c coarse found s ∙ same_rows
    ]
  ]

  series_rows-without_rollups :
      (p.timezone ≡ codes "UTC" → IsUtc cal)
      → series_rows n q p cal units ≡ series_rows n q (without_rollups p) cal units
  unfolding series_rows
  series_rows-without_rollups utc = λ i.
      if should_aggregate_data p.aggregate p.precision
      then aggregated-without_rollups utc i
      else (asked_database (q.get_ts_data_range (p.uuid ∷ []) p.start p.end) >>= λ rows.
          raw_result-params n q p units rows i)

module _ {F G U E : Type 0} (n : Numbers F G U) (x : IsExact n) (q : TsQueries F E)
    (pts : List (DataRow F)) where
  -- Where sums are exact, the points stand in whole microseconds, the database holds the rollups of the points that it holds,
  -- the end is after the first day of time itself and in UTC the calendar has days of 24 hours, a query answers the same,
  -- an error too, whether it may use rollups or not.
  pub query-without_rollups :
      (load_location : Text → Option Calendar)
      → ((cal : Calendar) → load_location (codes "UTC") ≡ some cal → IsUtc cal)
      → All (λ r. r.ts % microsecond ≡ 0) pts
      → (p : QuerySingleSourceDataParams G) → IsStored n q p.uuid pts
      → nanoseconds Span.day ≤ p.end
      → query_single_source_data n q load_location p
        ≡ query_single_source_data n q load_location (without_rollups p)
  unfolding query_single_source_data checked_result query_units located
  query-without_rollups load_location utc micro p stored late =
      elim (Option-cases (load_location p.timezone)) [
        | inl e ↦ rw e refl
        | inr (cal, e) ↦ rw e λ i. query_units n q p >>= λ units.
            series_rows-without_rollups n x q pts cal p stored late micro units
              (λ z. utc cal (sym (ap load_location z) ∙ e)) i
            >>= λ rows. checked_result n q p rows
      ]
