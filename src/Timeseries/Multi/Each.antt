-- ===== src/Timeseries/Multi/Each.antt =====
-- An aggregated query over several series answers for each what a query of this series alone does.
use self_host.Prelude.{
  ◌≡◌, inl, inr, refl, sym, ap, subst, ◌∙◌, true, false, Option, none, some, List, [], is_empty,
  Result, ok, Bool-cases, Option-cases, Result-cases, In,
}
use self_host.Text.{Text}
use self_host.Policy.Rule.{Uuid}
use self_host.Timeseries.Rollups.{rollup_source_for_precision}
use self_host.Timeseries.Truncate.{Calendar}
use self_host.Timeseries.Query.{TsRow, Mapping, LimitedRow}
use self_host.Timeseries.Aggregate.{
  Numbers, DataRow, AggregateRollupRow, aggregate_single_source_from_sources,
}
use self_host.Timeseries.Single.{
  TsQueries, should_aggregate_data, asked_database, located, load_aggregate_sources, truncate_in,
}
use self_host.Timeseries.Multi.{
  QueryMultiSourceDataParams, query_multi_source_aggregated_data, results_of,
  query_multi_source_data,
}
use self_host.Timeseries.Multi.Gather.{points_of, rollups_of}
use self_host.Timeseries.Multi.Series.{
  series_params, VisitsAll, ok_mapping, single, from_sources-each, rows-each,
}
use self_host.Timeseries.Multi.Results.{data_of, results_of-asked}

-- The points and the rollup rows that an aggregated query reads.
pub data Loaded {F G E : Type 0} (q : TsQueries F E) (p : QueryMultiSourceDataParams G)
    (raw : List (DataRow F)) (rollups : List (AggregateRollupRow F)) : Type 0 where
  points :
      is_empty (rollup_source_for_precision p.use_rollups p.timezone p.precision) ≡ true
      → asked_database (q.get_ts_data_range p.uuids p.start p.end) ≡ ok raw
      → rollups ≡ []
      → Loaded q p raw rollups
  sources :
      is_empty (rollup_source_for_precision p.use_rollups p.timezone p.precision) ≡ false
      → load_aggregate_sources q p.uuids p.start p.end p.precision ≡ ok (raw, rollups)
      → Loaded q p raw rollups

module _ {F G U E : Type 0} (n : Numbers F G U) (q : TsQueries F E)
    (limited : QueryMultiSourceDataParams G → Result E (List (LimitedRow F)))
    (visit : List Uuid → List Uuid) (visits : VisitsAll visit)
    (sort : List (TsRow G) → List (TsRow G)) (p : QueryMultiSourceDataParams G) (id : Uuid) where
  -- The rows of the series, made of its points and rollups among those read.
  unfoldable pub Alone : Calendar → List (TsRow G) → Type 0
  Alone cal rows =
      (raw : List (DataRow F)) × (rollups : List (AggregateRollupRow F)) × Loaded q p raw rollups
      × (aggregate_single_source_from_sources n (truncate_in {E = E} cal p.precision)
            (points_of id raw) (rollups_of id rollups) (series_params p id) none
          ≡ ok rows)

  aggregated-Alone :
      (cal : Calendar) (m : Mapping G)
      → query_multi_source_aggregated_data n p visit q cal ≡ ok m
      → Alone cal (m id)
  unfolding query_multi_source_aggregated_data Alone
  aggregated-Alone cal m h =
      elim (Bool-cases
        (is_empty (rollup_source_for_precision p.use_rollups p.timezone p.precision))) [
          | inl e ↦
              elim (Result-cases (asked_database (q.get_ts_data_range p.uuids p.start p.end))) [
                | inr (x, f) ↦ cc (rw (e, f) at h)
                | inl (raw, f) ↦ (
                  raw,
                  [],
                  points e f refl,
                  unfold single in
                      rows-each E n p visit visits (truncate_in cal p.precision) raw m id
                        (rw (e, f) at h),
                )
              ]
          | inr e ↦
              elim (Result-cases (load_aggregate_sources q p.uuids p.start p.end p.precision)) [
                | inr (x, f) ↦ cc (rw (e, f) at h)
                | inl ((raw, rollups), f) ↦ (
                  raw,
                  rollups,
                  sources e f,
                  unfold single in
                      from_sources-each E n p visit visits (truncate_in cal p.precision) raw rollups
                        m id (rw (e, f) at h),
                )
              ]
        ]

  -- Where an aggregated query over several series answers, it holds for each series asked for exactly the rows that the
  -- aggregation of this series alone makes of its points and rollups among those read, and nothing where these make no row;
  -- in whatever order Go visits its maps.
  pub query_multi-Alone :
      (load_location : Text → Option Calendar) (results : List (Uuid × List (TsRow G)))
      → should_aggregate_data p.aggregate p.precision ≡ true
      → In id p.uuids
      → query_multi_source_data n q limited visit sort load_location p ≡ ok results
      → (cal : Calendar) × (load_location p.timezone ≡ some cal) × Alone cal (data_of id results)
  unfolding query_multi_source_data located
  query_multi-Alone load_location results a i h = elim (Option-cases (load_location p.timezone)) [
    | inl e ↦ cc (rw (e, located) at h)
    | inr (cal, e) ↦ elim (Result-cases (query_multi_source_aggregated_data n p visit q cal)) [
      | inr (x, f) ↦ cc (rw (e, a, f, located) at h)
      | inl (m, f) ↦
          let g : results_of m [] p.uuids ≡ results =
            ok_mapping {E = E} (rw (e, a, f, located) at h) in
          (
            cal,
            e,
            subst (λ (rows : List (TsRow G)). Alone cal rows)
                (sym (results_of-asked m id [] p.uuids refl i) ∙ ap (data_of id) g)
                (aggregated-Alone cal m f),
          )
    ]
  ]
