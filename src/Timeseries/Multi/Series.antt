-- ===== src/Timeseries/Multi/Series.antt =====
-- The rows of each series in the mapping of an aggregation over several are those of a query of this series alone.
use self_host.Prelude.{
  ℕ, ◌+◌, ◌≡◌, ◌⊎◌, inl, inr, refl, sym, ap, subst, ◌∙◌, none, List, [], ◌∷◌, ◌==◌, ==_iff, length,
  Result, ok, ◌>>◌, Bool-cases, Option-cases, Result-cases, In,
}
use self_host.Policy.Rule.{Uuid}
use self_host.Timeseries.Rollups.{Time}
use self_host.Timeseries.Query.{TsRow, Mapping}
use self_host.Timeseries.Aggregate.{
  Numbers, AggregateError, DataRow, AggregateRollupRow, Buckets, sort_keys,
  QuerySingleSourceDataParams, bucket_of, shown, kept, result_rows,
  build_single_source_aggregate_result, add_raw_rows, add_rollup_rows,
  aggregate_single_source_from_sources,
}
use self_host.Timeseries.Multi.{
  QueryMultiSourceDataParams, SeriesBuckets, no_series, kept_row, series_result, series_limits,
  all_series, store_rows, add_series_raw_rows, add_series_rollup_rows, aggregate_multi_source_rows,
  aggregate_multi_source_from_sources,
}
use self_host.Timeseries.Multi.Gather.{
  points_of, rollups_of, IsStamped, IsTidy, no_series-IsTidy, add_series_raw_rows-IsTidy,
  add_series_raw_rows-points_of, add_series_rollup_rows-IsTidy, add_series_rollup_rows-rollups_of,
}

-- The query of one series with the same times, aggregate, bounds and zone.
unfoldable pub series_params :
    {G : Type 0} → QueryMultiSourceDataParams G → Uuid → QuerySingleSourceDataParams G
series_params p id = record {
  uuid = id;
  start = p.start;
  end = p.end;
  greater_or_eq = p.greater_or_eq;
  less_or_eq = p.less_or_eq;
  unit = none;
  aggregate = p.aggregate;
  precision = p.precision;
  timezone = p.timezone;
  use_rollups = p.use_rollups;
  max_points = 0;
}

-- Go visits every key of a map.
pub record VisitsAll (visit : List Uuid → List Uuid) : Type 0 where
  pub keys : (ids : List Uuid) (id : Uuid) → In id ids → In id (visit ids)

pub ok_mapping :
    {E A : Type 0} {x y : A} → ◌≡◌ {A = Result (AggregateError E) A} (ok x) (ok y) → x ≡ y
ok_mapping h = cc h

module _ {F G U : Type 0} (E : Type 0) (n : Numbers F G U) (p : QueryMultiSourceDataParams G) where
  -- The loop over the keys is the one of a single series.
  series_result-single :
      (id : Uuid) (b : Buckets F) (keys : List Time)
      → IsStamped b
      → series_result {E = E} n p b.at keys ≡ result_rows n (series_params p id) none b.at keys
  unfolding series_result result_rows series_params shown kept kept_row bucket_of IsStamped
  series_result-single id b [] h = refl
  series_result-single id b (key ∷ keys) h = elim (Option-cases (b.at key)) [
    | inl e ↦ rw e
    | inr (x, e) ↦ rw (e, h key x e, series_result-single id b keys h)
  ]

  module _ (of : Uuid → Buckets F) where
    rows_of : Uuid → Result (AggregateError E) (List (TsRow G))
    rows_of id = series_result n p (of id).at (sort_keys (of id).keys)

    -- The mapping holds no rows for the series, or those of its buckets.
    IsRight : Mapping G → Uuid → Type 0
    IsRight mapping id = (mapping id ≡ []) ⊎ (rows_of id ≡ ok (mapping id))

    store_rows-IsRight :
        (mapping : Mapping G) (j : Uuid) (rows : List (TsRow G)) (id : Uuid)
        → rows_of j ≡ ok rows
        → IsRight mapping id
        → IsRight (store_rows mapping j rows) id
    unfolding store_rows IsRight
    store_rows-IsRight mapping j [] id e h = h
    store_rows-IsRight mapping j (row ∷ rows) id e h = elim (Bool-cases (j == id)) [
      | inl q ↦ rw q (inr (subst (λ (k : Uuid). rows_of k ≡ ok (row ∷ rows)) ((==_iff j id).0 q) e))
      | inr q ↦ rw q h
    ]

    store_rows-done :
        (mapping : Mapping G) (j : Uuid) (rows : List (TsRow G)) (id : Uuid)
        → rows_of j ≡ ok rows
        → rows_of id ≡ ok (mapping id)
        → rows_of id ≡ ok (store_rows mapping j rows id)
    unfolding store_rows
    store_rows-done mapping j [] id e h = h
    store_rows-done mapping j (row ∷ rows) id e h = elim (Bool-cases (j == id)) [
      | inl q ↦ rw q (subst (λ (k : Uuid). rows_of k ≡ ok (row ∷ rows)) ((==_iff j id).0 q) e)
      | inr q ↦ rw q h
    ]

    store_rows_self :
        (mapping : Mapping G) (j : Uuid) (rows : List (TsRow G))
        → rows_of j ≡ ok rows
        → IsRight mapping j
        → rows_of j ≡ ok (store_rows mapping j rows j)
    unfolding store_rows IsRight
    store_rows_self mapping j [] e (inl h) = e ∙ ap ok (sym h)
    store_rows_self mapping j [] e (inr h) = h
    store_rows_self mapping j (row ∷ rows) e h = rw ((==_iff j j).1 refl) e

    limited_ok :
        (total : ℕ) (rows : List (TsRow G)) (rest : Result (AggregateError E) (Mapping G))
        (m : Mapping G)
        → (series_limits {E = E} n p total rows >> rest) ≡ ok m
        → rest ≡ ok m
    limited_ok total rows rest m h = elim (Result-cases (series_limits {E = E} n p total rows)) [
      | inr (x, e) ↦ cc (rw e at h)
      | inl (u, e) ↦ rw e at h
    ]

    -- One round of the loop: the rows of the series, and the loop from there on.
    all_series-step :
        (j : Uuid) (ids : List Uuid) (total : ℕ) (mapping m : Mapping G)
        → all_series {E = E} n p of total mapping (j ∷ ids) ≡ ok m
        → (rows : List (TsRow G)) × (rows_of j ≡ ok rows)
          × (all_series {E = E} n p of (total + length rows) (store_rows mapping j rows) ids ≡ ok m)
    unfolding all_series rows_of
    all_series-step j ids total mapping m h = elim (Result-cases (rows_of j)) [
      | inr (x, e) ↦ cc (rw (e, all_series) at h)
      | inl (rows, e) ↦ (rows, e, limited_ok total rows _ m (rw (e, all_series) at h))
    ]

    all_series-done :
        (ids : List Uuid) (total : ℕ) (mapping m : Mapping G) (id : Uuid)
        → all_series {E = E} n p of total mapping ids ≡ ok m
        → rows_of id ≡ ok (mapping id)
        → rows_of id ≡ ok (m id)
    all_series-done [] total mapping m id h k =
        let e : mapping ≡ m = unfold all_series in ok_mapping h in
        subst (λ (z : Mapping G). rows_of id ≡ ok (z id)) e k
    all_series-done (j ∷ ids) total mapping m id h k =
        let (rows, e, h') = all_series-step j ids total mapping m h in
        all_series-done ids (total + length rows) (store_rows mapping j rows) m id h'
          (store_rows-done mapping j rows id e k)

    all_series-IsRight :
        (ids : List Uuid) (total : ℕ) (mapping m : Mapping G) (id : Uuid)
        → all_series {E = E} n p of total mapping ids ≡ ok m
        → IsRight mapping id
        → IsRight m id
    all_series-IsRight [] total mapping m id h k =
        let e : mapping ≡ m = unfold all_series in ok_mapping h in
        subst (λ (z : Mapping G). IsRight z id) e k
    all_series-IsRight (j ∷ ids) total mapping m id h k =
        let (rows, e, h') = all_series-step j ids total mapping m h in
        all_series-IsRight ids (total + length rows) (store_rows mapping j rows) m id h'
          (store_rows-IsRight mapping j rows id e k)

    all_series-visited :
        (ids : List Uuid) (total : ℕ) (mapping m : Mapping G) (id : Uuid)
        → all_series {E = E} n p of total mapping ids ≡ ok m
        → IsRight mapping id
        → In id ids
        → rows_of id ≡ ok (m id)
    all_series-visited [] total mapping m id h k i = absurd i
    all_series-visited (j ∷ ids) total mapping m id h k (inl q) =
        let (rows, e, h') = all_series-step j ids total mapping m h in
        subst (λ (z : Uuid). rows_of z ≡ ok (m z)) (sym q)
          (all_series-done ids (total + length rows) (store_rows mapping j rows) m j h'
            (store_rows_self mapping j rows e (subst (λ (z : Uuid). IsRight mapping z) q k)))
    all_series-visited (j ∷ ids) total mapping m id h k (inr i) =
        let (rows, e, h') = all_series-step j ids total mapping m h in
        all_series-visited ids (total + length rows) (store_rows mapping j rows) m id h'
          (store_rows-IsRight mapping j rows id e k) i

  module _ (visit : List Uuid → List Uuid) (visits : VisitsAll visit) where
    -- Whatever order the series are visited in, each has the rows of its buckets, none if it has no bucket.
    all_series-each :
        (b : SeriesBuckets F) (m : Mapping G) (id : Uuid)
        → IsTidy b
        → all_series {E = E} n p b.of 0 (λ k. []) (visit b.series) ≡ ok m
        → rows_of b.of id ≡ ok (m id)
    unfolding IsRight rows_of
    all_series-each b m id v h = elim (v.listed id) [
      | inl i ↦
          all_series-visited b.of (visit b.series) 0 (λ k. []) m id h (inl refl)
            (visits.keys b.series id i)
      | inr e ↦ elim (all_series-IsRight b.of (visit b.series) 0 (λ k. []) m id h (inl refl)) [
        | inr q ↦ q
        | inl q ↦ rw (e, q) (unfold sort_keys series_result in refl)
      ]
    ]

    module _ (truncate : Time → Result (AggregateError E) Time) where
      unfoldable pub single :
          List (DataRow F)
          → List (AggregateRollupRow F)
          → Uuid
          → Result (AggregateError E) (List (TsRow G))
      single raw rollups id =
          aggregate_single_source_from_sources n truncate (points_of id raw) (rollups_of id rollups)
            (series_params p id) none

      pub from_sources-each :
          (raw : List (DataRow F)) (rollups : List (AggregateRollupRow F)) (m : Mapping G)
          (id : Uuid)
          → aggregate_multi_source_from_sources n p visit truncate raw rollups ≡ ok m
          → single raw rollups id ≡ ok (m id)
      unfolding aggregate_multi_source_from_sources single aggregate_single_source_from_sources
          build_single_source_aggregate_result
      from_sources-each raw rollups m id h =
          elim (Result-cases (add_series_raw_rows n truncate no_series raw)) [
            | inr (x, e) ↦ cc (rw e at h)
            | inl (b, e) ↦ elim (Result-cases (add_series_rollup_rows n truncate b rollups)) [
              | inr (x, f) ↦ cc (rw (e, f) at h)
              | inl (c, f) ↦
                  let tidy = add_series_rollup_rows-IsTidy n truncate b c rollups f (
                    add_series_raw_rows-IsTidy n truncate no_series b raw e (no_series-IsTidy F)) in
                  rw (add_series_raw_rows-points_of n truncate id no_series b raw e) (
                    rw (add_series_rollup_rows-rollups_of n truncate id b c rollups f) (
                      sym (
                        series_result-single id (c.of id) (sort_keys (c.of id).keys)
                          (tidy.stamped id))
                      ∙ unfold rows_of in all_series-each c m id tidy (rw (e, f) at h)))
            ]
          ]

      pub rows-each :
          (rows : List (DataRow F)) (m : Mapping G) (id : Uuid)
          → aggregate_multi_source_rows n p visit truncate rows ≡ ok m
          → single rows [] id ≡ ok (m id)
      unfolding aggregate_multi_source_rows
      rows-each [] m id h =
          let none : Mapping G = λ k. [] in
          let e : none ≡ m = ok_mapping h in
          let f : single [] [] id ≡ ok [] =
            (unfold single aggregate_single_source_from_sources points_of rollups_of add_raw_rows
                add_rollup_rows build_single_source_aggregate_result sort_keys result_rows in
              refl) in
          subst (λ (z : Mapping G). single [] [] id ≡ ok (z id)) e f
      rows-each (r ∷ rows) m id h =
          from_sources-each (r ∷ rows) [] m id
            (unfold aggregate_multi_source_from_sources add_series_rollup_rows in h)
