-- ===== src/Timeseries/Aggregate/Same.antt =====
-- Rows with the same statistics at each bucket have one result.
use self_host.Prelude.{◌≡◌, refl, sym, ap, ◌∙◌, Option, none, List, [], ◌∷◌, ◌==◌, Result, ok}
use mathlib.Core.List.{Permᴰ}
use self_host.Timeseries.Rollups.{Time}
use self_host.Timeseries.Rollups.Partition.{one}
use self_host.Timeseries.Aggregate.{
  Numbers, AggregateError, Buckets, DataRow, AggregateRollupRow, QuerySingleSourceDataParams,
  no_buckets, result_rows, build_single_source_aggregate_result, add_raw_rows, add_rollup_rows,
  aggregate_single_source_rows, aggregate_single_source_from_sources,
}
use self_host.Timeseries.Aggregate.Sorted.{member, IsDistinct, sort_keys_unique}
use self_host.Timeseries.Aggregate.Sums.{IsExact, Stats, combined, weigh}
use self_host.Timeseries.Aggregate.Table.{weigh-Perm}
use self_host.Timeseries.Aggregate.Gather.{
  has, Holds, IsKeyed, bucket_at, point_stats, rollup_stats, with_stats, gathered, gathered-IsKeyed,
  gathered-Holds,
}

pub no_buckets-IsKeyed : (F : Type 0) → IsKeyed {F = F} no_buckets
unfolding IsKeyed IsDistinct member has
no_buckets-IsKeyed F = (tt, λ k. refl)

no_buckets-Holds : (F : Type 0) → Holds {F = F} no_buckets (λ k. none)
unfolding Holds bucket_at
no_buckets-Holds F k = refl

module _ {F G U : Type 0} (n : Numbers F G U) (g : Time → Time) where
  -- The statistics of the raw points and of the rollup rows at the bucket `k`.
  unfoldable pub raw_total : List (DataRow F) → Time → Option (Stats F)
  raw_total rows k = weigh n (λ r. one (g r.ts == k)) point_stats rows

  unfoldable pub rollup_total : List (AggregateRollupRow F) → Time → Option (Stats F)
  rollup_total rows k = weigh n (λ r. one (g r.bucket_ts == k)) rollup_stats rows

module _ {F G U E : Type 0} (n : Numbers F G U) where
  build-same :
      (p : QuerySingleSourceDataParams G) (units : Option (U × U)) (b c : Buckets F)
      → IsKeyed b
      → IsKeyed c
      → ((k : Time) → b.at k ≡ c.at k)
      → build_single_source_aggregate_result {E = E} n p units b
        ≡ build_single_source_aggregate_result n p units c
  unfolding IsKeyed build_single_source_aggregate_result
  build-same p units b c (d, h) (e, f) s =
      let keys = sort_keys_unique b.keys c.keys d e (λ a. h a ∙ ap has (s a) ∙ sym (f a)) in
      λ i. result_rows n p units (λ k. s k i) (keys i)

  module _ (g : Time → Time) (truncate : Time → Result (AggregateError E) Time)
      (tr : (t : Time) → truncate t ≡ ok (g t)) where
    add_raw_rows-gathered :
        (b : Buckets F) (rows : List (DataRow F))
        → add_raw_rows n truncate b rows ≡ ok (gathered n (λ r. g r.ts) point_stats b rows)
    unfolding add_raw_rows gathered with_stats point_stats
    add_raw_rows-gathered b [] = refl
    add_raw_rows-gathered b (r ∷ rows) =
        simp (tr r.ts) (add_raw_rows-gathered (with_stats n b (g r.ts) (point_stats r)) rows)

    add_rollup_rows-gathered :
        (b : Buckets F) (rows : List (AggregateRollupRow F))
        → add_rollup_rows n truncate b rows
          ≡ ok (gathered n (λ r. g r.bucket_ts) rollup_stats b rows)
    unfolding add_rollup_rows gathered with_stats rollup_stats
    add_rollup_rows-gathered b [] = refl
    add_rollup_rows-gathered b (r ∷ rows) =
        simp (tr r.bucket_ts)
          (add_rollup_rows-gathered (with_stats n b (g r.bucket_ts) (rollup_stats r)) rows)

    module _ (x : IsExact n) where
      -- Where sums are exact and each time has a bucket, the order of the points does not matter to the result.
      pub aggregate_single_source_rows-Perm :
          (rows other : List (DataRow F))
          → Permᴰ rows other
          → (p : QuerySingleSourceDataParams G) (units : Option (U × U))
          → aggregate_single_source_rows n truncate rows p units
            ≡ aggregate_single_source_rows n truncate other p units
      unfolding aggregate_single_source_rows Holds combined
      aggregate_single_source_rows-Perm rows other d p units =
          let holds = gathered-Holds n x (λ r. g r.ts) point_stats no_buckets (λ k. none) in
          let keyed = gathered-IsKeyed n (λ r. g r.ts) point_stats no_buckets in
          rw (add_raw_rows-gathered no_buckets rows) (
            rw (add_raw_rows-gathered no_buckets other) (
              build-same p units (gathered n (λ r. g r.ts) point_stats no_buckets rows)
                (gathered n (λ r. g r.ts) point_stats no_buckets other)
                (keyed rows (no_buckets-IsKeyed F)) (keyed other (no_buckets-IsKeyed F))
                λ k.
                  holds rows (no_buckets-Holds F) k
                  ∙ ap (bucket_at k) (weigh-Perm n x (λ r. one (g r.ts == k)) point_stats d)
                  ∙ sym (holds other (no_buckets-Holds F) k)))

      pub from_sources-rows :
          (raw all : List (DataRow F)) (rollups : List (AggregateRollupRow F))
          → ((k : Time)
              → combined n (raw_total n g raw k) (rollup_total n g rollups k) ≡ raw_total n g all k)
          → (p : QuerySingleSourceDataParams G) (units : Option (U × U))
          → aggregate_single_source_from_sources n truncate raw rollups p units
            ≡ aggregate_single_source_rows n truncate all p units
      unfolding aggregate_single_source_from_sources aggregate_single_source_rows raw_total
          rollup_total Holds combined
      from_sources-rows raw all rollups h p units =
          let b = gathered n (λ r. g r.ts) point_stats no_buckets raw in
          let c = gathered n (λ r. g r.bucket_ts) rollup_stats b rollups in
          let d = gathered n (λ r. g r.ts) point_stats no_buckets all in
          let holds = gathered-Holds n x (λ r. g r.ts) point_stats no_buckets (λ k. none) in
          let keyed = gathered-IsKeyed n (λ r. g r.ts) point_stats no_buckets in
          rw (add_raw_rows-gathered no_buckets raw) (
            rw (add_raw_rows-gathered no_buckets all) (
              rw (add_rollup_rows-gathered b rollups) (
                build-same p units c d
                  (gathered-IsKeyed n (λ r. g r.bucket_ts) rollup_stats b rollups
                    (keyed raw (no_buckets-IsKeyed F)))
                  (keyed all (no_buckets-IsKeyed F))
                  λ k.
                    gathered-Holds n x (λ r. g r.bucket_ts) rollup_stats b (raw_total n g raw)
                      rollups (holds raw (no_buckets-Holds F)) k
                    ∙ ap (bucket_at k) (h k)
                    ∙ sym (holds all (no_buckets-Holds F) k))))
