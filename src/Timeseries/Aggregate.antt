-- ===== src/Timeseries/Aggregate.antt =====
-- Aggregation of a series in internal/services/timeseries.go: accumulateAggregateBucket, aggregateBucketValue,
-- buildSingleSourceAggregateResult, aggregateSingleSourceRows and aggregateSingleSourceFromSources. float64, float32 and the
-- package go-units are a parameter, counts of points are below 2 ^ 63, and the buckets are passed on.
pub mod Sorted
pub mod Sums
pub mod Gather
pub mod Same
pub mod Table
pub mod Rising
use self_host.Prelude.{
  ℕ, ◌+◌, Bool, true, false, Option, none, some, List, [], ◌∷◌, ◌++◌, ◌==◌, ltb, if◌then◌else◌,
  Result, ok, err, ◌>>=◌,
}
use self_host.Text.{Text, codes, text_eq}
use self_host.Policy.Rule.{Uuid}
use self_host.Timeseries.Rollups.{Time}
use self_host.Timeseries.Query.{TsRow, LimitError, in_valid_range}

-- `F` is float64, `G` float32 and `U` the units.
pub record Numbers (F G U : Type 0) : Type 0 where
  pub zero : F
  pub add : F → F → F
  pub divide : F → F → F
  pub of_count : ℕ → F
  pub less : F → F → Bool
  pub float32 : F → G
  pub le : G → G → Bool
  pub find_unit : Text → Option U
  pub convert : F → U → U → Option F

pub data AggregateError (E : Type 0) : Type 0 where
  database_error : E → AggregateError E
  invalid_unit : AggregateError E
  invalid_unit_conversion : AggregateError E
  unknown_timezone : AggregateError E
  unsupported_precision : AggregateError E
  unsupported_aggregate : AggregateError E
  too_many_points : AggregateError E
  limit_error : LimitError → AggregateError E
  -- A key without a bucket, on which the code panics.
  nil_bucket : AggregateError E

-- GetTsDataRangeRow
pub record DataRow (F : Type 0) : Type 0 where
  pub ts_uuid : Uuid
  pub value : F
  pub ts : Time

pub record AggregateRollupRow (F : Type 0) : Type 0 where
  pub ts_uuid : Uuid
  pub bucket_ts : Time
  pub sample_count : ℕ
  pub sample_sum : F
  pub sample_min : F
  pub sample_max : F

pub record AggregateBucket (F : Type 0) : Type 0 where
  pub ts : Time
  pub count : ℕ
  pub sum : F
  pub min : F
  pub max : F

-- The map of buckets and the slice of its keys.
pub record Buckets (F : Type 0) : Type 0 where
  pub at : Time → Option (AggregateBucket F)
  pub keys : List Time

pub record QuerySingleSourceDataParams (G : Type 0) : Type 0 where
  pub uuid : Uuid
  pub start : Time
  pub end : Time
  pub greater_or_eq : Option G
  pub less_or_eq : Option G
  pub unit : Option Text
  pub aggregate : Text
  pub precision : Text
  pub timezone : Text
  pub use_rollups : Bool
  pub max_points : ℕ

abbrev pub no_buckets : {F : Type 0} → Buckets F
no_buckets = record { at = λ k. none; keys = [] }

-- sort.Slice of the keys by Before
unfoldable pub insert_key : Time → List Time → List Time
insert_key k [] = k ∷ []
insert_key k (x ∷ xs) = let rest = insert_key k xs in if ltb x k then x ∷ rest else k ∷ x ∷ xs

unfoldable pub sort_keys : List Time → List Time
sort_keys [] = []
sort_keys (k ∷ ks) = insert_key k (sort_keys ks)

unfoldable pub keys_with : {F : Type 0} → Option (AggregateBucket F) → Time → List Time → List Time
keys_with none ts keys = keys ++ ts ∷ []
keys_with (some b) ts keys = keys

module _ {F G U : Type 0} (n : Numbers F G U) where
  -- `if min < bucket.min`
  unfoldable pub lower : F → F → F
  lower x kept = if n.less x kept then x else kept

  -- `if max > bucket.max`
  unfoldable pub upper : F → F → F
  upper x kept = if n.less kept x then x else kept

  unfoldable pub bucket_or_new : Option (AggregateBucket F) → Time → F → F → AggregateBucket F
  bucket_or_new (some b) bucket_ts min max = b
  bucket_or_new none bucket_ts min max = record {
    ts = bucket_ts;
    count = 0;
    sum = n.zero;
    min = min;
    max = max;
  }

  unfoldable pub updated : AggregateBucket F → ℕ → F → F → F → AggregateBucket F
  unfolding lower upper
  updated b count sum min max = record {
    ts = b.ts;
    count = b.count + count;
    sum = n.add b.sum sum;
    min = lower min b.min;
    max = upper max b.max;
  }

  unfoldable pub accumulate_aggregate_bucket : Buckets F → Time → ℕ → F → F → F → Buckets F
  accumulate_aggregate_bucket b bucket_ts count sum min max = record {
    at = λ k.
        if bucket_ts == k
        then some (updated (bucket_or_new (b.at bucket_ts) bucket_ts min max) count sum min max)
        else b.at k;
    keys = keys_with (b.at bucket_ts) bucket_ts b.keys;
  }

-- The row is left out where it is not in the range asked for.
unfoldable pub kept :
    {F G U : Type 0}
    → Numbers F G U
    → QuerySingleSourceDataParams G
    → G
    → Time
    → List (TsRow G)
    → List (TsRow G)
kept n p f ts rest =
    if in_valid_range n.le f p.less_or_eq p.greater_or_eq
    then record { v = f; ts = ts } ∷ rest
    else rest

module _ {F G U E : Type 0} (n : Numbers F G U) where
  unfoldable pub aggregate_bucket_value : AggregateBucket F → Text → Result (AggregateError E) F
  aggregate_bucket_value bucket aggregate =
      if text_eq aggregate (codes "avg")
      then ok (if bucket.count == 0 then n.zero else n.divide bucket.sum (n.of_count bucket.count))
      else if text_eq aggregate (codes "min")
      then ok bucket.min
      else if text_eq aggregate (codes "max")
      then ok bucket.max
      else if text_eq aggregate (codes "count")
      then ok (n.of_count bucket.count)
      else if text_eq aggregate (codes "sum")
      then ok bucket.sum
      else err unsupported_aggregate

  unfoldable pub bucket_of :
      Option (AggregateBucket F) → Result (AggregateError E) (AggregateBucket F)
  bucket_of (some b) = ok b
  bucket_of none = err nil_bucket

  unfoldable pub conversion_of : Option F → Result (AggregateError E) G
  conversion_of (some x) = ok (n.float32 x)
  conversion_of none = err invalid_unit_conversion

  -- The value as float32, in the unit that the query asks for.
  unfoldable pub shown : Option (U × U) → F → Result (AggregateError E) G
  unfolding conversion_of
  shown (some (from_unit, to_unit)) x = conversion_of (n.convert x from_unit to_unit)
  shown none x = ok (n.float32 x)

  module _ (p : QuerySingleSourceDataParams G) (units : Option (U × U)) where
    -- The loop over the sorted keys.
    unfoldable pub result_rows :
        (Time → Option (AggregateBucket F)) → List Time → Result (AggregateError E) (List (TsRow G))
    unfolding bucket_of
    result_rows at [] = ok []
    result_rows at (key ∷ keys) = bucket_of (at key) >>= λ bucket.
        aggregate_bucket_value bucket p.aggregate >>= λ value.
        shown units value >>= λ f. result_rows at keys >>= λ rest. ok (kept n p f bucket.ts rest)

    unfoldable pub build_single_source_aggregate_result :
        Buckets F → Result (AggregateError E) (List (TsRow G))
    build_single_source_aggregate_result b = result_rows b.at (sort_keys b.keys)

  module _ (truncate : Time → Result (AggregateError E) Time) where
    -- The loop over the points.
    unfoldable pub add_raw_rows :
        Buckets F → List (DataRow F) → Result (AggregateError E) (Buckets F)
    add_raw_rows b [] = ok b
    add_raw_rows b (item ∷ rows) = truncate item.ts >>= λ ts.
        add_raw_rows (accumulate_aggregate_bucket n b ts 1 item.value item.value item.value) rows

    -- The loop over the rollup rows.
    unfoldable pub add_rollup_rows :
        Buckets F → List (AggregateRollupRow F) → Result (AggregateError E) (Buckets F)
    add_rollup_rows b [] = ok b
    add_rollup_rows b (item ∷ rows) = truncate item.bucket_ts >>= λ ts.
        add_rollup_rows
          (accumulate_aggregate_bucket n b ts item.sample_count item.sample_sum item.sample_min
            item.sample_max)
          rows

    -- Its loop has the statements of accumulateAggregateBucket for a count of 1, and its end those of
    -- buildSingleSourceAggregateResult.
    unfoldable pub aggregate_single_source_rows :
        List (DataRow F)
        → QuerySingleSourceDataParams G
        → Option (U × U)
        → Result (AggregateError E) (List (TsRow G))
    aggregate_single_source_rows rows p units =
        add_raw_rows no_buckets rows >>= λ b. build_single_source_aggregate_result p units b

    unfoldable pub aggregate_single_source_from_sources :
        List (DataRow F)
        → List (AggregateRollupRow F)
        → QuerySingleSourceDataParams G
        → Option (U × U)
        → Result (AggregateError E) (List (TsRow G))
    aggregate_single_source_from_sources raw_rows rollup_rows p units =
        add_raw_rows no_buckets raw_rows >>= λ b.
        add_rollup_rows b rollup_rows >>= λ c. build_single_source_aggregate_result p units c
