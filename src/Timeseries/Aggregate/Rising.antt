-- ===== src/Timeseries/Aggregate/Rising.antt =====
-- The order of the rows of an aggregated series, and that each key has a bucket.
use self_host.Prelude.{
  Outcome, of_value, of_error, bind-Outcome, weaken-Outcome, ◌<◌, ◌≡◌, refl, sym, ◌∙◌, subst, inl,
  inr, true, Option, none, some, List, [], ◌∷◌, ◌==◌, ==_iff, All, Bool-cases, Option-cases, Result,
  arith,
}
use mathlib.Core.Bool.{false≢true}
use self_host.Text.{Text, codes, text_eq}
use self_host.Timeseries.Rollups.{Time}
use self_host.Timeseries.Truncate.{
  Calendar, precisions, find_precision, or_unsupported, truncate_time,
}
use self_host.Timeseries.Query.{TsRow, in_valid_range}
use self_host.Timeseries.Aggregate.{
  Numbers, AggregateError, AggregateBucket, Buckets, DataRow, QuerySingleSourceDataParams,
  no_buckets, nil_bucket, unsupported_precision, bucket_of, conversion_of, kept, shown,
  aggregate_bucket_value, bucket_or_new, updated, accumulate_aggregate_bucket, result_rows,
  build_single_source_aggregate_result, sort_keys, add_raw_rows, aggregate_single_source_rows,
}
use self_host.Timeseries.Aggregate.Sorted.{
  member, IsAscending, sort_keys-IsAscending, member-sort_keys,
}
use self_host.Timeseries.Aggregate.Sums.{Stats}
use self_host.Timeseries.Aggregate.Gather.{
  has, IsKeyed, with_stats, with_stats-IsKeyed, point_stats,
}
use self_host.Timeseries.Aggregate.Same.{no_buckets-IsKeyed}

-- Not the panic.
unfoldable pub IsReturned : {E : Type 0} → AggregateError E → Type 0
IsReturned nil_bucket = ⊥
IsReturned _ = Unit

-- Each row is later than those before it.
unfoldable pub IsRising : {G : Type 0} → List (TsRow G) → Type 0
IsRising [] = Unit
IsRising (r ∷ rs) = All (λ s. r.ts < s.ts) rs × IsRising rs

TimedAt : {F : Type 0} → Time → Option (AggregateBucket F) → Type 0
TimedAt k none = Unit
TimedAt k (some c) = c.ts ≡ k

-- A bucket has its key as its time.
IsTimed : {F : Type 0} → (Time → Option (AggregateBucket F)) → Type 0
unfolding TimedAt
IsTimed at = (k : Time) → TimedAt k (at k)

-- The rows stand at keys, in their order.
AreAt : {G : Type 0} → List Time → List (TsRow G) → Type 0
AreAt keys rs = All (λ s. member s.ts keys ≡ true) rs × IsRising rs

All-map :
    {A : Type 0} {P Q : A → Type 0} (xs : List A) → ((a : A) → P a → Q a) → All P xs → All Q xs
All-map [] f h = tt
All-map (x ∷ xs) f (p, h) = (f x p, All-map xs f h)

module _ {F G U : Type 0} (n : Numbers F G U) (E : Type 0) where
  aggregate_bucket_value-IsReturned :
      (b : AggregateBucket F) (aggregate : Text)
      → Outcome (λ x. Unit) IsReturned (aggregate_bucket_value {E = E} n b aggregate)
  unfolding IsReturned aggregate_bucket_value
  aggregate_bucket_value-IsReturned b aggregate =
      elim (Bool-cases (text_eq aggregate (codes "avg"))) [
        | inl e ↦ rw e (of_value tt)
        | inr e ↦ rw e (elim (Bool-cases (text_eq aggregate (codes "min"))) [
          | inl e ↦ rw e (of_value tt)
          | inr e ↦ rw e (elim (Bool-cases (text_eq aggregate (codes "max"))) [
            | inl e ↦ rw e (of_value tt)
            | inr e ↦ rw e (elim (Bool-cases (text_eq aggregate (codes "count"))) [
              | inl e ↦ rw e (of_value tt)
              | inr e ↦ rw e (elim (Bool-cases (text_eq aggregate (codes "sum"))) [
                | inl e ↦ rw e (of_value tt)
                | inr e ↦ rw e (of_error tt)
              ])
            ])
          ])
        ])
      ]

  shown-IsReturned :
      (units : Option (U × U)) (v : F) → Outcome (λ x. Unit) IsReturned (shown {E = E} n units v)
  unfolding IsReturned shown conversion_of
  shown-IsReturned none v = of_value tt
  shown-IsReturned (some (from_unit, to_unit)) v =
      elim (Option-cases (n.convert v from_unit to_unit)) [
        | inl e ↦ rw e (of_error tt)
        | inr (y, e) ↦ rw e (of_value tt)
      ]

kept-AreAt :
    {F G U : Type 0} (n : Numbers F G U) (p : QuerySingleSourceDataParams G) (f : G) (key : Time)
    (keys : List Time) (rest : List (TsRow G))
    → IsAscending (key ∷ keys)
    → AreAt keys rest
    → AreAt (key ∷ keys) (kept n p f key rest)
unfolding AreAt IsRising IsAscending kept member
kept-AreAt n p f key keys rest (a, s) (m, r) =
    elim (Bool-cases (in_valid_range n.le f p.less_or_eq p.greater_or_eq)) [
      | inl e ↦
          rw e ((ground arith, weaker), (All-map rest (λ t h. ground (arith, a t.ts, h)) m, r))
      | inr e ↦ rw e (weaker, r)
    ]
  where
    weaker : All (λ t. member t.ts (key ∷ keys) ≡ true) rest
    weaker = All-map rest (λ t h. ground (arith, h)) m

bucket_of-Outcome :
    {F G U : Type 0} (n : Numbers F G U) (E : Type 0) (key : Time) (o : Option (AggregateBucket F))
    → TimedAt key o
    → has o ≡ true
    → Outcome (λ b. b.ts ≡ key) IsReturned (bucket_of {E = E} n o)
unfolding bucket_of has TimedAt
bucket_of-Outcome n E key none t h = absurd (false≢true h)
bucket_of-Outcome n E key (some c) t h = of_value t

updated_ts :
    {F G U : Type 0} (n : Numbers F G U) (o : Option (AggregateBucket F)) (ts : Time) (s : Stats F)
    → TimedAt ts o
    → (updated n (bucket_or_new n o ts s.min s.max) s.count s.sum s.min s.max).ts ≡ ts
unfolding TimedAt updated bucket_or_new
updated_ts n none ts s h = refl
updated_ts n (some c) ts s h = h

module _ {F G U : Type 0} (n : Numbers F G U) (E : Type 0) where
  module _ (p : QuerySingleSourceDataParams G) (units : Option (U × U)) where
    result_rows-AreAt :
        (at : Time → Option (AggregateBucket F)) (keys : List Time)
        → IsTimed at
        → ((k : Time) → member k keys ≡ true → has (at k) ≡ true)
        → IsAscending keys
        → Outcome (AreAt keys) IsReturned (result_rows {E = E} n p units at keys)
    unfolding result_rows IsTimed AreAt IsRising member IsAscending
    result_rows-AreAt at [] t h s = of_value (tt, tt)
    result_rows-AreAt at (key ∷ keys) t h (a, s) =
        bind-Outcome (bucket_of-Outcome n E key (at key) (t key) (h key (ground arith))) λ b e.
          bind-Outcome (aggregate_bucket_value-IsReturned n E b p.aggregate) λ value _.
            bind-Outcome (shown-IsReturned n E units value) λ f _.
              bind-Outcome (result_rows-AreAt at keys t (λ k m. h k (ground (arith, m))) s)
                λ rest m. of_value (
                  subst (λ k. AreAt (key ∷ keys) (kept n p f k rest)) (sym e)
                    (kept-AreAt n p f key keys rest (a, s) m))

  -- The keys are those with a bucket, and each bucket has its key as its time.
  IsSound : Buckets F → Type 0
  IsSound b = IsKeyed b × IsTimed b.at

  with_stats-IsSound :
      (b : Buckets F) (ts : Time) (r : DataRow F)
      → IsSound b
      → IsSound (with_stats n b ts (point_stats r))
  unfolding IsSound IsTimed with_stats accumulate_aggregate_bucket
  with_stats-IsSound b ts r (h, t) = (
    with_stats-IsKeyed n b ts (point_stats r) h,
    λ k. elim (Bool-cases (ts == k)) [
      | inl e ↦ rw e (updated_ts n (b.at ts) ts (point_stats r) (t ts) ∙ (==_iff ts k).0 e)
      | inr e ↦ rw e (t k)
    ],
  )

  module _ (truncate : Time → Result (AggregateError E) Time)
      (returns : (t : Time) → Outcome (λ x. Unit) IsReturned (truncate t)) where
    add_raw_rows-IsSound :
        (b : Buckets F) (rows : List (DataRow F))
        → IsSound b
        → Outcome IsSound IsReturned (add_raw_rows n truncate b rows)
    unfolding add_raw_rows with_stats point_stats
    add_raw_rows-IsSound b [] h = of_value h
    add_raw_rows-IsSound b (r ∷ rows) h = bind-Outcome (returns r.ts) λ ts _.
        add_raw_rows-IsSound (with_stats n b ts (point_stats r)) rows (with_stats-IsSound b ts r h)

    rows-IsRising :
        (p : QuerySingleSourceDataParams G) (units : Option (U × U)) (rows : List (DataRow F))
        → Outcome IsRising IsReturned (aggregate_single_source_rows n truncate rows p units)
    unfolding aggregate_single_source_rows build_single_source_aggregate_result IsSound IsKeyed
        IsTimed AreAt TimedAt
    rows-IsRising p units rows =
        bind-Outcome (add_raw_rows-IsSound no_buckets rows (no_buckets-IsKeyed F, λ k. tt))
          λ b ((d, h), t).
            weaken-Outcome
              (result_rows-AreAt p units b.at (sort_keys b.keys) t
                (λ k m. sym (h k) ∙ sym (member-sort_keys k b.keys) ∙ m)
                (sort_keys-IsAscending b.keys d))
              λ rs a. a.1

truncate_time-IsReturned :
    (E : Type 0) (cal : Calendar) (precision : Text) (t : Time)
    → Outcome {E = AggregateError E}
        (λ x. Unit)
        IsReturned
        (truncate_time cal unsupported_precision precision t)
unfolding truncate_time or_unsupported IsReturned
truncate_time-IsReturned E cal precision t =
    elim (Option-cases (find_precision precisions precision)) [
      | inl e ↦ rw e (of_error tt)
      | inr (c, e) ↦ rw e (of_value tt)
    ]

-- The rows of an aggregated series are in strictly rising order of time, and where there is an error it is one that the
-- code returns: no key is without a bucket.
pub aggregate_single_source_rows-IsRising :
    {F G U : Type 0} (n : Numbers F G U) (E : Type 0) (cal : Calendar)
    (p : QuerySingleSourceDataParams G) (units : Option (U × U)) (rows : List (DataRow F))
    → Outcome IsRising IsReturned (
        aggregate_single_source_rows {E = E} n
          (truncate_time cal unsupported_precision p.precision)
          rows
          p
          units)
aggregate_single_source_rows-IsRising n E cal p units rows =
    rows-IsRising n E (truncate_time cal unsupported_precision p.precision)
      (truncate_time-IsReturned E cal p.precision) p units rows
