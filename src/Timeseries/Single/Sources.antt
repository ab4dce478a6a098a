-- ===== src/Timeseries/Single/Sources.antt =====
-- What an aggregating query loads, against the points of the series.
use self_host.Prelude.{
  ℕ, ◌+◌, ◌≤◌, ◌%◌, ◌≡◌, refl, sym, ap, ap₂, ◌∙◌, Bool, true, false, Option, none, some, List, [],
  ◌∷◌, ◌++◌, ◌==◌, if◌then◌else◌, All, Result, ok, arith,
}
use mathlib.Core.List.{Permᴰ}
use self_host.Text.{text_eq}
use self_host.Policy.Rule.{Uuid}
use self_host.Timeseries.Rollups.{
  Time, Span, TimeRange, nanoseconds, microsecond, truncated, split_ranges,
}
use self_host.Timeseries.Rollups.Partition.{
  one, in_range, raw_reads, rollup_reads, reads, asked, split_ranges-asked,
}
use self_host.Timeseries.Truncate.Coarse.{rollup_source}
use self_host.Timeseries.Aggregate.{Numbers, DataRow, AggregateRollupRow}
use self_host.Timeseries.Aggregate.Sums.{
  IsExact, Stats, combined, combined_comm, times, weigh, weigh_add, weigh-append,
}
use self_host.Timeseries.Aggregate.Gather.{point_stats, rollup_stats}
use self_host.Timeseries.Aggregate.Same.{raw_total, rollup_total}
use self_host.Timeseries.Aggregate.Table.{
  filter, rollup_table, weigh-filter, weigh-All, weigh-Perm, weigh-rollup_table,
}
use self_host.Timeseries.Single.{TsQueries, load_raw_rows, load_rollup_rows, asked_database}

-- The query answers with the rows, in any order.
abbrev pub Answers : {E A : Type 0} → Result E (List A) → List A → Type 0
Answers {A = A} r xs = (rows : List A) × (r ≡ ok rows) × Permᴰ rows xs

-- The database holds the points of the series and their rollups.
pub record IsStored {F G U E : Type 0} (n : Numbers F G U) (q : TsQueries F E) (id : Uuid)
    (pts : List (DataRow F)) : Type 0 where
  pub points :
      (r : TimeRange)
      → Answers (q.get_ts_data_range (id ∷ []) r.start r.stop) (filter (λ a. in_range r a.ts) pts)
  pub hourly :
      (r : TimeRange)
      → Answers
          (q.get_ts_hourly_rollup_range (id ∷ []) r.start r.stop)
          (filter (λ a. in_range r a.bucket_ts) (rollup_table n Span.hour pts))
  pub daily :
      (r : TimeRange)
      → Answers
          (q.get_ts_daily_rollup_range (id ∷ []) r.start r.stop)
          (filter (λ a. in_range r a.bucket_ts) (rollup_table n Span.day pts))

weigh_zero :
    {F G U A : Type 0} (n : Numbers F G U) (s : A → Stats F) (xs : List A)
    → weigh n (λ a. 0) s xs ≡ none
unfolding weigh combined times
weigh_zero n s [] = refl
weigh_zero n s (x ∷ xs) = weigh_zero n s xs

swapped : (b c : Bool) → (if b then one c else 0) ≡ (if c then one b else 0)
unfolding one
swapped true true = refl
swapped true false = refl
swapped false true = refl
swapped false false = refl

split_if :
    (c : Bool) (a b : ℕ) → (if c then a + b else 0) ≡ (if c then a else 0) + (if c then b else 0)
split_if true a b = refl
split_if false a b = omega arith

if_same : (c : Bool) → ◌≡◌ {A = ℕ} (if c then 0 else 0) 0
if_same true = refl
if_same false = refl

module _ {F G U E : Type 0} (n : Numbers F G U) (x : IsExact n) (q : TsQueries F E) (id : Uuid)
    (pts : List (DataRow F)) (stored : IsStored n q id pts) (g : Time → Time) where
  -- The points of the bucket `k`, each as often as `w` says.
  counted : (Time → ℕ) → Time → Option (Stats F)
  counted w k = weigh n (λ r. if g r.ts == k then w r.ts else 0) point_stats pts

  range-counted :
      (r : TimeRange) (k : Time) (rows : List (DataRow F))
      → Permᴰ rows (filter (λ a. in_range r a.ts) pts)
      → raw_total n g rows k ≡ counted (λ t. one (in_range r t)) k
  unfolding raw_total counted one
  range-counted r k rows d =
      weigh-Perm n x (λ a. one (g a.ts == k)) point_stats d
      ∙ weigh-filter n (λ a. one (g a.ts == k)) point_stats (λ a. in_range r a.ts) pts
      ∙ ap (λ w. weigh n w point_stats pts) (λ i a. swapped (in_range r a.ts) (g a.ts == k) i)

  counted_add :
      (v w : Time → ℕ) (k : Time)
      → combined n (counted v k) (counted w k) ≡ counted (λ t. v t + w t) k
  unfolding counted
  counted_add v w k =
      sym (
        weigh_add n x point_stats (λ r. if g r.ts == k then v r.ts else 0)
          (λ r. if g r.ts == k then w r.ts else 0) pts)
      ∙ ap (λ u. weigh n u point_stats pts)
          (λ i r. sym (split_if (g r.ts == k) (v r.ts) (w r.ts)) i)

  counted_zero : (k : Time) → counted (λ t. 0) k ≡ none
  unfolding counted
  counted_zero k =
      ap (λ u. weigh n u point_stats pts) (λ i r. if_same (g r.ts == k) i)
      ∙ weigh_zero n point_stats pts

  load_raw_rows-counted :
      (rs : List TimeRange)
      → (rows : List (DataRow F)) × (load_raw_rows q (id ∷ []) rs ≡ ok rows)
        × ((k : Time) → raw_total n g rows k ≡ counted (raw_reads rs) k)
  unfolding load_raw_rows asked_database raw_reads raw_total weigh
  load_raw_rows-counted [] = ([], refl, λ k. sym (counted_zero k))
  load_raw_rows-counted (r ∷ rs) =
      let (rows, e, d) = stored.points r in
      let (rest, f, h) = load_raw_rows-counted rs in
      (
        rows ++ rest,
        rw e (rw f refl),
        λ k.
            weigh-append n x point_stats (λ a. one (g a.ts == k)) rows rest
            ∙ ap₂ (combined n) (range-counted r k rows d) (h k)
            ∙ counted_add (λ t. one (in_range r t)) (raw_reads rs) k,
      )

  rollup-counted :
      (u : Span) (r : TimeRange) (k : Time) (rows : List (AggregateRollupRow F))
      → ((t : Time) → g (truncated u t) ≡ g t)
      → Permᴰ rows (filter (λ a. in_range r a.bucket_ts) (rollup_table n u pts))
      → rollup_total n g rows k ≡ counted (rollup_reads u (some r)) k
  unfolding rollup_total counted rollup_reads
  rollup-counted u r k rows h d =
      weigh-Perm n x (λ a. one (g a.bucket_ts == k)) rollup_stats d
      ∙ weigh-filter n (λ a. one (g a.bucket_ts == k)) rollup_stats (λ a. in_range r a.bucket_ts)
          (rollup_table n u pts)
      ∙ weigh-rollup_table n x (λ t. if in_range r t then one (g t == k) else 0) u pts
      ∙ ap (λ w. weigh n w point_stats pts)
          (λ i a. swapped (in_range r (truncated u a.ts)) (h a.ts i == k) i)

  load_rollup_rows-counted :
      (u : Span) (o : Option TimeRange)
      → ((t : Time) → g (truncated u t) ≡ g t)
      → (rows : List (AggregateRollupRow F)) × (load_rollup_rows q (id ∷ []) (rollup_source u) o
          ≡ ok rows)
        × ((k : Time) → rollup_total n g rows k ≡ counted (rollup_reads u o) k)
  unfolding load_rollup_rows asked_database rollup_reads rollup_total weigh text_eq
  load_rollup_rows-counted u none h = ([], refl, λ k. sym (counted_zero k))
  load_rollup_rows-counted Span.hour (some r) h =
      let (rows, e, d) = stored.hourly r in
      (rows, rw e refl, λ k. rollup-counted Span.hour r k rows h d)
  load_rollup_rows-counted Span.day (some r) h =
      let (rows, e, d) = stored.daily r in
      (rows, rw e refl, λ k. rollup-counted Span.day r k rows h d)

  -- The bucket that the rollups and the raw ranges of a split fill is that of the points from `start` to `end`.
  reads-counted :
      (u : Span) (start end : Time) (k : Time)
      → nanoseconds u ≤ end
      → All (λ r. r.ts % microsecond ≡ 0) pts
      → counted (reads u (split_ranges u start end)) k ≡ counted (asked start end) k
  unfolding counted
  reads-counted u start end k h micro =
      weigh-All n (λ r. if g r.ts == k then reads u (split_ranges u start end) r.ts else 0)
        (λ r. if g r.ts == k then asked start end r.ts else 0) point_stats pts (each pts micro)
    where
      each :
          (rs : List (DataRow F))
          → All (λ r. r.ts % microsecond ≡ 0) rs
          → All
              (λ r.
                (if g r.ts == k then reads u (split_ranges u start end) r.ts else 0)
                ≡ (if g r.ts == k then asked start end r.ts else 0))
              rs
      each [] m = tt
      each (r ∷ rs) (e, m) = (
        ap (λ j. if g r.ts == k then j else 0) (split_ranges-asked u start end r.ts h e),
        each rs m,
      )

  -- The statistics of what is loaded are those of the points from `start` to `end`.
  pub loaded-same :
      (u : Span) (start end : Time)
      → ((t : Time) → g (truncated u t) ≡ g t)
      → nanoseconds u ≤ end
      → All (λ r. r.ts % microsecond ≡ 0) pts
      → (raw all : List (DataRow F)) × (rollups : List (AggregateRollupRow F)) × (load_raw_rows q
            (id ∷ [])
            (split_ranges u start end).1
          ≡ ok raw)
        × (load_rollup_rows q (id ∷ []) (rollup_source u) (split_ranges u start end).0 ≡ ok rollups)
        × (q.get_ts_data_range (id ∷ []) start end ≡ ok all)
        × ((k : Time)
            → combined n (raw_total n g raw k) (rollup_total n g rollups k) ≡ raw_total n g all k)
  unfolding reads in_range asked counted
  loaded-same u start end h l micro =
      let (raw, e, f) = load_raw_rows-counted (split_ranges u start end).1 in
      let (rollups, d, c) = load_rollup_rows-counted u (split_ranges u start end).0 h in
      let (all, a, b) = stored.points (record { start = start; stop = end }) in
      (
        raw,
        all,
        rollups,
        e,
        d,
        a,
        λ k.
            combined_comm n x (raw_total n g raw k) (rollup_total n g rollups k)
            ∙ ap₂ (combined n) (c k) (f k)
            ∙ counted_add (rollup_reads u (split_ranges u start end).0)
                (raw_reads (split_ranges u start end).1) k
            ∙ reads-counted u start end k l micro
            ∙ sym (range-counted (record { start = start; stop = end }) k all b),
      )
