-- ===== src/Timeseries/Aggregate/Table.antt =====
-- The tables of rollups, which the triggers of postgres/migrations/000016_create_tsdata_hourly_rollups.up.sql and
-- 000018_create_tsdata_daily_rollups.up.sql keep, and the statistics of their rows.
use self_host.Prelude.{
  ℕ, zero, suc, ◌+◌, ◌≡◌, refl, sym, ap, ap₂, ◌∙◌, inl, inr, Bool, some, List, [], ◌∷◌, ◌==◌,
  ==_iff, if◌then◌else◌, All, Bool-cases,
}
use mathlib.Core.List.{Permᴰ}
use self_host.Timeseries.Rollups.{Time, Span, truncated}
use self_host.Timeseries.Aggregate.{Numbers, DataRow, AggregateRollupRow, lower, upper}
use self_host.Timeseries.Aggregate.Sums.{
  IsExact, Stats, joined, combined, times, weigh, combined_left_comm, combined_assoc, combined_swap,
}
use self_host.Timeseries.Aggregate.Gather.{point_stats, rollup_stats}

-- A list with the rows that satisfy a test.
unfoldable pub filter : {A : Type 0} → (A → Bool) → List A → List A
filter p [] = []
filter p (x ∷ xs) = let rest = filter p xs in if p x then x ∷ rest else rest

module _ {F G U : Type 0} (n : Numbers F G U) where
  -- The rollup rows of one series as its points come one by one: LEAST and GREATEST with what the row has
  unfoldable pub upsert_rollup :
      Time → DataRow F → List (AggregateRollupRow F) → List (AggregateRollupRow F)
  upsert_rollup t r [] =
      record {
        ts_uuid = r.ts_uuid;
        bucket_ts = t;
        sample_count = 1;
        sample_sum = r.value;
        sample_min = r.value;
        sample_max = r.value;
      }
      ∷ []
  upsert_rollup t r (row ∷ rows) =
      let rest = upsert_rollup t r rows in
      if t == row.bucket_ts
      then record {
        ts_uuid = row.ts_uuid;
        bucket_ts = row.bucket_ts;
        sample_count = row.sample_count + 1;
        sample_sum = n.add row.sample_sum r.value;
        sample_min = lower n r.value row.sample_min;
        sample_max = upper n r.value row.sample_max;
      }
        ∷ rows
      else row ∷ rest

  -- The rollups of the points of a series.
  unfoldable pub rollup_table : Span → List (DataRow F) → List (AggregateRollupRow F)
  rollup_table u [] = []
  rollup_table u (r ∷ rs) = upsert_rollup (truncated u r.ts) r (rollup_table u rs)

  pub weigh-filter :
      {A : Type 0} (w : A → ℕ) (s : A → Stats F) (p : A → Bool) (xs : List A)
      → weigh n w s (filter p xs) ≡ weigh n (λ x. if p x then w x else 0) s xs
  unfolding weigh filter combined times
  weigh-filter w s p [] = refl
  weigh-filter w s p (x ∷ xs) = elim (Bool-cases (p x)) [
    | inl e ↦ rw e (ap (combined n (times n (w x) (s x))) (weigh-filter w s p xs))
    | inr e ↦ rw e (weigh-filter w s p xs)
  ]

  pub weigh-All :
      {A : Type 0} (v w : A → ℕ) (s : A → Stats F) (xs : List A)
      → All (λ x. v x ≡ w x) xs
      → weigh n v s xs ≡ weigh n w s xs
  unfolding weigh
  weigh-All v w s [] h = refl
  weigh-All v w s (x ∷ xs) (e, h) =
      ap₂ (λ k rest. combined n (times n k (s x)) rest) e (weigh-All v w s xs h)

  module _ (x : IsExact n) where
    pub weigh-Perm :
        {A : Type 0} (w : A → ℕ) (s : A → Stats F) {xs ys : List A}
        → Permᴰ xs ys
        → weigh n w s xs ≡ weigh n w s ys
    unfolding weigh
    weigh-Perm w s Permᴰ.nil = refl
    weigh-Perm w s (Permᴰ.cons e d) =
        ap₂ (λ a rest. combined n (times n (w a) (s a)) rest) e (weigh-Perm w s d)
    weigh-Perm w s (Permᴰ.swap {a = a} {b = b} {l = l} e f) =
        combined_left_comm n x (times n (w a) (s a)) (times n (w b) (s b)) (weigh n w s l)
        ∙ ap₂
            (λ b' a'.
              combined n (times n (w b') (s b'))
                (combined n (times n (w a') (s a')) (weigh n w s l)))
            f e
    weigh-Perm w s (Permᴰ.trans d e) = weigh-Perm w s d ∙ weigh-Perm w s e

    times-joined :
        (k : ℕ) (a b : Stats F) → times n k (joined n a b) ≡ combined n (times n k a) (times n k b)
    unfolding times combined
    times-joined zero a b = refl
    times-joined (suc k) a b =
        ap (combined n (some (joined n a b))) (times-joined k a b)
        ∙ combined_swap n x (some a) (some b) (times n k a) (times n k b)

    weigh-upsert_rollup :
        (w : Time → ℕ) (t : Time) (r : DataRow F) (rows : List (AggregateRollupRow F))
        → weigh n (λ row. w row.bucket_ts) rollup_stats (upsert_rollup t r rows)
          ≡ combined n
              (times n (w t) (point_stats r))
              (weigh n (λ row. w row.bucket_ts) rollup_stats rows)
    unfolding weigh upsert_rollup rollup_stats point_stats joined
    weigh-upsert_rollup w t r [] = refl
    weigh-upsert_rollup w t r (row ∷ rows) =
        let rest = weigh n (λ a. w a.bucket_ts) rollup_stats rows in
        let held = times n (w row.bucket_ts) (rollup_stats row) in
        elim (Bool-cases (t == row.bucket_ts)) [
          | inl e ↦ rw e (
              ap (λ a. combined n a rest)
                (times-joined (w row.bucket_ts) (rollup_stats row) (point_stats r))
              ∙ combined_assoc n x held (times n (w row.bucket_ts) (point_stats r)) rest
              ∙ combined_left_comm n x held (times n (w row.bucket_ts) (point_stats r)) rest
              ∙ ap (λ b. combined n (times n (w b) (point_stats r)) (combined n held rest))
                  (sym ((==_iff t row.bucket_ts).0 e)))
          | inr e ↦ rw e (
              ap (combined n held) (weigh-upsert_rollup w t r rows)
              ∙ combined_left_comm n x held (times n (w t) (point_stats r)) rest)
        ]

    pub weigh-rollup_table :
        (w : Time → ℕ) (u : Span) (rs : List (DataRow F))
        → weigh n (λ row. w row.bucket_ts) rollup_stats (rollup_table u rs)
          ≡ weigh n (λ r. w (truncated u r.ts)) point_stats rs
    unfolding weigh rollup_table
    weigh-rollup_table w u [] = refl
    weigh-rollup_table w u (r ∷ rs) =
        weigh-upsert_rollup w (truncated u r.ts) r (rollup_table u rs)
        ∙ ap (combined n (times n (w (truncated u r.ts)) (point_stats r)))
            (weigh-rollup_table w u rs)
