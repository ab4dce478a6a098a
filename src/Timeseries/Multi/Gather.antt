-- ===== src/Timeseries/Multi/Gather.antt =====
-- The buckets of one series among those of several are those that its own rows make.
use self_host.Prelude.{
  ℕ, ◌≡◌, ◌⊎◌, inl, inr, refl, sym, ap, subst, ◌∙◌, true, false, some, List, [], ◌∷◌, ◌++◌, ◌==◌,
  ==_iff, if◌then◌else◌, any, Result, ok, Bool-cases, Option-cases, Result-cases, In,
}
use self_host.Policy.Rule.{Uuid}
use self_host.Timeseries.Rollups.{Time}
use self_host.Timeseries.Aggregate.{
  Numbers, AggregateError, DataRow, AggregateRollupRow, AggregateBucket, Buckets, bucket_or_new,
  updated, accumulate_aggregate_bucket, add_raw_rows, add_rollup_rows,
}
use self_host.Timeseries.Multi.{
  SeriesBuckets, no_series, add_series, accumulate_series_aggregate_bucket, add_series_raw_rows,
  add_series_rollup_rows,
}

-- The rows of one series.
unfoldable pub points_of : {F : Type 0} → Uuid → List (DataRow F) → List (DataRow F)
points_of id [] = []
points_of id (item ∷ rows) =
    let rest = points_of id rows in if item.ts_uuid == id then item ∷ rest else rest

unfoldable pub rollups_of :
    {F : Type 0} → Uuid → List (AggregateRollupRow F) → List (AggregateRollupRow F)
rollups_of id [] = []
rollups_of id (item ∷ rows) =
    let rest = rollups_of id rows in if item.ts_uuid == id then item ∷ rest else rest

ok_buckets :
    {F E : Type 0} {x y : SeriesBuckets F}
    → ◌≡◌ {A = Result (AggregateError E) (SeriesBuckets F)} (ok x) (ok y)
    → x ≡ y
ok_buckets h = cc h

-- Each bucket has the time of its key.
unfoldable pub IsStamped : {F : Type 0} → Buckets F → Type 0
IsStamped {F} b = (k : Time) (x : AggregateBucket F) → b.at k ≡ some x → x.ts ≡ k

-- A series is listed, or has no key; its buckets are stamped.
pub record IsTidy {F : Type 0} (b : SeriesBuckets F) : Type 0 where
  pub listed : (id : Uuid) → In id b.series ⊎ ((b.of id).keys ≡ [])
  pub stamped : (id : Uuid) → IsStamped (b.of id)

pub no_series-IsTidy : (F : Type 0) → IsTidy {F = F} no_series
unfolding IsStamped
no_series-IsTidy F = record { listed = λ id. inr refl; stamped = λ id k x h. cc h }

In-append_left : (x : Uuid) (xs ys : List Uuid) → In x xs → In x (xs ++ ys)
In-append_left x [] ys h = absurd h
In-append_left x (y ∷ xs) ys (inl e) = inl e
In-append_left x (y ∷ xs) ys (inr h) = inr (In-append_left x xs ys h)

In-append_last : (x : Uuid) (xs : List Uuid) → In x (xs ++ x ∷ [])
In-append_last x [] = inl refl
In-append_last x (y ∷ xs) = inr (In-append_last x xs)

any-In : (x : Uuid) (xs : List Uuid) → any (λ k. k == x) xs ≡ true → In x xs
any-In x [] h = cc h
any-In x (y ∷ xs) h = elim (Bool-cases (y == x)) [
  | inl e ↦ inl (sym ((==_iff y x).0 e))
  | inr e ↦ inr (any-In x xs (rw e at h))
]

In-add_series_self : (id : Uuid) (ids : List Uuid) → In id (add_series id ids)
unfolding add_series
In-add_series_self id ids = elim (Bool-cases (any (λ k. k == id) ids)) [
  | inl e ↦ rw e (any-In id ids e)
  | inr e ↦ rw e (In-append_last id ids)
]

In-add_series : (x id : Uuid) (ids : List Uuid) → In x ids → In x (add_series id ids)
unfolding add_series
In-add_series x id ids h = elim (Bool-cases (any (λ k. k == id) ids)) [
  | inl e ↦ rw e h
  | inr e ↦ rw e (In-append_left x ids (id ∷ []) h)
]

ts_of : {F : Type 0} {x y : AggregateBucket F} → some x ≡ some y → x.ts ≡ y.ts
ts_of {F} {x} {y} h = let g : x ≡ y = cc h in ap (λ (z : AggregateBucket F). z.ts) g

module _ {F G U : Type 0} (n : Numbers F G U) where
  accumulate-IsStamped :
      (b : Buckets F) (t : Time) (c : ℕ) (sum min max : F)
      → IsStamped b
      → IsStamped (accumulate_aggregate_bucket n b t c sum min max)
  unfolding IsStamped accumulate_aggregate_bucket bucket_or_new updated
  accumulate-IsStamped b t c sum min max h k x e = elim (Bool-cases (t == k)) [
    | inl q ↦ elim (Option-cases (b.at t)) [
      | inl f ↦ sym (ts_of (rw (q, f) at e)) ∙ (==_iff t k).0 q
      | inr (y, f) ↦ sym (ts_of (rw (q, f) at e)) ∙ h t y f ∙ (==_iff t k).0 q
    ]
    | inr q ↦ h k x (rw q at e)
  ]

  accumulate-IsTidy :
      (b : SeriesBuckets F) (id : Uuid) (t : Time) (c : ℕ) (sum min max : F)
      → IsTidy b
      → IsTidy (accumulate_series_aggregate_bucket n b id t c sum min max)
  unfolding accumulate_series_aggregate_bucket
  accumulate-IsTidy b id t c sum min max v = record {
    listed = λ k. elim (Bool-cases (id == k)) [
      | inl e ↦ inl (
          subst (λ (j : Uuid). In j (add_series id b.series)) ((==_iff id k).0 e)
            (In-add_series_self id b.series))
      | inr e ↦ elim (v.listed k) [
        | inl i ↦ inl (In-add_series k id b.series i)
        | inr q ↦ inr (rw e q)
      ]
    ];
    stamped = λ k. elim (Bool-cases (id == k)) [
      | inl e ↦ rw e (accumulate-IsStamped (b.of id) t c sum min max (v.stamped id))
      | inr e ↦ rw e (v.stamped k)
    ];
  }

  accumulate_self :
      (b : SeriesBuckets F) (id k : Uuid) (t : Time) (c : ℕ) (sum min max : F)
      → (id == k) ≡ true
      → (accumulate_series_aggregate_bucket n b id t c sum min max).of k
        ≡ accumulate_aggregate_bucket n (b.of k) t c sum min max
  unfolding accumulate_series_aggregate_bucket
  accumulate_self b id k t c sum min max e = rw e (
      ap (λ (j : Uuid). accumulate_aggregate_bucket n (b.of j) t c sum min max) ((==_iff id k).0 e))

  accumulate_other :
      (b : SeriesBuckets F) (id k : Uuid) (t : Time) (c : ℕ) (sum min max : F)
      → (id == k) ≡ false
      → (accumulate_series_aggregate_bucket n b id t c sum min max).of k ≡ b.of k
  unfolding accumulate_series_aggregate_bucket
  accumulate_other b id k t c sum min max e = rw e

module _ {F G U E : Type 0} (n : Numbers F G U)
    (truncate : Time → Result (AggregateError E) Time) where
  pub add_series_raw_rows-IsTidy :
      (b b' : SeriesBuckets F) (rows : List (DataRow F))
      → add_series_raw_rows n truncate b rows ≡ ok b'
      → IsTidy b
      → IsTidy b'
  unfolding add_series_raw_rows
  add_series_raw_rows-IsTidy b b' [] h v =
      subst (λ (z : SeriesBuckets F). IsTidy z) (ok_buckets h) v
  add_series_raw_rows-IsTidy b b' (item ∷ rows) h v = elim (Result-cases (truncate item.ts)) [
    | inr (x, e) ↦ cc (rw (e, add_series_raw_rows) at h)
    | inl (ts, e) ↦
        add_series_raw_rows-IsTidy
          (accumulate_series_aggregate_bucket n b item.ts_uuid ts 1 item.value item.value
            item.value)
          b' rows (rw (e, add_series_raw_rows) at h)
          (accumulate-IsTidy n b item.ts_uuid ts 1 item.value item.value item.value v)
  ]

  pub add_series_raw_rows-points_of :
      (id : Uuid) (b b' : SeriesBuckets F) (rows : List (DataRow F))
      → add_series_raw_rows n truncate b rows ≡ ok b'
      → add_raw_rows n truncate (b.of id) (points_of id rows) ≡ ok (b'.of id)
  unfolding add_series_raw_rows points_of add_raw_rows
  add_series_raw_rows-points_of id b b' [] h =
      unfold add_raw_rows in ap (λ (z : SeriesBuckets F). ok (z.of id)) (ok_buckets h)
  add_series_raw_rows-points_of id b b' (item ∷ rows) h = elim (Result-cases (truncate item.ts)) [
    | inr (x, e) ↦ cc (rw (e, add_series_raw_rows) at h)
    | inl (ts, e) ↦
        let c =
          accumulate_series_aggregate_bucket n b item.ts_uuid ts 1 item.value item.value
            item.value in
        let rest = add_series_raw_rows-points_of id c b' rows (rw (e, add_series_raw_rows) at h) in
        elim (Bool-cases (item.ts_uuid == id)) [
          | inl q ↦ rw q (
              rw (e, add_raw_rows)
                (rw (accumulate_self n b item.ts_uuid id ts 1 item.value item.value item.value q) at
                  rest))
          | inr q ↦ rw q (
              rw (accumulate_other n b item.ts_uuid id ts 1 item.value item.value item.value q) at
                rest)
        ]
  ]

  pub add_series_rollup_rows-IsTidy :
      (b b' : SeriesBuckets F) (rows : List (AggregateRollupRow F))
      → add_series_rollup_rows n truncate b rows ≡ ok b'
      → IsTidy b
      → IsTidy b'
  unfolding add_series_rollup_rows
  add_series_rollup_rows-IsTidy b b' [] h v =
      subst (λ (z : SeriesBuckets F). IsTidy z) (ok_buckets h) v
  add_series_rollup_rows-IsTidy b b' (item ∷ rows) h v =
      elim (Result-cases (truncate item.bucket_ts)) [
        | inr (x, e) ↦ cc (rw (e, add_series_rollup_rows) at h)
        | inl (ts, e) ↦
            add_series_rollup_rows-IsTidy
              (accumulate_series_aggregate_bucket n b item.ts_uuid ts item.sample_count
                item.sample_sum item.sample_min item.sample_max)
              b' rows (rw (e, add_series_rollup_rows) at h)
              (accumulate-IsTidy n b item.ts_uuid ts item.sample_count item.sample_sum
                item.sample_min item.sample_max v)
      ]

  pub add_series_rollup_rows-rollups_of :
      (id : Uuid) (b b' : SeriesBuckets F) (rows : List (AggregateRollupRow F))
      → add_series_rollup_rows n truncate b rows ≡ ok b'
      → add_rollup_rows n truncate (b.of id) (rollups_of id rows) ≡ ok (b'.of id)
  unfolding add_series_rollup_rows rollups_of add_rollup_rows
  add_series_rollup_rows-rollups_of id b b' [] h =
      unfold add_rollup_rows in ap (λ (z : SeriesBuckets F). ok (z.of id)) (ok_buckets h)
  add_series_rollup_rows-rollups_of id b b' (item ∷ rows) h =
      elim (Result-cases (truncate item.bucket_ts)) [
        | inr (x, e) ↦ cc (rw (e, add_series_rollup_rows) at h)
        | inl (ts, e) ↦
            let c =
              accumulate_series_aggregate_bucket n b item.ts_uuid ts item.sample_count
                item.sample_sum item.sample_min item.sample_max in
            let rest =
              add_series_rollup_rows-rollups_of id c b' rows
                (rw (e, add_series_rollup_rows) at h) in
            elim (Bool-cases (item.ts_uuid == id)) [
              | inl q ↦ rw q (
                  rw (e, add_rollup_rows)
                    (rw
                      (accumulate_self n b item.ts_uuid id ts item.sample_count item.sample_sum
                        item.sample_min item.sample_max q)
                      at rest))
              | inr q ↦ rw q (
                  rw
                    (accumulate_other n b item.ts_uuid id ts item.sample_count item.sample_sum
                      item.sample_min item.sample_max q)
                    at rest)
            ]
      ]
