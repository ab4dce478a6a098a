-- ===== src/Timeseries/Aggregate/Gather.antt =====
-- The buckets that the two loops gather, and the result that is built of them.
use self_host.Prelude.{
  ◌≡◌, refl, sym, ap, ◌∙◌, subst, inl, inr, Bool, true, false, Option, none, some, List, [], ◌∷◌,
  ◌==◌, ==_iff, Bool-cases, Option-cases, arith,
}
use self_host.Timeseries.Rollups.{Time}
use self_host.Timeseries.Rollups.Partition.{one}
use self_host.Timeseries.Aggregate.{
  Numbers, AggregateBucket, Buckets, DataRow, AggregateRollupRow, keys_with, lower, upper,
  bucket_or_new, updated, accumulate_aggregate_bucket,
}
use self_host.Timeseries.Aggregate.Sorted.{member, IsDistinct, member-append, append_one-IsDistinct}
use self_host.Timeseries.Aggregate.Sums.{
  IsExact, Stats, combined, times, weigh, combined-none, combined_assoc, zero_plus,
}

unfoldable pub has : {A : Type 0} → Option A → Bool
has none = false
has (some a) = true

unfoldable pub bucket_at : {F : Type 0} → Time → Option (Stats F) → Option (AggregateBucket F)
bucket_at k none = none
bucket_at k (some s) =
    some (record { ts = k; count = s.count; sum = s.sum; min = s.min; max = s.max })

-- The bucket of each key has the statistics that `o` says.
unfoldable pub Holds : {F : Type 0} → Buckets F → (Time → Option (Stats F)) → Type 0
Holds b o = (k : Time) → b.at k ≡ bucket_at k (o k)

-- The keys are those that have a bucket, once each.
unfoldable pub IsKeyed : {F : Type 0} → Buckets F → Type 0
unfolding has
IsKeyed b = IsDistinct b.keys × ((k : Time) → member k b.keys ≡ has (b.at k))

unfoldable pub point_stats : {F : Type 0} → DataRow F → Stats F
point_stats r = record { count = 1; sum = r.value; min = r.value; max = r.value }

unfoldable pub rollup_stats : {F : Type 0} → AggregateRollupRow F → Stats F
rollup_stats r = record {
  count = r.sample_count;
  sum = r.sample_sum;
  min = r.sample_min;
  max = r.sample_max;
}

module _ {F G U : Type 0} (n : Numbers F G U) where
  unfoldable pub with_stats : Buckets F → Time → Stats F → Buckets F
  with_stats b t s = accumulate_aggregate_bucket n b t s.count s.sum s.min s.max

  -- Both loops, for rows with a time and statistics.
  unfoldable pub gathered :
      {A : Type 0} → (A → Time) → (A → Stats F) → Buckets F → List A → Buckets F
  unfolding with_stats
  gathered ts s b [] = b
  gathered ts s b (x ∷ xs) = gathered ts s (with_stats b (ts x) (s x)) xs

  pub with_stats-IsKeyed :
      (b : Buckets F) (t : Time) (s : Stats F) → IsKeyed b → IsKeyed (with_stats b t s)
  unfolding IsKeyed with_stats accumulate_aggregate_bucket keys_with has IsDistinct member
  with_stats-IsKeyed b t s (d, h) = elim (Option-cases (b.at t)) [
    | inl e ↦ rw e (
      append_one-IsDistinct b.keys t (h t ∙ ap has e) d,
      λ k. elim (Bool-cases (t == k)) [
        | inl f ↦ rw f (ground (arith, f, member-append k b.keys (t ∷ [])))
        | inr f ↦ rw f (ground (arith, f, h k, member-append k b.keys (t ∷ [])))
      ],
    )
    | inr (c, e) ↦ rw e (
      d,
      λ k. elim (Bool-cases (t == k)) [
        | inl f ↦ rw f (subst (λ j. member j b.keys ≡ true) ((==_iff t k).0 f) (h t ∙ ap has e))
        | inr f ↦ rw f (h k)
      ],
    )
  ]

  pub gathered-IsKeyed :
      {A : Type 0} (ts : A → Time) (s : A → Stats F) (b : Buckets F) (xs : List A)
      → IsKeyed b
      → IsKeyed (gathered ts s b xs)
  unfolding gathered
  gathered-IsKeyed ts s b [] h = h
  gathered-IsKeyed ts s b (x ∷ xs) h =
      gathered-IsKeyed ts s (with_stats b (ts x) (s x)) xs (with_stats-IsKeyed b (ts x) (s x) h)

  lower_self : (m : F) → lower n m m ≡ m
  unfolding lower
  lower_self m = elim (Bool-cases (n.less m m)) [ inl e ↦ rw e refl | inr e ↦ rw e refl ]

  upper_self : (m : F) → upper n m m ≡ m
  unfolding upper
  upper_self m = elim (Bool-cases (n.less m m)) [ inl e ↦ rw e refl | inr e ↦ rw e refl ]

  module _ (x : IsExact n) where
    new_bucket :
        (t : Time) (s : Stats F)
        → some (updated n (bucket_or_new n none t s.min s.max) s.count s.sum s.min s.max)
          ≡ bucket_at t (some s)
    unfolding updated bucket_or_new bucket_at
    new_bucket t s = λ i. some (record {
      ts = t;
      count = zero_plus s.count i;
      sum = x.add_zero s.sum i;
      min = lower_self s.min i;
      max = upper_self s.max i;
    })

    joined_bucket :
        (t : Time) (s : Stats F) (a : Option (AggregateBucket F)) (p : Option (Stats F))
        → a ≡ bucket_at t p
        → some (updated n (bucket_or_new n a t s.min s.max) s.count s.sum s.min s.max)
          ≡ bucket_at t (combined n p (times n 1 s))
    unfolding times combined bucket_at updated bucket_or_new
    joined_bucket t s a none e = rw e (new_bucket t s)
    joined_bucket t s a (some r) e = rw e refl

    with_stats-Holds :
        (b : Buckets F) (o : Time → Option (Stats F)) (t : Time) (s : Stats F)
        → Holds b o
        → Holds (with_stats b t s) (λ k. combined n (o k) (times n (one (t == k)) s))
    unfolding Holds with_stats accumulate_aggregate_bucket one times
    with_stats-Holds b o t s h k = elim (Bool-cases (t == k)) [
      | inl e ↦ rw e (
          subst
            (λ j.
              some (updated n (bucket_or_new n (b.at t) t s.min s.max) s.count s.sum s.min s.max)
              ≡ bucket_at j (combined n (o j) (times n 1 s)))
            ((==_iff t k).0 e) (joined_bucket t s (b.at t) (o t) (h t)))
      | inr e ↦ rw e (h k ∙ ap (bucket_at k) (sym (combined-none n (o k))))
    ]

    pub gathered-Holds :
        {A : Type 0} (ts : A → Time) (s : A → Stats F) (b : Buckets F) (o : Time → Option (Stats F))
        (xs : List A)
        → Holds b o
        → Holds (gathered ts s b xs) (λ k. combined n (o k) (weigh n (λ a. one (ts a == k)) s xs))
    unfolding gathered weigh Holds
    gathered-Holds ts s b o [] h k = h k ∙ ap (bucket_at k) (sym (combined-none n (o k)))
    gathered-Holds ts s b o (a ∷ xs) h k =
        gathered-Holds ts s (with_stats b (ts a) (s a))
          (λ j. combined n (o j) (times n (one (ts a == j)) (s a))) xs
          (with_stats-Holds b o (ts a) (s a) h) k
        ∙ ap (bucket_at k) (
            combined_assoc n x (o k) (times n (one (ts a == k)) (s a))
              (weigh n (λ c. one (ts c == k)) s xs))
