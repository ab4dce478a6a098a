-- ===== src/Timeseries/Truncate/Coarse.antt =====
-- The precisions for which rollups serve: an hour or a day has one bucket.
use self_host.Prelude.{
  ℕ, ◌+◌, ◌-◌, ◌*◌, ◌/◌, ◌≡◌, ◌⊎◌, inl, inr, Bool-cases, refl, sym, ap, subst, ◌∙◌, Bool, true,
  false, some, [], ◌==◌, if◌then◌else◌, arith,
}
use self_host.Text.{Text, codes, text_eq}
use self_host.Text.Laws.{text_eq_iff}
use self_host.Timeseries.Rollups.{Time, Span, truncated, rollup_source_for_precision}
use self_host.Timeseries.Truncate.{
  Calendar, Precision, precisions, find_precision, truncated_by, truncate_week, midnight, hour, day,
  week, month, year, decade, century, millennia,
}

-- In UTC the civil date of an instant is that of the midnight before it.
pub record IsUtc (cal : Calendar) : Type 0 where
  pub year_of_day : (t : Time) → cal.year (truncated Span.day t) ≡ cal.year t
  pub month_of_day : (t : Time) → cal.month (truncated Span.day t) ≡ cal.month t
  pub day_of_day : (t : Time) → cal.day (truncated Span.day t) ≡ cal.day t
  pub weekday_of_day : (t : Time) → cal.weekday (truncated Span.day t) ≡ cal.weekday t
  -- AddDate keeps the time of the day.
  pub days_before_of_day :
      (n : ℕ) (t : Time)
      → cal.days_before n (truncated Span.day t) ≡ truncated Span.day (cal.days_before n t)

-- Precisions whose buckets are made of whole spans.
pub data IsCoarse : Span → Precision → Type 0 where
  by_hour : IsCoarse Span.hour hour
  by_day : IsCoarse Span.day day
  by_week : IsCoarse Span.day week
  by_month : IsCoarse Span.day month
  by_year : IsCoarse Span.day year
  by_decade : IsCoarse Span.day decade
  by_century : IsCoarse Span.day century
  by_millennia : IsCoarse Span.day millennia

module _ (cal : Calendar) (utc : IsUtc cal) where
  midnight_of_day : (t : Time) → midnight cal (truncated Span.day t) ≡ midnight cal t
  unfolding midnight
  midnight_of_day t =
      λ i. cal.date (utc.year_of_day t i) (utc.month_of_day t i) (utc.day_of_day t i) 0 0

  week_of_day : (t : Time) → truncate_week cal (truncated Span.day t) ≡ truncate_week cal t
  unfolding truncate_week
  week_of_day t =
      let n = (if cal.weekday t == 0 then 7 else cal.weekday t) - 1 in
      ap
        (λ d. midnight cal (cal.days_before ((if d == 0 then 7 else d) - 1) (truncated Span.day t)))
        (utc.weekday_of_day t)
      ∙ ap (midnight cal) (utc.days_before_of_day n t)
      ∙ midnight_of_day (cal.days_before n t)

  -- An instant and the start of its span have one bucket.
  pub truncated_by-truncated :
      {u : Span} {p : Precision}
      → IsCoarse u p
      → (t : Time) → truncated_by cal p (truncated u t) ≡ truncated_by cal p t
  unfolding truncated_by
  truncated_by-truncated by_hour t = omega arith
  truncated_by-truncated by_day t = midnight_of_day t
  truncated_by-truncated by_week t = week_of_day t
  truncated_by-truncated by_month t =
      λ i. cal.date (utc.year_of_day t i) (utc.month_of_day t i) 1 0 0
  truncated_by-truncated by_year t = ap (λ y. cal.date (y) 1 1 0 0) (utc.year_of_day t)
  truncated_by-truncated by_decade t = ap (λ y. cal.date (y / 10 * 10) 1 1 0 0) (utc.year_of_day t)
  truncated_by-truncated by_century t =
      ap (λ y. cal.date ((y - 1) / 100 * 100 + 1) 1 1 0 0) (utc.year_of_day t)
  truncated_by-truncated by_millennia t =
      ap (λ y. cal.date ((y - 1) / 1000 * 1000 + 1) 1 1 0 0) (utc.year_of_day t)

abbrev pub rollup_source : Span → Text
rollup_source Span.hour = codes "hourly"
rollup_source Span.day = codes "daily"

-- The source of a precision is none, or that of the spans its buckets are made of.
abbrev pub Served : Text → Text → Type 0
Served precision source =
    (source ≡ [])
    ⊎ ((u : Span) × (p : Precision) × (find_precision precisions precision ≡ some p)
        × (IsCoarse u p)
        × (source ≡ rollup_source u))

unfoldable pub source_of : Text → Text
unfolding rollup_source_for_precision
source_of precision = rollup_source_for_precision true (codes "UTC") precision

named :
    (name : Text)
    → Served name (source_of name)
    → (precision : Text) → text_eq precision name ≡ true
    → Served precision (source_of precision)
named name s precision e =
    subst (λ n. Served n (source_of n)) (sym ((text_eq_iff precision name).0 e)) s

serves_day : Served (codes "day") (source_of (codes "day"))
unfolding source_of rollup_source_for_precision find_precision text_eq
serves_day = inr (Span.day, day, refl, by_day, refl)

serves_week : Served (codes "week") (source_of (codes "week"))
unfolding source_of rollup_source_for_precision find_precision text_eq
serves_week = inr (Span.day, week, refl, by_week, refl)

serves_month : Served (codes "month") (source_of (codes "month"))
unfolding source_of rollup_source_for_precision find_precision text_eq
serves_month = inr (Span.day, month, refl, by_month, refl)

serves_year : Served (codes "year") (source_of (codes "year"))
unfolding source_of rollup_source_for_precision find_precision text_eq
serves_year = inr (Span.day, year, refl, by_year, refl)

serves_decade : Served (codes "decade") (source_of (codes "decade"))
unfolding source_of rollup_source_for_precision find_precision text_eq
serves_decade = inr (Span.day, decade, refl, by_decade, refl)

serves_century : Served (codes "century") (source_of (codes "century"))
unfolding source_of rollup_source_for_precision find_precision text_eq
serves_century = inr (Span.day, century, refl, by_century, refl)

serves_millennia : Served (codes "millennia") (source_of (codes "millennia"))
unfolding source_of rollup_source_for_precision find_precision text_eq
serves_millennia = inr (Span.day, millennia, refl, by_millennia, refl)

serves_hour : Served (codes "hour") (source_of (codes "hour"))
unfolding source_of rollup_source_for_precision find_precision text_eq
serves_hour = inr (Span.hour, hour, refl, by_hour, refl)

pub source_of-Served : (precision : Text) → Served precision (source_of precision)
unfolding source_of rollup_source_for_precision text_eq
source_of-Served precision = elim (Bool-cases (text_eq precision (codes "day"))) [
  | inl e ↦ named (codes "day") serves_day precision e
  | inr e0 ↦ elim (Bool-cases (text_eq precision (codes "week"))) [
    | inl e ↦ named (codes "week") serves_week precision e
    | inr e1 ↦ elim (Bool-cases (text_eq precision (codes "month"))) [
      | inl e ↦ named (codes "month") serves_month precision e
      | inr e2 ↦ elim (Bool-cases (text_eq precision (codes "year"))) [
        | inl e ↦ named (codes "year") serves_year precision e
        | inr e3 ↦ elim (Bool-cases (text_eq precision (codes "decade"))) [
          | inl e ↦ named (codes "decade") serves_decade precision e
          | inr e4 ↦ elim (Bool-cases (text_eq precision (codes "century"))) [
            | inl e ↦ named (codes "century") serves_century precision e
            | inr e5 ↦ elim (Bool-cases (text_eq precision (codes "millennia"))) [
              | inl e ↦ named (codes "millennia") serves_millennia precision e
              | inr e6 ↦ elim (Bool-cases (text_eq precision (codes "hour"))) [
                | inl e ↦ named (codes "hour") serves_hour precision e
                | inr e7 ↦ inl (simp (e0, e1, e2, e3, e4, e5, e6, e7))
              ]
            ]
          ]
        ]
      ]
    ]
  ]
]

-- Rollups are used in UTC, if at all.
pub source-cases :
    (enabled : Bool) (timezone precision : Text)
    → (rollup_source_for_precision enabled timezone precision ≡ [])
      ⊎ ((timezone ≡ codes "UTC")
          × (rollup_source_for_precision enabled timezone precision ≡ source_of precision))
unfolding rollup_source_for_precision source_of text_eq
source-cases false timezone precision = inl refl
source-cases true timezone precision = elim (Bool-cases (text_eq timezone (codes "UTC"))) [
  | inl e ↦ inr ((text_eq_iff timezone (codes "UTC")).0 e, rw e refl)
  | inr e ↦ inl (rw e refl)
]
