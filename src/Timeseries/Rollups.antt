-- ===== src/Timeseries/Rollups.antt =====
-- The rollup ranges of internal/services/timeseries.go: rollupSourceForPrecision, splitRollupRanges,
-- splitDailyRollupRanges and splitHourlyRollupRanges. A time.Time is the number of nanoseconds since Go's
-- absolute zero time, a midnight in UTC from which Truncate counts; a day in UTC has 24 hours.
pub mod Partition
use self_host.Prelude.{
  ℕ, ◌+◌, ◌-◌, ◌%◌, Bool, true, false, not, ◌||◌, Option, none, some, List, [], ◌∷◌, ◌++◌, ltb, leb,
  if◌then◌else◌, any,
}
use self_host.Text.{Text, codes, text_eq}

abbrev pub Time : Type 0
Time = ℕ

-- The two units of the rollup tables.
pub data Span : Type 0 where
  hour : Span
  day : Span

abbrev pub nanoseconds : Span → ℕ
nanoseconds hour = 3600000000000
nanoseconds day = 86400000000000

abbrev pub microsecond : ℕ
microsecond = 1000

pub record TimeRange : Type 0 where
  pub start : Time
  pub stop : Time

-- Truncate(time.Hour), and the midnight of the day.
abbrev pub truncated : Span → Time → Time
truncated u t = t - t % nanoseconds u

-- firstFullHour, firstFullDay
unfoldable pub first_full : Span → Time → Time
first_full u start =
    if ltb (truncated u start) start then truncated u start + nanoseconds u else truncated u start

-- lastFullHour, lastFullDay
unfoldable pub last_full : Span → Time → Time
last_full u end =
    if ltb (end + microsecond) (truncated u end + nanoseconds u)
    then truncated u end - nanoseconds u
    else truncated u end

unfoldable pub left_range : Time → Time → List TimeRange
left_range start first =
    if ltb start first then record { start = start; stop = first - microsecond } ∷ [] else []

unfoldable pub right_range : Time → Time → List TimeRange
right_range right end = if leb right end then record { start = right; stop = end } ∷ [] else []

-- splitHourlyRollupRanges and splitDailyRollupRanges, which differ in the unit.
unfoldable pub split_ranges : Span → Time → Time → Option TimeRange × List TimeRange
split_ranges u start end =
    if ltb end start
    then (none, [])
    else if ltb (last_full u end) (first_full u start)
    then (none, record { start = start; stop = end } ∷ [])
    else (
      some (record { start = first_full u start; stop = last_full u end }),
      left_range start (first_full u start) ++ right_range (last_full u end + nanoseconds u) end,
    )

unfoldable pub rollup_source_for_precision : Bool → Text → Text → Text
rollup_source_for_precision enabled timezone precision =
    if not enabled || not (text_eq timezone (codes "UTC"))
    then []
    else if any (text_eq precision) (
        codes "day"
        ∷ codes "week"
        ∷ codes "month"
        ∷ codes "year"
        ∷ codes "decade"
        ∷ codes "century"
        ∷ codes "millennia"
        ∷ [])
    then codes "daily"
    else if text_eq precision (codes "hour")
    then codes "hourly"
    else []

unfoldable pub split_rollup_ranges : Time → Time → Text → Option TimeRange × List TimeRange
split_rollup_ranges start end source =
    if text_eq source (codes "daily")
    then split_ranges day start end
    else if text_eq source (codes "hourly")
    then split_ranges hour start end
    else (none, record { start = start; stop = end } ∷ [])
