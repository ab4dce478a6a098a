-- ===== src/Timeseries/Rollups/Partition.antt =====
-- The rollup range and the raw ranges together hold each point of a query once.
use self_host.Prelude.{
  ℕ, ◌+◌, ◌%◌, ◌≤◌, ◌≡◌, Bool, true, false, ◌&&◌, Option, none, some, List, [], ◌∷◌, leb, arith,
}
use self_host.Timeseries.Rollups.{
  Time, Span, hour, day, nanoseconds, microsecond, TimeRange, truncated, first_full, last_full,
  left_range, right_range, split_ranges,
}

-- Both ends belong to a range.
unfoldable pub in_range : TimeRange → Time → Bool
in_range r t = leb r.start t && leb t r.stop

unfoldable pub one : Bool → ℕ
one true = 1
one false = 0

-- How many of the raw ranges hold the point.
unfoldable pub raw_reads : List TimeRange → Time → ℕ
unfolding one
raw_reads [] t = 0
raw_reads (r ∷ rs) t = one (in_range r t) + raw_reads rs t

-- A point is in the rollup row of its hour or day.
unfoldable pub rollup_reads : Span → Option TimeRange → Time → ℕ
unfolding one
rollup_reads u none t = 0
rollup_reads u (some r) t = one (in_range r (truncated u t))

unfoldable pub reads : Span → Option TimeRange × List TimeRange → Time → ℕ
reads u (rollup, raw) t = rollup_reads u rollup t + raw_reads raw t

-- How often a query for the points from `start` to `end` should read the one at `t`.
unfoldable pub asked : Time → Time → Time → ℕ
unfolding one
asked start end t = one (leb start t && leb t end)

split_hourly-asked :
    (start end t : Time)
    → nanoseconds hour ≤ end
    → t % microsecond ≡ 0
    → reads hour (split_ranges hour start end) t ≡ asked start end t
unfolding reads asked rollup_reads raw_reads in_range split_ranges left_range right_range first_full
    last_full
split_hourly-asked start end t h e = ground arith

split_daily-asked :
    (start end t : Time)
    → nanoseconds day ≤ end
    → t % microsecond ≡ 0
    → reads day (split_ranges day start end) t ≡ asked start end t
unfolding reads asked rollup_reads raw_reads in_range split_ranges left_range right_range first_full
    last_full
split_daily-asked start end t h e = ground arith

-- The rollup rows and the raw ranges of a split by hours or days together read each point in whole microseconds
-- from start to end once, and no other, where the end is not within the first hour or day of time itself.
pub split_ranges-asked :
    (u : Span) (start end t : Time)
    → nanoseconds u ≤ end
    → t % microsecond ≡ 0
    → reads u (split_ranges u start end) t ≡ asked start end t
split_ranges-asked hour = split_hourly-asked
split_ranges-asked day = split_daily-asked
