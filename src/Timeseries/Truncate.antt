-- ===== src/Timeseries/Truncate.antt =====
-- truncateTime, truncateByMinuteStep and truncateWeek of internal/services/timeseries.go, for one time.Location. The civil
-- fields of an instant, time.Date and AddDate are those of package time, a parameter.
pub mod Coarse
use self_host.Prelude.{
  ℕ, ◌+◌, ◌-◌, ◌*◌, ◌/◌, ◌%◌, Bool, true, false, Option, none, some, List, [], ◌∷◌, ◌==◌,
  if◌then◌else◌, Result, ok, err,
}
use self_host.Text.{Text, codes, text_eq}
use self_host.Timeseries.Rollups.{Time, microsecond}

pub record Calendar : Type 0 where
  pub year : Time → ℕ
  -- 1 is January.
  pub month : Time → ℕ
  pub day : Time → ℕ
  pub hour : Time → ℕ
  pub minute : Time → ℕ
  -- 0 is Sunday.
  pub weekday : Time → ℕ
  -- time.Date of a year, month, day, hour and minute
  pub date : ℕ → ℕ → ℕ → ℕ → ℕ → Time
  -- AddDate(0, 0, -days)
  pub days_before : ℕ → Time → Time

pub data Precision : Type 0 where
  microseconds milliseconds second minute minute5 minute10 minute15 minute20 minute30 : Precision
  hour day week month year decade century millennia : Precision

-- The cases of the switch.
abbrev pub precisions : List (Text × Precision)
precisions =
    (codes "microseconds", microseconds)
    ∷ (codes "milliseconds", milliseconds)
    ∷ (codes "second", second)
    ∷ (codes "minute", minute)
    ∷ (codes "minute5", minute5)
    ∷ (codes "minute10", minute10)
    ∷ (codes "minute15", minute15)
    ∷ (codes "minute20", minute20)
    ∷ (codes "minute30", minute30)
    ∷ (codes "hour", hour)
    ∷ (codes "day", day)
    ∷ (codes "week", week)
    ∷ (codes "month", month)
    ∷ (codes "year", year)
    ∷ (codes "decade", decade)
    ∷ (codes "century", century)
    ∷ (codes "millennia", millennia)
    ∷ []

unfoldable pub find_precision : List (Text × Precision) → Text → Option Precision
find_precision [] text = none
find_precision ((name, p) ∷ ps) text =
    let rest = find_precision ps text in if text_eq text name then some p else rest

-- Truncate of a duration, which counts from the zero time.
abbrev pub floor_to : ℕ → Time → Time
floor_to d t = t - t % d

module _ (cal : Calendar) where
  unfoldable pub truncate_by_minute_step : Time → ℕ → Time
  truncate_by_minute_step ts step =
      cal.date (cal.year ts) (cal.month ts) (cal.day ts) (cal.hour ts) (cal.minute ts / step * step)

  unfoldable pub midnight : Time → Time
  midnight ts = cal.date (cal.year ts) (cal.month ts) (cal.day ts) 0 0

  unfoldable pub truncate_week : Time → Time
  unfolding midnight
  truncate_week ts =
      let weekday = (if cal.weekday ts == 0 then 7 else cal.weekday ts) in
      midnight (cal.days_before (weekday - 1) ts)

  unfoldable pub truncated_by : Precision → Time → Time
  unfolding truncate_by_minute_step truncate_week midnight
  truncated_by microseconds ts = floor_to microsecond ts
  truncated_by milliseconds ts = floor_to 1000000 ts
  truncated_by second ts = floor_to 1000000000 ts
  truncated_by minute ts = floor_to 60000000000 ts
  truncated_by minute5 ts = truncate_by_minute_step ts 5
  truncated_by minute10 ts = truncate_by_minute_step ts 10
  truncated_by minute15 ts = truncate_by_minute_step ts 15
  truncated_by minute20 ts = truncate_by_minute_step ts 20
  truncated_by minute30 ts = truncate_by_minute_step ts 30
  truncated_by hour ts = floor_to 3600000000000 ts
  truncated_by day ts = midnight ts
  truncated_by week ts = truncate_week ts
  truncated_by month ts = cal.date (cal.year ts) (cal.month ts) 1 0 0
  truncated_by year ts = cal.date (cal.year ts) 1 1 0 0
  truncated_by decade ts = cal.date (cal.year ts / 10 * 10) 1 1 0 0
  truncated_by century ts = cal.date ((cal.year ts - 1) / 100 * 100 + 1) 1 1 0 0
  truncated_by millennia ts = cal.date ((cal.year ts - 1) / 1000 * 1000 + 1) 1 1 0 0

  unfoldable pub or_unsupported : {E : Type 0} → E → Option Precision → Time → Result E Time
  or_unsupported e (some p) ts = ok (truncated_by p ts)
  or_unsupported e none ts = err e

  -- `unsupported` is the error for the text of no precision.
  unfoldable pub truncate_time : {E : Type 0} → E → Text → Time → Result E Time
  unfolding or_unsupported
  truncate_time unsupported precision ts =
      or_unsupported unsupported (find_precision precisions precision) ts
