-- ===== src/Timeseries/Query.antt =====
-- The limits of a query and the rows of a raw query over several series, in internal/services/timeseries.go: inValidRange,
-- validateSingleSeriesPointLimit, validateMultiSeriesLimits and appendRawMultiSourceLimitedRows. A limit of 0 is none; the
-- float64 values are a parameter.
pub mod Bounded
use self_host.Prelude.{
  ℕ, ◌+◌, Bool, true, false, ◌&&◌, ◌||◌, Option, none, some, List, [], ◌∷◌, ◌++◌, ltb, ◌==◌,
  if◌then◌else◌, length, Result, ok, err, Checked, ◌>>=◌, ◌>>◌, fail_if,
}
use self_host.Policy.Rule.{Uuid}
use self_host.Timeseries.Rollups.{Time}

-- inValidRange, over `<=` on float32
unfoldable pub in_valid_range : {F : Type 0} → (F → F → Bool) → F → Option F → Option F → Bool
in_valid_range le v (some le_limit) (some ge_limit) =
    if le ge_limit le_limit then le ge_limit v && le v le_limit else le ge_limit v || le v le_limit
in_valid_range le v (some le_limit) none = le v le_limit
in_valid_range le v none (some ge_limit) = le ge_limit v
in_valid_range le v none none = true

pub data LimitError : Type 0 where
  too_many_points : LimitError
  too_many_series_points : LimitError
  too_many_total_points : LimitError

pub record Limits : Type 0 where
  pub max_points_per_series : ℕ
  pub max_total_points : ℕ

-- `limit > 0 && points > limit`
unfoldable pub exceeds : ℕ → ℕ → Bool
exceeds limit points = ltb 0 limit && ltb limit points

unfoldable pub validate_single_series_point_limit : ℕ → ℕ → Checked LimitError
validate_single_series_point_limit points max_points =
    fail_if (exceeds max_points points) too_many_points

unfoldable pub validate_multi_series_limits : ℕ → ℕ → Limits → Checked LimitError
validate_multi_series_limits series_points total_points p =
    fail_if (exceeds p.max_points_per_series series_points) too_many_series_points
    >> fail_if (exceeds p.max_total_points total_points) too_many_total_points

pub record LimitedRow (F : Type 0) : Type 0 where
  pub ts_uuid : Uuid
  pub value : F
  pub ts : Time
  -- The number of the row in its series and in the whole answer, which the query counts.
  pub series_row_num : ℕ
  pub total_row_num : ℕ

pub record TsRow (F : Type 0) : Type 0 where
  pub v : F
  pub ts : Time

-- A Go map of slices: a missing key is the empty slice.
abbrev pub Mapping : Type 0 → Type 0
Mapping F = Uuid → List (TsRow F)

unfoldable pub with_row : {F : Type 0} → Mapping F → Uuid → TsRow F → Mapping F
with_row mapping id row k = if id == k then mapping k ++ row ∷ [] else mapping k

module _ {F G : Type 0} (float32 : F → G) (p : Limits) where
  unfoldable pub ts_row : LimitedRow F → TsRow G
  ts_row item = record { v = float32 item.value; ts = item.ts }

  -- The loop, with the number of rows so far.
  unfoldable pub append_rows : Mapping G → ℕ → List (LimitedRow F) → Result LimitError (Mapping G)
  append_rows mapping total [] = ok mapping
  append_rows mapping total (item ∷ rows) =
      fail_if (exceeds p.max_points_per_series item.series_row_num) too_many_series_points
      >> fail_if (exceeds p.max_total_points item.total_row_num) too_many_total_points
      >> validate_multi_series_limits
          (length (with_row mapping item.ts_uuid (ts_row item) item.ts_uuid)) (total + 1) p
      >> append_rows (with_row mapping item.ts_uuid (ts_row item)) (total + 1) rows

  unfoldable pub append_raw_multi_source_limited_rows :
      Mapping G → List (LimitedRow F) → Result LimitError (Mapping G)
  append_raw_multi_source_limited_rows mapping rows = append_rows mapping 0 rows
