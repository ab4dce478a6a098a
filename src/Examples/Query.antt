-- ===== src/Examples/Query.antt =====
-- A query over two series with limits.
use self_host.Prelude.{ℕ, ◌≡◌, refl, false, List, [], ◌∷◌, ok, length}
use self_host.Timeseries.Query.{
  Limits, LimitedRow, Mapping, exceeds, validate_multi_series_limits, with_row, ts_row, append_rows,
  append_raw_multi_source_limited_rows,
}
use self_host.Timeseries.Query.Bounded.{rows_of, IsWithin, limited_rows-bounded}

abbrev limits : Limits
limits = record { max_points_per_series = 2; max_total_points = 3 }

abbrev row : ℕ → ℕ → ℕ → ℕ → LimitedRow ℕ
row id v n total = record {
  ts_uuid = id;
  value = v;
  ts = total;
  series_row_num = n;
  total_row_num = total;
}

abbrev rows : List (LimitedRow ℕ)
rows = row 1 20 1 1 ∷ row 2 30 1 2 ∷ row 1 21 2 3 ∷ []

abbrev answer : Mapping ℕ
answer =
    with_row
      (with_row (with_row (λ k. []) 1 (record { v = 20; ts = 1 })) 2 (record { v = 30; ts = 2 })) 1
      (record { v = 21; ts = 3 })

answers : append_raw_multi_source_limited_rows (λ x. x) limits (λ k. []) rows ≡ ok answer
unfolding append_raw_multi_source_limited_rows append_rows validate_multi_series_limits exceeds
    ts_row with_row
answers = refl

limited_rows-bounded_example :
    ((k : ℕ) → answer k ≡ rows_of (λ x. x) limits k rows)
    × IsWithin (λ (x : ℕ). x) limits answer
    × (exceeds 3 (length rows) ≡ false)
limited_rows-bounded_example = limited_rows-bounded (λ x. x) limits rows answer answers
