-- ===== src/Examples/Timeseries.antt =====
-- The time series service over small numbers.
use self_host.Prelude.{ℕ, ◌*◌, ◌≡◌, refl, Bool, some, List, [], ◌∷◌, ◌++◌, ok, ltb, length, arith}
use self_host.Text.{codes, text_eq}
use self_host.Database.{◌>>=◌, continue, query, pure, lift}
use self_host.Database.Refines.{idle}
use self_host.Timeseries.Rollups.{hour, split_ranges}
use self_host.Timeseries.Rollups.Partition.{reads, asked, split_ranges-asked}
use self_host.Timeseries.Points.{
  DataPoint, Values, PointQueries, AddDataToTimeseriesParams, add_data_to_timeseries, read,
  from_database, conversion, find_units, convert_value, filter_points, skip_or_add, below, above,
  batches, insert_batches, insert_timeseries_batch,
}
use self_host.Timeseries.Points.Stored.{InsertLaw, Outcome, add_data_to_timeseries-Outcome}

split_ranges-asked_example :
    reads hour (split_ranges hour 5400000000000 18000000000000) 9000000000000
    ≡ asked 5400000000000 18000000000000 9000000000000
split_ranges-asked_example =
    split_ranges-asked hour 5400000000000 18000000000000 9000000000000 (omega arith) (omega arith)

abbrev point : ℕ → ℕ → DataPoint ℕ
point v t = record { value = v; timestamp = t }

-- Units are factors.
abbrev factors : Values ℕ ℕ
factors = record {
  less = ltb;
  find_unit = λ name. some (length name);
  convert = λ x from to. some (x * from);
}

abbrev Rows : Type 0
Rows = List (DataPoint ℕ)

abbrev queries : PointQueries ℕ Rows Bool
queries = record {
  get_timeseries_by_uuid = λ s uuid. ok (record { lower_bound = some 10; upper_bound = some 90 });
  get_unit_from_timeseries = λ s uuid. ok (codes "m");
  insert_points = λ uuid created_by points s. ok (length points, s ++ points);
}

law : InsertLaw queries (λ s. s)
law = record { appends = λ uuid created_by points s s' n h. ground (arith, h) }

abbrev request : AddDataToTimeseriesParams ℕ
request = record {
  uuid = 1;
  points = point 4 100 ∷ point 6 200 ∷ point 50 300 ∷ point 30 400 ∷ [];
  created_by = 2;
  unit = some (codes "km");
}

adds : (add_data_to_timeseries factors queries request (idle [])).0 ≡ ok 2
unfolding add_data_to_timeseries ◌>>=◌ continue query pure lift read from_database conversion
    find_units convert_value filter_points skip_or_add below above batches insert_batches
    insert_timeseries_batch text_eq
adds = refl

add_data_to_timeseries-Outcome_example :
    Outcome factors queries
      (λ s. s)
      request
      (idle [])
      (add_data_to_timeseries factors queries request (idle [])).1
      2
add_data_to_timeseries-Outcome_example =
    add_data_to_timeseries-Outcome factors queries (λ s. s) law request (idle []) 2 adds
