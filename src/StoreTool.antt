-- ===== src/StoreTool.antt =====
-- src/klio-store.cpp: what the action `check` computes for each sensor. An interval is a `uint32_t` and
-- the count of readings a `uint64_t`. The order and the sum of doubles are parameters.
pub mod Intervals
use libklio.Prelude.{
  ℕ, zero, suc, ◌+◌, ◌-◌, ◌*◌, ◌/◌, ◌%◌, ◌^◌, Bool, true, false, ◌||◌, Option, none, some, String,
  List, [], ◌∷◌, ◌++◌, length, ltb, leb, ◌==◌, nat_eq, if◌then◌else◌,
}
use libklio.Prelude.Int.{ℤ, pos, negsuc, int_eq, ltb_ℤ, ◌-ℤ◌}
use libklio.Time.{Timestamp, Double, Readings, Reading, zero_double}
use libklio.Octave.{to_uint32}

-- std::numeric_limits<uint32_t>::max(), and the bits of the greatest double and of the least one above 0,
-- which is std::numeric_limits<double>::min().
abbrev pub greatest_interval : ℕ
greatest_interval = 2 ^ 32 - 1

abbrev greatest_double : Double
greatest_double = 2047 * 2 ^ 52 - 1

abbrev least_double : Double
least_double = 2 ^ 52

-- The variables of the loop over the readings.
pub record Metrics : Type 0 where
  pub num_readings : ℕ
  pub first_timestamp : Timestamp
  pub last_timestamp : Timestamp
  pub min_timestamp_interval : ℕ
  pub max_timestamp_interval : ℕ
  pub min_value : Double
  pub max_value : Double
  pub aggregated_value : Double
  pub all_intervals : List ℕ

abbrev pub initial : Metrics
initial = record {
  num_readings = 0;
  first_timestamp = pos 0;
  last_timestamp = pos 0;
  min_timestamp_interval = greatest_interval;
  max_timestamp_interval = 0;
  min_value = greatest_double;
  max_value = least_double;
  aggregated_value = zero_double;
  all_intervals = [];
}

-- The branches on `last_timestamp == 0`.
abbrev pub start_at : Timestamp → Metrics → Metrics
start_at ts1 m = record m { first_timestamp = ts1; last_timestamp = ts1 }

unfoldable pub add_interval : ℕ → Metrics → Metrics
add_interval interval m = record m {
  all_intervals = m.all_intervals ++ interval ∷ [];
  min_timestamp_interval =
      if ltb interval m.min_timestamp_interval then interval else m.min_timestamp_interval;
  max_timestamp_interval =
      if ltb m.max_timestamp_interval interval then interval else m.max_timestamp_interval;
}

unfoldable pub measure_timestamp : Timestamp → Metrics → Metrics
unfolding add_interval to_uint32 ◌-ℤ◌
measure_timestamp ts1 m =
    if m.last_timestamp == pos 0
    then start_at ts1 m
    else record (add_interval (to_uint32 (ts1 -ℤ m.last_timestamp)) m) { last_timestamp = ts1 }

module _ (less : Double → Double → Bool) (add : Double → Double → Double) where
  abbrev pub measure_value : Double → Metrics → Metrics
  measure_value val1 m = record m {
    num_readings = (m.num_readings + 1) % 2 ^ 64;
    min_value = if less val1 m.min_value then val1 else m.min_value;
    max_value = if less m.max_value val1 then val1 else m.max_value;
    aggregated_value = add m.aggregated_value val1;
  }

  -- The loop over the readings.
  unfoldable pub measure : Readings → Metrics → Metrics
  unfolding measure_timestamp
  measure [] m = m
  measure ((ts1, val1) ∷ rest) m = measure rest (measure_timestamp ts1 (measure_value val1 m))

-- std::nth_element: what stands at a place of the sorted intervals.
abbrev insert_sorted : ℕ → List ℕ → List ℕ
insert_sorted n [] = n ∷ []
insert_sorted n (k ∷ rest) =
    let later = insert_sorted n rest in if leb n k then n ∷ k ∷ rest else k ∷ later

abbrev sorted : List ℕ → List ℕ
sorted [] = []
sorted (n ∷ rest) = insert_sorted n (sorted rest)

abbrev element_at : ℕ → List ℕ → ℕ
element_at n [] = 0
element_at zero (k ∷ rest) = k
element_at (suc n) (k ∷ rest) = element_at n rest

unfoldable pub mean_interval : List ℕ → ℕ
mean_interval all_intervals =
    let middle_element_idx = length all_intervals / 2 in
    if middle_element_idx == 0 then 0 else element_at middle_element_idx (sorted all_intervals)

-- The first pass over the sensors, on their last readings.
unfoldable pub latest : List Reading → Timestamp → Timestamp
latest [] all_sensors_last_timestamp = all_sensors_last_timestamp
latest ((t, v) ∷ rest) all_sensors_last_timestamp =
    latest rest (if ltb_ℤ all_sensors_last_timestamp t then t else all_sensors_last_timestamp)

-- "L" for a sensor without a value in the last hour, "C" for any other.
unfoldable pub status : Timestamp → Metrics → String
unfolding ◌-ℤ◌
status all_sensors_last_timestamp m =
    if ltb_ℤ (m.last_timestamp -ℤ negsuc 3599) all_sensors_last_timestamp then "L" else "C"

-- The columns of the intervals: `none` prints "n/a".
unfoldable pub interval_columns : Metrics → Option (ℕ × ℕ)
interval_columns m =
    if m.min_timestamp_interval == greatest_interval || m.max_timestamp_interval == 0
    then none
    else some (m.min_timestamp_interval, m.max_timestamp_interval)
