-- ===== src/Collate.antt =====
-- libklio/algorithm/collate.cpp: the readings of several sensors in one table. A table is its rows, and an
-- access beyond them has no meaning. The conversion of a timestamp to a double and the equality of doubles
-- are parameters.
pub mod Columns
use libklio.Prelude.{
  ℕ, zero, suc, ◌+◌, Bool, true, false, ◌||◌, Option, none, some, List, [], ◌∷◌, length, ltb, leb,
  ◌==◌, nat_eq, if◌then◌else◌,
}
use libklio.Exec.{
  Exec, Result, ok, err, pure, throw, ◌>>=◌, data_format_exception, undefined_behaviour,
}
use libklio.Time.{Timestamp, Double, Readings, zero_double}
use libklio.Sensor.{Sensor}
use libklio.Store.{Store, Backend}
use libklio.Store.Access.{get_num_readings, get_all_readings}
use libklio.Octave.{get, set, empty_row}

-- sensordata_array_t and sensordata_table_t
abbrev pub SensordataArray : Type 0
SensordataArray = List (List Double)

pub record SensordataTable : Type 0 where
  pub array : SensordataArray
  pub num_rows : ℕ
  pub num_columns : ℕ

abbrev pub extents : ℕ → ℕ → SensordataArray
extents zero width = []
extents (suc height) width = empty_row width ∷ extents height width

abbrev pub and_then : {A B : Type 0} → Result A → (A → Result B) → Result B
and_then (err e) next = err e
and_then (ok a) next = next a

abbrev cell : Option Double → Result Double
cell none = err undefined_behaviour
cell (some v) = ok v

-- data[row][column]
unfoldable pub read_cell : ℕ → ℕ → SensordataArray → Result Double
unfolding get
read_cell row column [] = err undefined_behaviour
read_cell zero column (cells ∷ rest) = cell (get column cells)
read_cell (suc row) column (cells ∷ rest) = read_cell row column rest

abbrev pub below : List Double → Result SensordataArray → Result SensordataArray
below cells (ok rest) = ok (cells ∷ rest)
below cells (err e) = err e

-- data[row][column] = v
unfoldable pub write_cell : ℕ → ℕ → Double → SensordataArray → Result SensordataArray
unfolding get set
write_cell row column v [] = err undefined_behaviour
write_cell zero column v (cells ∷ rest) = elim (get column cells) [
  | none ↦ err undefined_behaviour
  | some old ↦ ok (set column v cells ∷ rest)
]
write_cell (suc row) column v (cells ∷ rest) = below cells (write_cell row column v rest)

-- The loop over the columns, of which `left` are left.
unfoldable pub read_row : ℕ → ℕ → ℕ → SensordataArray → Result (List Double)
unfolding read_cell
read_row row column zero data_of = ok []
read_row row column (suc left) data_of =
    and_then (read_cell row column data_of)
      λ v. and_then (read_row row (suc column) left data_of) λ values. ok (v ∷ values)

unfoldable pub get_sensordata_row : SensordataTable → ℕ → Result (List Double)
unfolding read_row
get_sensordata_row table row_index =
    if leb row_index table.num_rows
    then read_row row_index 0 table.num_columns table.array
    else err data_format_exception

module _ (to_double : Timestamp → Double) (equal : Double → Double → Bool) where
  abbrev pub checked_write : ℕ → ℕ → Double → SensordataArray → Bool → Result SensordataArray
  checked_write row column v rows true = write_cell row column v rows
  checked_write row column v rows false = err data_format_exception

  -- One turn of the inner loop.
  unfoldable pub place_reading :
      ℕ → ℕ → Timestamp → Double → SensordataArray → Result SensordataArray
  unfolding read_cell write_cell
  place_reading sensor_idx timestamp_idx t v rows =
      if sensor_idx == 1
      then and_then (write_cell timestamp_idx 0 (to_double t) rows)
          (write_cell timestamp_idx sensor_idx v)
      else and_then (read_cell timestamp_idx 0 rows)
          λ time. checked_write timestamp_idx sensor_idx v rows (equal time (to_double t))

  unfoldable pub place_readings : ℕ → ℕ → Readings → SensordataArray → Result SensordataArray
  unfolding place_reading
  place_readings sensor_idx timestamp_idx [] rows = ok rows
  place_readings sensor_idx timestamp_idx ((t, v) ∷ rest) rows =
      and_then (place_reading sensor_idx timestamp_idx t v rows)
        (place_readings sensor_idx (suc timestamp_idx) rest)

  module _ {D : Type 0} (b : Backend D) where
    -- 1. Check if all sensors have the same size.
    unfoldable pub count_readings : Bool → ℕ → List Sensor → Exec (Store D) ℕ
    unfolding get_num_readings
    count_readings first_sensor timestampcount [] = pure timestampcount
    count_readings first_sensor timestampcount (current ∷ rest) = do
      num ← get_num_readings b current
      let others = count_readings false num rest
      if first_sensor || num == timestampcount then others else throw data_format_exception

    unfoldable pub transfer : ℕ → List Sensor → SensordataArray → Exec (Store D) SensordataArray
    unfolding get_all_readings place_readings
    transfer sensor_idx [] retval = pure retval
    transfer sensor_idx (current ∷ rest) retval = do
      readings ← get_all_readings b.records current
      placed ← λ s. (place_readings sensor_idx 0 readings retval, s)
      transfer (suc sensor_idx) rest placed

    -- What is returned is a new table.
    unfoldable pub collate : List Sensor → Exec (Store D) SensordataTable
    unfolding count_readings transfer
    collate sensors = do
      timestampcount ← count_readings true 0 sensors
      retval ← transfer 1 sensors (extents timestampcount (1 + length sensors))
      pure (record { array = []; num_rows = 0; num_columns = 0 })
