-- ===== src/Tests/Collate.antt =====
-- A table of two readings, and the rows that are read from it.
use libklio.Prelude.{◌≡◌, refl, Bool, [], ◌∷◌, map, length, ◌==◌, nat_eq}
use libklio.Prelude.Int.{pos, pos_part}
use libklio.Exec.{ok, err, data_format_exception, undefined_behaviour}
use libklio.Time.{Double, Readings}
use libklio.Octave.{get}
use libklio.Collate.{
  SensordataTable, extents, place_readings, place_reading, read_cell, read_row, get_sensordata_row,
}
use libklio.Collate.Columns.{place_readings-extents, row_of}

abbrev equal : Double → Double → Bool
equal a b = a == b

abbrev first : Readings
first = (pos 10, 4) ∷ (pos 20, 5) ∷ []

abbrev table : SensordataTable
table = record { array = (10 ∷ 4 ∷ []) ∷ (20 ∷ 5 ∷ []) ∷ []; num_rows = 2; num_columns = 2 }

row_test : get_sensordata_row table 1 ≡ ok (20 ∷ 5 ∷ [])
unfolding get_sensordata_row read_row read_cell get
row_test = refl

-- The index that is one too high passes the test.
past_the_end_test : get_sensordata_row table 2 ≡ err undefined_behaviour
unfolding get_sensordata_row read_row read_cell get
past_the_end_test = refl

other_times_test :
    place_readings pos_part equal 2 0 ((pos 11, 6) ∷ []) table.array ≡ err data_format_exception
unfolding place_readings place_reading read_cell get
other_times_test = refl

place_readings-extents_example :
    place_readings pos_part equal 1 0 first (extents (length first) 3)
    ≡ ok (map (row_of pos_part equal 1) first)
place_readings-extents_example = place_readings-extents pos_part equal first 1
