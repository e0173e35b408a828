-- ===== src/Collate/Columns.antt =====
-- What the loops of libklio/algorithm/collate.cpp make of the rows.
use libklio.Prelude.{◌≡◌, refl, ℕ, suc, Bool, List, [], ◌∷◌, length, map, nat_eq}
use libklio.Exec.{Result, ok, err}
use libklio.Time.{Timestamp, Double, Readings}
use libklio.Octave.{get, set, empty_row}
use libklio.Collate.{
  SensordataArray, extents, write_cell, place_reading, place_readings, below, and_then,
}

-- What a step makes of a row in front of the others, it leaves as it is.
below-and_then :
    (cells : List Double) (r : Result SensordataArray)
    (f g : SensordataArray → Result SensordataArray)
    → ((rows : SensordataArray) → g (cells ∷ rows) ≡ below cells (f rows))
    → and_then (below cells r) g ≡ below cells (and_then r f)
below-and_then cells (ok rows) f g h = h rows
below-and_then cells (err e) f g h = refl

write_cell-below :
    (cells : List Double) (row column : ℕ) (v : Double) (rows : SensordataArray)
    → write_cell (suc row) column v (cells ∷ rows) ≡ below cells (write_cell row column v rows)
unfolding write_cell
write_cell-below cells row column v rows = refl

module _ (to_double : Timestamp → Double) (equal : Double → Double → Bool) where
  abbrev pub row_of : ℕ → Timestamp × Double → List Double
  row_of width (t, v) = to_double t ∷ v ∷ empty_row width

  place_reading-below :
      (cells : List Double) (i : ℕ) (t : Timestamp) (v : Double) (rows : SensordataArray)
      → place_reading to_double equal 1 (suc i) t v (cells ∷ rows)
        ≡ below cells (place_reading to_double equal 1 i t v rows)
  unfolding place_reading write_cell
  place_reading-below cells i t v rows =
      below-and_then cells (write_cell i 0 (to_double t) rows) (write_cell i 1 v)
        (write_cell (suc i) 1 v) (write_cell-below cells i 1 v)

  place_readings-below :
      (cells : List Double) (i : ℕ) (readings : Readings) (rows : SensordataArray)
      → place_readings to_double equal 1 (suc i) readings (cells ∷ rows)
        ≡ below cells (place_readings to_double equal 1 i readings rows)
  unfolding place_readings
  place_readings-below cells i [] rows = refl
  place_readings-below cells i ((t, v) ∷ rest) rows = rw (place_reading-below cells i t v rows) (
      below-and_then cells (place_reading to_double equal 1 i t v rows)
        (place_readings to_double equal 1 (suc i) rest)
        (place_readings to_double equal 1 (suc (suc i)) rest)
        (place_readings-below cells (suc i) rest))

  -- The readings of the first sensor, put into an empty table of their number of rows, fill its first
  -- two columns with their timestamps and values, in their order, and leave the others at 0.
  pub place_readings-extents :
      (readings : Readings) (width : ℕ)
      → place_readings to_double equal 1 0 readings (extents (length readings) (suc (suc width)))
        ≡ ok (map (row_of width) readings)
  unfolding place_readings place_reading write_cell get set
  place_readings-extents [] width = refl
  place_readings-extents ((t, v) ∷ rest) width =
      rw
        (
          place_readings-below (row_of width (t, v)) 0 rest
              (extents (length rest) (suc (suc width))),
          place_readings-extents rest width,
        )
        refl
