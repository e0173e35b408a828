-- ===== src/Tests/Export.antt =====
-- Instances for Octave.
use Prim.Native.String.{◌++◌}
use libklio.Prelude.{
  ◌≡◌, ◌≤◌, ◌<◌, ◌%◌, ◌/◌, ℕ, refl, if◌then◌else◌, ◌==◌, nat_eq, List, [], ◌∷◌, some, arith, length,
}
use libklio.Prelude.Int.{pos}
use libklio.Exec.{ok}
use libklio.Time.{Double}
use libklio.Octave.{
  calc_next_day_timestamp, position_of, next_day, place, get, empty_row, minutes_per_day, Day,
  start_day, row,
}
use libklio.Octave.Days.{calc_next_day_timestamp_lem, position_of-next_day, position_of-start_day}
use libklio.Octave.Minutes.{place_lem, taken}

-- The last second of a day
abbrev second : ℕ
second = 86399

calc_next_day_timestamp_example :
    (90000 < calc_next_day_timestamp 90000)
    × (calc_next_day_timestamp 90000 ≤ 176400)
    × (calc_next_day_timestamp 90000 % 86400 ≡ 0)
calc_next_day_timestamp_example = calc_next_day_timestamp_lem 90000 (omega arith)

position_of-next_day_example : position_of (pos 90000) (next_day (pos 90000)) ≡ 3600 / 60
position_of-next_day_example = position_of-next_day 1 3600 (omega arith) (omega arith)

abbrev ended : Day (λ v. "0")
ended = record { next_day_timestamp = pos 86400; current_day = 1 ∷ 2 ∷ []; out = "" }

-- The last second of 1970-01-02, after the row of the day before
position_of-start_day_example :
    (let begun = start_day (λ v. "0") (pos 172799) ended in
      (position_of (pos 172799) begun.next_day_timestamp
        ≡ (if second == 86399 then 0 else second / 60))
      × (begun.current_day ≡ empty_row minutes_per_day)
      × (begun.out ≡ "" ++ row (λ v. "0") "; ...\n\t" (1 ∷ 2 ∷ [])))
position_of-start_day_example =
    position_of-start_day (λ v. "0") 1 second ended (omega arith) (omega arith) refl

place_lem_example :
    (day' : List Double) × (place 60 7 (empty_row minutes_per_day) ≡ ok day')
    × (length day' ≡ minutes_per_day)
    × ((j : ℕ)
        → get j day' ≡ (
            if taken 60 (get 60 (empty_row minutes_per_day)) == j
            then some 7
            else get j (empty_row minutes_per_day)))
place_lem_example = place_lem 60 7 (empty_row minutes_per_day) refl (omega arith)
