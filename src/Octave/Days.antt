-- ===== src/Octave/Days.antt =====
-- The start of the next day.
use libklio.Prelude.{
  ℕ, ◌≡◌, ◌≤◌, ◌<◌, ◌+◌, ◌*◌, ◌/◌, ◌%◌, ◌^◌, ◌==◌, nat_eq, arith, if◌then◌else◌, Bool-cases, inl,
  inr, ==_iff, sym, subst, true, String, refl,
}
use libklio.Prelude.Int.{pos, negsuc, ◌-ℤ◌, leb_ℤ}
use Prim.Native.String.{◌++◌}
use libklio.Time.{Double}
use libklio.Octave.{
  calc_next_day_timestamp, next_day, position_of, Day, start_day, row, empty_row, minutes_per_day,
}

-- The next day starts within a day after the timestamp, at a whole number of days, unless the sum
-- leaves 32 bits.
pub calc_next_day_timestamp_lem :
    (ts : ℕ)
    → ts + 86400 < 2 ^ 32
    → (ts < calc_next_day_timestamp ts)
      × (calc_next_day_timestamp ts ≤ ts + 86400)
      × (calc_next_day_timestamp ts % 86400 ≡ 0)
unfolding calc_next_day_timestamp
calc_next_day_timestamp_lem ts h = (omega arith, omega arith, omega arith)

next_day_of :
    (day r : ℕ)
    → r < 86400
    → day * 86400 + 86400 < 2 ^ 31
    → next_day (pos (day * 86400 + r)) ≡ pos (day * 86400 + 86400)
unfolding next_day
next_day_of day r h k = ground arith

position_of_day :
    (day r : ℕ)
    → r < 86400
    → day * 86400 + 86400 < 2 ^ 31
    → position_of (pos (day * 86400 + r)) (pos (day * 86400 + 86400)) ≡ r / 60
unfolding position_of
position_of_day day r h k = ground arith

-- A reading of a day that is before 2^31 stands at its minute of the day, in a row that was begun
-- for this day.
pub position_of-next_day :
    (day r : ℕ)
    → r < 86400
    → day * 86400 + 86400 < 2 ^ 31
    → position_of (pos (day * 86400 + r)) (next_day (pos (day * 86400 + r))) ≡ r / 60
position_of-next_day day r h k = rw (next_day_of day r h k) (position_of_day day r h k)

minute_zero :
    (day : ℕ)
    → day * 86400 + 172800 < 2 ^ 31
    → position_of (pos (day * 86400 + 86399)) (pos (day * 86400 + 172800)) ≡ 0
unfolding position_of
minute_zero day k = ground arith

next_day-last :
    (day : ℕ)
    → day * 86400 + 172800 < 2 ^ 31
    → next_day (pos (day * 86400 + 86399) -ℤ negsuc 0) ≡ pos (day * 86400 + 172800)
unfolding next_day ◌-ℤ◌
next_day-last day k = ground arith

next_day-earlier :
    (day r : ℕ)
    → r < 86399
    → day * 86400 + 172800 < 2 ^ 31
    → next_day (pos (day * 86400 + r) -ℤ negsuc 0) ≡ pos (day * 86400 + 86400)
unfolding next_day ◌-ℤ◌
next_day-earlier day r h k = ground arith

position_in_row :
    (day r : ℕ)
    → r < 86400
    → day * 86400 + 172800 < 2 ^ 31
    → position_of (pos (day * 86400 + r)) (next_day (pos (day * 86400 + r) -ℤ negsuc 0))
      ≡ (if r == 86399 then 0 else r / 60)
position_in_row day r h k = elim (Bool-cases (r == 86399)) [
  | inl last ↦
      let same : 86399 ≡ r = sym ((==_iff r 86399).0 last) in
      subst
        (λ q.
          position_of (pos (day * 86400 + q)) (next_day (pos (day * 86400 + q) -ℤ negsuc 0))
          ≡ (if q == 86399 then 0 else q / 60))
        same (rw (next_day-last day k) (minute_zero day k))
  | inr earlier ↦
      rw (earlier, next_day-earlier day r (ground arith) k) (position_of_day day r h (omega arith))
]

module _ (show : Double → String) where
  -- A reading at or after the end of the current row begins a new row, of which every minute is 0 and
  -- into which the old row is written. At `r` seconds of its day it stands at its minute of the day, but
  -- a reading of the last second of a day stands at minute 0 of the next day's row.
  pub position_of-start_day :
      (day r : ℕ) (row_before : Day show)
      → r < 86400
      → day * 86400 + 172800 < 2 ^ 31
      → leb_ℤ row_before.next_day_timestamp (pos (day * 86400 + r)) ≡ true
      → (let begun = start_day show (pos (day * 86400 + r)) row_before in
          (position_of (pos (day * 86400 + r)) begun.next_day_timestamp
            ≡ (if r == 86399 then 0 else r / 60))
          × (begun.current_day ≡ empty_row minutes_per_day)
          × (begun.out ≡ row_before.out ++ row show "; ...\n\t" row_before.current_day))
  unfolding start_day
  position_of-start_day day r row_before h k over =
      (rw over (position_in_row day r h k), rw over refl, rw over refl)
