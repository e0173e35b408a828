-- ===== src/Octave.antt =====
-- libklio/octave-exporter.cpp: one row of minutes for each day. The machine integers keep their
-- widths: `uint32_t` for a number of seconds, `int32_t` for the start of the next day, `size_t` for a
-- position. How a stream writes a double is a parameter.
pub mod Days
pub mod Minutes
use Prim.Native.String.{◌++◌}
use libklio.Prelude.{
  ℕ, zero, suc, ◌+◌, ◌-◌, ◌*◌, ◌/◌, ◌%◌, ◌^◌, Bool, true, false, ◌||◌, not, String, Option, none,
  some, List, [], ◌∷◌, ltb, ◌==◌, nat_eq, if◌then◌else◌,
}
use libklio.Prelude.Int.{ℤ, pos, negsuc, ◌-ℤ◌, leb_ℤ}
use libklio.Exec.{Result, ok, err, undefined_behaviour}
use libklio.Time.{Timestamp, Double, Readings, zero_double}

abbrev pub seconds_per_day : ℕ
seconds_per_day = 86400

abbrev pub minutes_per_day : ℕ
minutes_per_day = 1440

-- The conversions to `uint32_t` and from it to `int32_t`.
unfoldable pub to_uint32 : ℤ → ℕ
to_uint32 (pos n) = n % 2 ^ 32
to_uint32 (negsuc n) = 2 ^ 32 - 1 - n % 2 ^ 32

unfoldable pub to_int32 : ℕ → ℤ
to_int32 n = if ltb n (2 ^ 31) then pos n else negsuc (2 ^ 32 - 1 - n)

unfoldable pub calc_next_day_timestamp : ℕ → ℕ
calc_next_day_timestamp ts = (ts + seconds_per_day - ts % seconds_per_day) % 2 ^ 32

unfoldable pub next_day : Timestamp → ℤ
unfolding to_uint32 to_int32 calc_next_day_timestamp
next_day ts = to_int32 (calc_next_day_timestamp (to_uint32 ts))

-- A quotient that C++ rounds towards zero, as a `size_t`.
unfoldable pub minutes : ℤ → ℕ
minutes (pos n) = n / 60
minutes (negsuc n) = (2 ^ 64 - suc n / 60) % 2 ^ 64

-- (ts - (next_day_timestamp - SECONDS_PER_DAY)) / 60
unfoldable pub position_of : Timestamp → ℤ → ℕ
unfolding to_uint32 minutes ◌-ℤ◌
position_of ts next = minutes (ts -ℤ pos ((to_uint32 next + (2 ^ 32 - seconds_per_day)) % 2 ^ 32))

-- `v != 0`: both zeros are equal to 0.
abbrev pub is_not_zero : Double → Bool
is_not_zero v = not (v == zero_double || v == 2 ^ 63)

-- current_day[i] and current_day[i] = v: `none` is an index beyond the end.
unfoldable pub get : ℕ → List Double → Option Double
get n [] = none
get zero (v ∷ day) = some v
get (suc n) (v ∷ day) = get n day

unfoldable pub set : ℕ → Double → List Double → List Double
set n v [] = []
set zero v (old ∷ day) = v ∷ day
set (suc n) v (old ∷ day) = old ∷ set n v day

abbrev pub set_checked : ℕ → Double → List Double → Option Double → Result (List Double)
set_checked n v day none = err undefined_behaviour
set_checked n v day (some old) = ok (set n v day)

abbrev pub place_at : ℕ → Double → List Double → Option Double → Result (List Double)
place_at position v day none = err undefined_behaviour
place_at position v day (some old) =
    if is_not_zero old
    then if ltb position minutes_per_day
      then set_checked (position + 1) v day (get (position + 1) day)
      else ok day
    else ok (set position v day)

unfoldable pub place : ℕ → Double → List Double → Result (List Double)
unfolding get set
place position v day = place_at position v day (get position day)

abbrev pub empty_row : ℕ → List Double
empty_row zero = []
empty_row (suc n) = zero_double ∷ empty_row n

module _ (show : Double → String) where
  unfoldable pub row : String → List Double → String
  row ending [] = ""
  row ending (v ∷ []) = show v ++ ending
  row ending (v ∷ w ∷ rest) = show v ++ (", " ++ row ending (w ∷ rest))

  -- The variables of the loop, with what was written.
  pub record Day : Type 0 where
    pub next_day_timestamp : ℤ
    pub current_day : List Double
    pub out : String

  unfoldable pub start_day : Timestamp → Day → Day
  unfolding row next_day
  start_day ts day =
      if leb_ℤ day.next_day_timestamp ts
      then record {
        next_day_timestamp = next_day (ts -ℤ negsuc 0);
        current_day = empty_row minutes_per_day;
        out = day.out ++ row "; ...\n\t" day.current_day;
      }
      else day

  abbrev pub with_row : Day → Result (List Double) → Result Day
  with_row day (ok current) = ok (record day { current_day = current })
  with_row day (err e) = err e

  unfoldable pub write_readings : Readings → Day → Result Day
  unfolding start_day place position_of
  write_readings [] day = ok day
  write_readings ((ts, v) ∷ rest) day =
      let started = start_day ts day in
      elim (with_row started
        (place (position_of ts started.next_day_timestamp) v started.current_day)) [
          | err e ↦ err e
          | ok day' ↦ write_readings rest day'
        ]

  abbrev finished : Result Day → Result String
  finished (err e) = err e
  finished (ok day) = ok (day.out ++ (row " ...\n" day.current_day ++ "  ];\nend\n"))

  -- `*begin()` of no readings has no meaning.
  unfoldable pub write_values_function : String → Readings → Result String
  unfolding write_readings next_day row
  write_values_function name [] = err undefined_behaviour
  write_values_function name ((ts, v) ∷ rest) = finished (
      write_readings ((ts, v) ∷ rest) (record {
        next_day_timestamp = next_day ts;
        current_day = empty_row minutes_per_day;
        out = "function values = get_" ++ (name ++ "_values()\n  values = [ ...\n\t");
      }))

unfoldable pub write_lead_in : String → String → String
write_lead_in name description =
    "% script file containing sensor data of sensor "
    ++ (name ++ (", " ++ (description ++ "\n1;\n")))

unfoldable pub write_description_function : String → String → String
write_description_function description name =
    "function desc = get_"
    ++ (name ++ ("_description()\n  desc = '" ++ (description ++ "';\nend\n")))

-- `clean` is what the calls of Boost make of a name; it is passed as the description.
unfoldable pub process :
    (Double → String) → (String → String) → Readings → String → String → Result String
unfolding write_lead_in write_description_function write_values_function
process show clean readings name description =
    elim (write_values_function show (clean name) readings) [
      | err e ↦ err e
      | ok values ↦ ok (
          write_lead_in name description
          ++ (write_description_function (clean name) description ++ values))
    ]
