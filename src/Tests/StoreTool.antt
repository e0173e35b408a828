-- ===== src/Tests/StoreTool.antt =====
-- The metrics of three readings, and of a sensor with one interval.
use libklio.Prelude.{◌≡◌, refl, some, [], ◌∷◌, ltb, ◌+◌}
use libklio.Prelude.Int.{pos, ◌-ℤ◌}
use libklio.Time.{Double, Readings}
use libklio.Octave.{to_uint32}
use libklio.StoreTool.{
  Metrics, initial, measure, measure_timestamp, add_interval, mean_interval, interval_columns,
}
use libklio.StoreTool.Intervals.{measure-Spaced, IsSpan}

abbrev sum_of : Double → Double → Double
sum_of a b = a + b

abbrev gaps : Readings
gaps = (pos 160, 5) ∷ (pos 400, 9) ∷ []

abbrev metrics : Metrics
metrics = measure ltb sum_of ((pos 100, 7) ∷ gaps) initial

intervals_test : metrics.all_intervals ≡ 60 ∷ 240 ∷ []
unfolding measure measure_timestamp add_interval to_uint32 ◌-ℤ◌
intervals_test = refl

mean_test : mean_interval metrics.all_intervals ≡ 240
unfolding measure measure_timestamp add_interval to_uint32 ◌-ℤ◌ mean_interval
mean_test = refl

columns_test : interval_columns metrics ≡ some (60, 240)
unfolding measure measure_timestamp add_interval to_uint32 ◌-ℤ◌ interval_columns
columns_test = refl

-- Two readings have one interval, of which the middle is not asked for.
one_interval_test : mean_interval (60 ∷ []) ≡ 0
unfolding mean_interval
one_interval_test = refl

measure-Spaced_example : (metrics.last_timestamp ≡ pos 400) × IsSpan (pos 100) metrics
unfolding ◌-ℤ◌
measure-Spaced_example =
    measure-Spaced ltb sum_of (pos 100) 7 gaps refl (refl, refl, (refl, refl, tt))
