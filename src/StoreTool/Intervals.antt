-- ===== src/StoreTool/Intervals.antt =====
-- The intervals that `check` of src/klio-store.cpp collects, against the timestamps of the readings.
use libklio.Prelude.{
  ◌≡◌, refl, sym, ap, subst, ◌∙◌, ℕ, ◌+◌, ◌≤◌, ◌^◌, Bool, true, false, List, [], ◌∷◌, ◌++◌, All,
  All-append, ltb, ◌==◌, nat_eq, arith, if◌then◌else◌,
}
use libklio.Prelude.Int.{pos, int_eq, ltb_ℤ, ◌-ℤ◌}
use libklio.Time.{Timestamp, Double, Readings}
use libklio.Octave.{to_uint32}
use libklio.StoreTool.{
  Metrics, start_at, measure_value, initial, add_interval, measure_timestamp, measure,
}

abbrev pub sum : List ℕ → ℕ
sum [] = 0
sum (n ∷ rest) = n + sum rest

sum-append : (xs : List ℕ) (n : ℕ) → sum (xs ++ n ∷ []) ≡ sum xs + n
sum-append [] n = ground arith
sum-append (x ∷ xs) n = ground (arith, sum-append xs n)

-- Each timestamp is later than the one before, by less than 2^32 seconds.
abbrev pub Spaced : Timestamp → Readings → Type 0
Spaced before [] = Unit
Spaced before ((t, v) ∷ rest) =
    (ltb_ℤ before t ≡ true) × (ltb_ℤ (t -ℤ before) (pos (2 ^ 32)) ≡ true) × Spaced t rest

abbrev pub last_time : Timestamp → Readings → Timestamp
last_time t [] = t
last_time t ((later, v) ∷ rest) = last_time later rest

abbrev pub Within : ℕ → ℕ → ℕ → Type 0
Within low high n = (low ≤ n) × (n ≤ high)

widened :
    (low high low' high' : ℕ) (xs : List ℕ)
    → low' ≤ low
    → high ≤ high'
    → All (Within low high) xs
    → All (Within low' high') xs
widened low high low' high' [] p q h = tt
widened low high low' high' (x ∷ xs) p q h =
    ((ground (arith, h.0), ground (arith, h.0)), widened low high low' high' xs p q h.1)

-- What holds of the variables between two readings, after the first.
pub record IsSpan (t : Timestamp) (m : Metrics) : Type 0 where
  pub starts : m.first_timestamp ≡ t
  pub later : ltb_ℤ (pos 0) m.last_timestamp ≡ true
  pub spans : m.last_timestamp -ℤ t ≡ pos (sum m.all_intervals)
  pub within : All (Within m.min_timestamp_interval m.max_timestamp_interval) m.all_intervals

not_null : (t : Timestamp) → ltb_ℤ (pos 0) t ≡ true → (t == pos 0) ≡ false
not_null t h = ground arith

grown :
    (a b t : Timestamp) (n : ℕ)
    → ltb_ℤ b a ≡ true
    → ltb_ℤ (a -ℤ b) (pos (2 ^ 32)) ≡ true
    → b -ℤ t ≡ pos n
    → a -ℤ t ≡ pos (n + to_uint32 (a -ℤ b))
unfolding ◌-ℤ◌ to_uint32
grown a b t n h g e = ground (arith, e)

-- A later reading keeps this.
measure_timestamp-IsSpan :
    (t a : Timestamp) (m : Metrics)
    → ltb_ℤ m.last_timestamp a ≡ true
    → ltb_ℤ (a -ℤ m.last_timestamp) (pos (2 ^ 32)) ≡ true
    → IsSpan t m
    → IsSpan t (measure_timestamp a m)
unfolding measure_timestamp add_interval
measure_timestamp-IsSpan t a m h g s =
    let i = to_uint32 (a -ℤ m.last_timestamp) in
    let low : ℕ = (if ltb i m.min_timestamp_interval then i else m.min_timestamp_interval) in
    let high : ℕ = (if ltb m.max_timestamp_interval i then i else m.max_timestamp_interval) in
    rw (not_null m.last_timestamp s.later) (record {
      starts = s.starts;
      later = ground (arith, h, s.later);
      spans =
          grown a m.last_timestamp t (sum m.all_intervals) h g s.spans
          ∙ ap pos (sym (sum-append m.all_intervals i));
      within =
          All-append (Within low high) m.all_intervals (i ∷ [])
            (widened m.min_timestamp_interval m.max_timestamp_interval low high m.all_intervals
              (ground arith) (ground arith) s.within)
            ((ground arith, ground arith), tt);
    })

measure_timestamp-last :
    (a : Timestamp) (m : Metrics)
    → ltb_ℤ (pos 0) m.last_timestamp ≡ true
    → (measure_timestamp a m).last_timestamp ≡ a
unfolding measure_timestamp add_interval
measure_timestamp-last a m later = rw (not_null m.last_timestamp later) refl

no_time : (t : Timestamp) → t -ℤ t ≡ pos 0
unfolding ◌-ℤ◌
no_time t = ground arith

module _ (less : Double → Double → Bool) (add : Double → Double → Double) where
  measure-last :
      (t : Timestamp) (rest : Readings) (m : Metrics)
      → Spaced m.last_timestamp rest
      → IsSpan t m
      → IsSpan t (measure less add rest m)
        × ((measure less add rest m).last_timestamp ≡ last_time m.last_timestamp rest)
  unfolding measure
  measure-last t [] m gaps s = (s, refl)
  measure-last t ((a, v) ∷ rest) m (h, g, gaps) s =
      let valued = measure_value less add v m in
      let next = measure_timestamp a valued in
      let last = measure_timestamp-last a valued s.later in
      let (span, end) = measure-last t rest next (subst (λ b. Spaced b rest) (sym last) gaps) (
        measure_timestamp-IsSpan t a valued h g
          (record { starts = s.starts; later = s.later; spans = s.spans; within = s.within })) in
      (span, end ∙ ap (λ b. last_time b rest) last)

  -- For readings after the epoch in the order of their times, with gaps of less than 2^32 seconds, the
  -- first and the last timestamp are those of the first and the last reading, the intervals add up to
  -- the time between them, and each interval lies between the least and the greatest one.
  pub measure-Spaced :
      (t : Timestamp) (v : Double) (rest : Readings)
      → ltb_ℤ (pos 0) t ≡ true
      → Spaced t rest
      → ((measure less add ((t, v) ∷ rest) initial).last_timestamp ≡ last_time t rest)
        × IsSpan t (measure less add ((t, v) ∷ rest) initial)
  unfolding measure
  measure-Spaced t v rest h gaps =
      let first = start_at t (measure_value less add v initial) in
      let (span, last) =
        measure-last t rest first gaps
          (record { starts = refl; later = h; spans = no_time t; within = tt }) in
      (last, span)
