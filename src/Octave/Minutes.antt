-- ===== src/Octave/Minutes.antt =====
-- Placing a value in the row of a day.
use libklio.Prelude.{
  ℕ, zero, suc, ◌≡◌, ◌<◌, ◌+◌, ◌∙◌, refl, ap, Option, none, some, [], ◌∷◌, ◌==◌, nat_eq, arith,
  length, List, if◌then◌else◌, Bool-cases, inl, inr,
}
use libklio.Exec.{ok}
use libklio.Time.{Double}
use libklio.Octave.{get, set, place, is_not_zero, minutes_per_day}

length-set : (n : ℕ) (v : Double) (day : List Double) → length (set n v day) ≡ length day
unfolding set
length-set n v [] = refl
length-set zero v (old ∷ day) = refl
length-set (suc n) v (old ∷ day) = ap suc (length-set n v day)

get-set :
    (j n : ℕ) (v : Double) (day : List Double)
    → n < length day
    → get j (set n v day) ≡ (if n == j then some v else get j day)
unfolding get set
get-set j n v [] h = absurd (omega arith)
get-set zero zero v (old ∷ day) h = refl
get-set (suc j) zero v (old ∷ day) h = ground arith
get-set zero (suc n) v (old ∷ day) h = ground arith
get-set (suc j) (suc n) v (old ∷ day) h = get-set j n v day (omega arith) ∙ ground arith

get-some : (n : ℕ) (day : List Double) → n < length day → (old : Double) × (get n day ≡ some old)
unfolding get
get-some n [] h = absurd (omega arith)
get-some zero (old ∷ day) h = (old, refl)
get-some (suc n) (old ∷ day) h = get-some n day (omega arith)

-- The minute that a value takes: the next one where its own has a value that is not 0.
abbrev pub taken : ℕ → Option Double → ℕ
taken position none = position
taken position (some old) = if is_not_zero old then position + 1 else position

place-taken :
    (position : ℕ) (v : Double) (day : List Double)
    → length day ≡ minutes_per_day
    → position + 1 < minutes_per_day
    → place position v day ≡ ok (set (taken position (get position day)) v day)
unfolding place
place-taken position v day whole h =
    let (old, found) = get-some position day (omega arith) in
    let (next, beside) = get-some (position + 1) day (omega arith) in
    elim (Bool-cases (is_not_zero old)) [
      | inl used ↦ rw (found, used, beside) (ground (arith, used, beside))
      | inr free ↦ rw (found, free) refl
    ]

taken-inside :
    (position : ℕ) (day : List Double)
    → length day ≡ minutes_per_day
    → position + 1 < minutes_per_day
    → taken position (get position day) < length day
taken-inside position day whole h = rw whole (ground arith)

-- A value for a minute before the last of the day is placed without leaving the row: it takes its
-- minute, or the next one if its own has a value that is not 0, whatever that next one held, and the
-- row keeps its length and its other minutes.
pub place_lem :
    (position : ℕ) (v : Double) (day : List Double)
    → length day ≡ minutes_per_day
    → position + 1 < minutes_per_day
    → (day' : List Double) × (place position v day ≡ ok day')
      × (length day' ≡ minutes_per_day)
      × ((j : ℕ)
          → get j day' ≡ (if taken position (get position day) == j then some v else get j day))
place_lem position v day whole h =
    let target = taken position (get position day) in
    (
      set target v day,
      place-taken position v day whole h,
      length-set target v day ∙ whole,
      λ j. get-set j target v day (taken-inside position day whole h),
    )
