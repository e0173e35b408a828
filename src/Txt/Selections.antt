-- ===== src/Txt/Selections.antt =====
-- The loops that pick readings by their timestamps.
use libklio.Prelude.{
  Bool-cases, inl, inr, ◌≡◌, refl, true, false, Option, none, some, [], ◌∷◌, ◌&&◌, ◌==◌, arith,
  nat_eq, if◌then◌else◌,
}
use libklio.Prelude.Int.{pos, leb_ℤ, int_eq}
use libklio.OrdMap
use libklio.OrdMap.{find}
use libklio.OrdMap.Laws.{same, or_else, find-insert}
use libklio.OrdMap.Sorted.{IsSorted}
use libklio.OrdMap.Union.{first, find-nil, find-cons_sorted, IsSorted-tail}
use libklio.Time.{Timestamp, Double, Readings, Reading, timestamp_less, zero_double}
use libklio.Txt.{select, find_reading}

picked_or :
    (begin end j t : Timestamp) (v : Double) (held later : Option Double)
    → (leb_ℤ begin t && leb_ℤ t end) ≡ true
    → first
        (if same t j then some (or_else held v) else held)
        (if leb_ℤ begin j && leb_ℤ j end then later else none)
      ≡ first held
          (if leb_ℤ begin j && leb_ℤ j end then (if same t j then some v else later) else none)
unfolding timestamp_less
picked_or begin end j t v held later h = ground arith

left_or :
    (begin end j t : Timestamp) (v : Double) (held later : Option Double)
    → (leb_ℤ begin t && leb_ℤ t end) ≡ false
    → first held (if leb_ℤ begin j && leb_ℤ j end then later else none)
      ≡ first held
          (if leb_ℤ begin j && leb_ℤ j end then (if same t j then some v else later) else none)
unfolding timestamp_less
left_or begin end j t v held later h = ground arith

select_onto :
    (begin end j : Timestamp) (all selected : Readings)
    → IsSorted all
    → find j (select begin end all selected)
      ≡ first (find j selected) (if leb_ℤ begin j && leb_ℤ j end then find j all else none)
unfolding select
select_onto begin end j [] selected s = ground (arith, find-nil {V = Double} j)
select_onto begin end j ((t, v) ∷ rest) selected s =
    elim (Bool-cases (leb_ℤ begin t && leb_ℤ t end)) [
      | inl picked ↦
          rw
            (
              picked,
              select_onto begin end j rest (OrdMap.insert t v selected) (IsSorted-tail t rest s),
              find-insert j t v selected,
              find-cons_sorted j t v rest s,
            )
            (picked_or begin end j t v (find j selected) (find j rest) picked)
      | inr left_out ↦
          rw
            (
              left_out,
              select_onto begin end j rest selected (IsSorted-tail t rest s),
              find-cons_sorted j t v rest s,
            )
            (left_or begin end j t v (find j selected) (find j rest) left_out)
    ]

-- The selection of a timeframe holds the readings from `begin` to `end`, both included, and no other.
pub find-select :
    (begin end j : Timestamp) (all : Readings)
    → IsSorted all
    → find j (select begin end all []) ≡ (if leb_ℤ begin j && leb_ℤ j end then find j all else none)
unfolding find
find-select begin end j all s = select_onto begin end j all [] s

abbrev pub or_no_reading : Timestamp → Option Double → Reading
or_no_reading timestamp none = (pos 0, zero_double)
or_no_reading timestamp (some v) = (timestamp, v)

reading_or :
    (t j : Timestamp) (v : Double) (later : Option Double)
    → (if t == j then (t, v) else or_no_reading j later)
      ≡ or_no_reading j (if same t j then some v else later)
unfolding timestamp_less
reading_or t j v later = ground arith

-- The linear search for a timestamp finds what a lookup in the map finds, or else the pair of zeros.
pub find_reading-find :
    (j : Timestamp) (all : Readings)
    → IsSorted all
    → find_reading j all ≡ or_no_reading j (find j all)
unfolding find_reading
find_reading-find j [] s = rw (find-nil {V = Double} j) refl
find_reading-find j ((t, v) ∷ rest) s =
    rw (find_reading-find j rest (IsSorted-tail t rest s), find-cons_sorted j t v rest s)
      (reading_or t j v (find j rest))
