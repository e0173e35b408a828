-- ===== src/Store/Flush/Bulks.antt =====
-- Cutting the readings into bulks.
use mathlib.Core.List.{append_assoc, append-nil}
use libklio.Prelude.{
  ℕ, zero, suc, ◌+◌, ◌*◌, ◌≤◌, ◌<◌, ◌≡◌, sym, ap, subst, [], ◌∷◌, ◌++◌, arith, length, take, drop,
  length-append, true, ltb,
}
use libklio.OrdMap.Sorted.{IsSorted, insert_last}
use libklio.Time.{Readings, timestamp_less}
use libklio.Store.Flush.{fill, bulk_count}

fill_onto :
    (max : ℕ) (reading bulk : Readings) (room : ℕ)
    → length bulk + room ≡ max
    → IsSorted (bulk ++ reading)
    → fill max reading bulk ≡ (bulk ++ take room reading, drop room reading)
unfolding fill
fill_onto max [] bulk zero h s = simp append-nil
fill_onto max [] bulk (suc room) h s = simp append-nil
fill_onto max ((t, v) ∷ rest) bulk zero h s = simp append-nil (ground arith)
fill_onto max ((t, v) ∷ rest) bulk (suc room) h s =
    let regroup = append_assoc bulk ((t, v) ∷ []) rest in
    let ih =
      fill_onto max rest (bulk ++ (t, v) ∷ []) room
        (omega (arith, length-append {0} bulk ((t, v) ∷ []))) (subst IsSorted (sym regroup) s) in
    let small : ltb (length bulk) max ≡ true = ground arith in
    rw (small, insert_last t v bulk rest s, ih)
      (ap (λ (x : Readings). (x, drop room rest))
        (append_assoc bulk ((t, v) ∷ []) (take room rest)))

-- One bulk takes as many sorted readings as fit, in their order, and leaves the others.
pub fill_lem :
    (max : ℕ) (reading : Readings)
    → IsSorted reading
    → fill max reading [] ≡ (take max reading, drop max reading)
fill_lem max reading s = fill_onto max reading [] max (omega arith) s

-- The bulks have room for all the readings.
pub le-bulk_count : (size max : ℕ) → 0 < max → size ≤ bulk_count size max * max
unfolding bulk_count
le-bulk_count size max h = grind arith

-- There is no bulk too many.
pub bulk_count-least : (size max n : ℕ) → 0 < max → size ≤ n * max → bulk_count size max ≤ n
unfolding bulk_count
bulk_count-least size max n h k = grind arith
