-- ===== src/Redis/RoundTrip.antt =====
-- Readings that were sent to Redis are read back.
use libklio.Prelude.{
  ◌≡◌, String, Option, none, some, List, [], ◌∷◌, if◌then◌else◌, nat_eq, string_eq, arith,
}
use libklio.Exec.{ok}
use libklio.HashMap
use libklio.OrdMap
use libklio.OrdMap.Laws.{same}
use libklio.OrdMap.Sorted.{IsSorted}
use libklio.OrdMap.Union.{find-cons_sorted, find-nil, IsSorted-tail}
use libklio.Time.{Timestamp, Double, Readings, timestamp_less}
use libklio.Sensor.{Sensor, Library}
use libklio.Store.{Store}
use libklio.Transaction.{Element}
use libklio.Redis.{Connection, Reply, reading_fields}

-- The elements of a reply have these texts.
abbrev pub HasTexts : List Element → List String → Type 0
HasTexts [] [] = Unit
HasTexts [] (text ∷ texts) = ⊥
HasTexts (e ∷ es) [] = ⊥
HasTexts (e ∷ es) (text ∷ texts) = (e.str ≡ text) × HasTexts es texts

-- Readings in any order, of which the first one at a timestamp counts.
abbrev pub reading_at : Timestamp → Readings → Option Double
reading_at j [] = none
reading_at j ((t, v) ∷ rest) = if same t j then some v else reading_at j rest

abbrev value_of : (Double → Double) → Option Double → Option Double
value_of f none = none
value_of f (some v) = some (f v)

pub reading_at-sorted :
    (j : Timestamp) (readings : Readings)
    → IsSorted readings
    → reading_at j readings ≡ OrdMap.find j readings
reading_at-sorted j [] s = ground (arith, find-nil {V = Double} j)
reading_at-sorted j ((t, v) ∷ rest) s =
    ground (arith, find-cons_sorted j t v rest s, reading_at-sorted j rest (IsSorted-tail t rest s))

-- What is documented: a `long` is read back from its text; `HGETALL` returns every field of a key with its
-- value, in any order. Both commands may fail.
pub record IsHash {C : Type 0} (c : Connection C) (l : Library) (has_none : String → C → Type 0)
    : Type 0 where
  pub times : (t : Timestamp) → c.atol (c.lexical_time t) ≡ t
  pub gets :
      (key : String) (readings : Readings) (reply all : Reply) (d : C)
      → has_none key d
      → IsSorted readings
      → (let out = c.run ("HMSET" ∷ key ∷ reading_fields c l readings) d in
          (out.0 ≡ ok reply)
          → ((c.run ("HGETALL" ∷ key ∷ []) out.1).0 ≡ ok all)
          → (pairs : Readings) × HasTexts all.elements (reading_fields c l pairs)
            × ((j : Timestamp) → reading_at j pairs ≡ OrdMap.find j readings))

module _ {C : Type 0} (c : Connection C) (l : Library) (has_none : String → C → Type 0)
    (hash : IsHash c l has_none) where
  -- What is read back of a value that was written as a text.
  abbrev pub as_read : Double → Double
  as_read v = c.atof (c.lexical_double v)
