-- ===== src/Store/Access/Lookup.antt =====
-- The value that a reader sees at one timestamp, after readings have been added or updated.
use libklio.Prelude.{
  ◌≡◌, ◌∙◌, ap, true, Option, none, some, [], ◌∷◌, refl, arith, ==_refl, ==_iff, ◌≢◌, nat_eq,
  if◌then◌else◌,
}
use libklio.Exec.{Result, ok}
use libklio.HashMap
use libklio.OrdMap
use libklio.OrdMap.Laws.{same, or_else, find-insert}
use libklio.OrdMap.Sorted.{IsSorted, Above, insert-IsSorted, insert_all-IsSorted}
use libklio.OrdMap.Union.{first, find-insert_all, find-assign_all}
use libklio.Time.{Timestamp, Double, Readings, timestamp_less}
use libklio.Sensor.{Sensor, Uuid}
use libklio.Store.{Store, Records, Operations, insert_operation, update_operation}
use libklio.Store.Reliable.{Policy, keep_old, take_new, rounded, Model, IsReliable, IsTransactional}
use libklio.Store.View.{apply, view, rounded_ops, IsReady}
use libklio.Store.Flush.Unseen.{IsWellFormed}
use libklio.Store.Access.{add_reading, add_readings, update_readings}
use libklio.Store.Access.Seen.{
  buffered, Leaves, add_reading-Leaves, add_readings-Leaves, update_readings-Leaves,
}

abbrev seen : Policy → Option Double → Option Double → Option Double → Option Double
seen keep_old update insert stored = first update (first stored insert)
seen take_new update insert stored = first update (first insert stored)

find-apply :
    (p : Policy) (ops : Operations) (stored : Readings) (j : Timestamp)
    → IsSorted ops.inserts
    → IsSorted ops.updates
    → OrdMap.find j (apply p (some ops) stored)
      ≡ seen p (OrdMap.find j ops.updates) (OrdMap.find j ops.inserts) (OrdMap.find j stored)
find-apply keep_old ops stored j o o' =
    find-assign_all j ops.updates (OrdMap.insert_all ops.inserts stored) o'
    ∙ ap (first (OrdMap.find j ops.updates)) (find-insert_all j ops.inserts stored o)
find-apply take_new ops stored j o o' =
    find-assign_all j ops.updates (OrdMap.assign_all ops.inserts stored) o'
    ∙ ap (first (OrdMap.find j ops.updates)) (find-assign_all j ops.inserts stored o)

-- What keeps a new reading from showing: under `keep_old` any reading, under `take_new` a pending one.
abbrev pub earlier : Policy → Operations → Readings → Timestamp → Option Double
earlier keep_old ops stored j = OrdMap.find j (apply keep_old (some ops) stored)
earlier take_new ops stored j = first (OrdMap.find j ops.updates) (OrdMap.find j ops.inserts)

find-apply-insert :
    (p : Policy) (ops : Operations) (stored : Readings) (t : Timestamp) (v : Double) (j : Timestamp)
    → IsSorted ops.inserts
    → IsSorted ops.updates
    → OrdMap.find j (apply p (some (record ops { inserts = OrdMap.insert t v ops.inserts })) stored)
      ≡ (if same t j
          then some (or_else (earlier p ops stored j) v)
          else OrdMap.find j (apply p (some ops) stored))
find-apply-insert keep_old ops stored t v j o o' = ground (
  arith,
  find-apply keep_old (record ops { inserts = OrdMap.insert t v ops.inserts }) stored j
      (insert-IsSorted t v ops.inserts o) o',
  find-apply keep_old ops stored j o o',
  find-insert j t v ops.inserts,
)
find-apply-insert take_new ops stored t v j o o' = ground (
  arith,
  find-apply take_new (record ops { inserts = OrdMap.insert t v ops.inserts }) stored j
      (insert-IsSorted t v ops.inserts o) o',
  find-apply take_new ops stored j o o',
  find-insert j t v ops.inserts,
)

abbrev pub overlay : Option Double → Option Double → Option Double → Option Double
overlay held none before = before
overlay held (some v) before = some (or_else held v)

find-apply-inserts :
    (p : Policy) (ops : Operations) (stored readings : Readings) (j : Timestamp)
    → IsSorted ops.inserts
    → IsSorted ops.updates
    → IsSorted readings
    → OrdMap.find j (apply p (some (buffered insert_operation readings ops)) stored)
      ≡ overlay
          (earlier p ops stored j)
          (OrdMap.find j readings)
          (OrdMap.find j (apply p (some ops) stored))
find-apply-inserts keep_old ops stored readings j o o' n = ground (
  arith,
  find-apply keep_old (buffered insert_operation readings ops) stored j
      (insert_all-IsSorted readings ops.inserts o) o',
  find-apply keep_old ops stored j o o',
  find-insert_all j readings ops.inserts n,
)
find-apply-inserts take_new ops stored readings j o o' n = ground (
  arith,
  find-apply take_new (buffered insert_operation readings ops) stored j
      (insert_all-IsSorted readings ops.inserts o) o',
  find-apply take_new ops stored j o o',
  find-insert_all j readings ops.inserts n,
)

find-apply-updates :
    (p : Policy) (ops : Operations) (stored readings : Readings) (j : Timestamp)
    → IsSorted ops.inserts
    → IsSorted ops.updates
    → IsSorted readings
    → OrdMap.find j (apply p (some (buffered update_operation readings ops)) stored)
      ≡ first
          (OrdMap.find j ops.updates)
          (first (OrdMap.find j readings) (OrdMap.find j (apply p (some ops) stored)))
find-apply-updates p ops stored readings j o o' n = ground (
  arith,
  find-apply p (buffered update_operation readings ops) stored j o
      (insert_all-IsSorted readings ops.updates o'),
  find-apply p ops stored j o o',
  find-insert_all j readings ops.updates n,
)

rounded-insert :
    (f : Double → Double) (t : Timestamp) (v : Double) (r : Readings)
    → rounded f (OrdMap.insert t v r) ≡ OrdMap.insert t (f v) (rounded f r)
unfolding OrdMap.insert timestamp_less
rounded-insert f t v [] = refl
rounded-insert f t v ((k, w) ∷ r) = ground (arith, rounded-insert f t v r)

rounded-insert_all :
    (f : Double → Double) (q r : Readings)
    → rounded f (OrdMap.insert_all q r) ≡ OrdMap.insert_all (rounded f q) (rounded f r)
unfolding OrdMap.insert_all
rounded-insert_all f [] r = refl
rounded-insert_all f ((t, v) ∷ q) r =
    rounded-insert_all f q (OrdMap.insert t v r)
    ∙ ap (OrdMap.insert_all (rounded f q)) (rounded-insert f t v r)

rounded-Above :
    (f : Double → Double) (b : Timestamp) (r : Readings) → Above b r → Above b (rounded f r)
rounded-Above f b [] h = tt
rounded-Above f b ((t, v) ∷ r) (h, rest) = (h, rounded-Above f t r rest)

pub rounded-IsSorted : (f : Double → Double) (r : Readings) → IsSorted r → IsSorted (rounded f r)
rounded-IsSorted f [] h = tt
rounded-IsSorted f ((t, v) ∷ r) h = rounded-Above f t r h

module _ {D : Type 0} (m : Model D) (p : Policy) (sensor : Sensor) (s : Store D) where
  -- An operation that succeeds, and after which a reader finds `found j` for the sensor.
  abbrev pub Shows : (Timestamp → Option Double) → Result (Unit {0}) × Store D → Type 0
  Shows found out =
      (s' : Store D) × (out ≡ (ok tt, s'))
      × ((j : Timestamp) → OrdMap.find j (view m p s' sensor.uuid) ≡ found j)
      × ((u : Uuid) → u ≢ sensor.uuid → view m p s' u ≡ view m p s u)
      × IsWellFormed m s'

module _ {D : Type 0} (r : Records D) (m : Model D) (p : Policy) (tr : IsTransactional r m)
    (reliable : IsReliable r m p true) (sensor : Sensor) (s : Store D) (h : IsReady m s sensor)
    (known : HashMap.contains sensor.uuid s.sensors_buffer ≡ true) (w : IsWellFormed m s)
    (ac : s.auto_commit ≡ true) where
  Leaves-Shows :
      (ops : Operations) (found : Timestamp → Option Double) {out : Result (Unit {0}) × Store D}
      → ((j : Timestamp)
          → OrdMap.find j (apply p (some (rounded_ops m.round ops)) (m.stored s.db sensor.uuid))
            ≡ found j)
      → Leaves m p sensor ops s out
      → Shows m p sensor s found out
  Leaves-Shows ops found e (s', result, views, w') = (
    s',
    result,
    λ j. rw (views sensor.uuid, ==_refl sensor.uuid) (e j),
    λ u other. views u ∙ ground (arith, ==_iff sensor.uuid u),
    w',
  )

  -- Over a reliable database whose transactions work, in a well-formed store that commits by
  -- itself, `add_reading` of a ready sensor that the store knows succeeds. A reader then finds the new value at its
  -- timestamp, unless an earlier reading keeps its place there, and finds what it found before at
  -- every other timestamp and for every other sensor, whether or not the clock makes it flush.
  pub add_reading-find :
      (t : Timestamp) (v : Double) (now : Timestamp)
      → Shows m p sensor s
          (λ j.
            if same t j
            then some (
                or_else
                  (earlier p (rounded_ops m.round h.ops) (m.stored s.db sensor.uuid) j)
                  (m.round v))
            else OrdMap.find j (view m p s sensor.uuid))
          (add_reading r sensor t v now s)
  add_reading-find t v now =
      Leaves-Shows _ _
        (λ j.
          ap
            (λ q. OrdMap.find j (
              apply p (some (record { inserts = q; updates = rounded m.round h.ops.updates }))
                (m.stored s.db sensor.uuid)))
            (rounded-insert m.round t v h.ops.inserts)
          ∙ find-apply-insert p (rounded_ops m.round h.ops) (m.stored s.db sensor.uuid) t
              (m.round v) j (rounded-IsSorted m.round h.ops.inserts h.sorted)
              (rounded-IsSorted m.round h.ops.updates h.sorted_updates)
          ∙ unfold view in rw h.cached)
        (add_reading-Leaves r m p tr reliable sensor t v now s h known w ac)

  -- Under the conditions of `add_reading-find`, `add_readings` of at least one reading, in the order
  -- of a map, succeeds, and shows each of the new readings as
  -- `add_reading` does.
  pub add_readings-find :
      (x : Timestamp × Double) (rest : Readings) (now : Timestamp)
      → IsSorted (x ∷ rest)
      → Shows m p sensor s
          (λ j.
            overlay
              (earlier p (rounded_ops m.round h.ops) (m.stored s.db sensor.uuid) j)
              (OrdMap.find j (rounded m.round (x ∷ rest)))
              (OrdMap.find j (view m p s sensor.uuid)))
          (add_readings r sensor (x ∷ rest) now s)
  add_readings-find x rest now o =
      Leaves-Shows _ _
        (λ j.
          ap
            (λ q. OrdMap.find j (
              apply p (some (record { inserts = q; updates = rounded m.round h.ops.updates }))
                (m.stored s.db sensor.uuid)))
            (rounded-insert_all m.round (x ∷ rest) h.ops.inserts)
          ∙ find-apply-inserts p (rounded_ops m.round h.ops) (m.stored s.db sensor.uuid)
              (rounded m.round (x ∷ rest)) j (rounded-IsSorted m.round h.ops.inserts h.sorted)
              (rounded-IsSorted m.round h.ops.updates h.sorted_updates)
              (rounded-IsSorted m.round (x ∷ rest) o)
          ∙ unfold view in rw h.cached)
        (add_readings-Leaves r m p tr reliable sensor x rest now s h known w ac)

  -- Under the conditions of `add_reading-find`, `update_readings` with at least one reading, in the
  -- order of a map, succeeds. A reader then finds the new values
  -- in place of stored and of inserted ones, but an update that is pending already keeps its place:
  -- of two updates of one timestamp between flushes, the first stays.
  pub update_readings-find :
      (x : Timestamp × Double) (rest : Readings) (now : Timestamp)
      → IsSorted (x ∷ rest)
      → Shows m p sensor s
          (λ j. first (OrdMap.find j (rounded m.round h.ops.updates)) (
            first
              (OrdMap.find j (rounded m.round (x ∷ rest)))
              (OrdMap.find j (view m p s sensor.uuid))))
          (update_readings r sensor (x ∷ rest) now s)
  update_readings-find x rest now o =
      Leaves-Shows _ _
        (λ j.
          ap
            (λ q. OrdMap.find j (
              apply p (some (record { inserts = rounded m.round h.ops.inserts; updates = q }))
                (m.stored s.db sensor.uuid)))
            (rounded-insert_all m.round (x ∷ rest) h.ops.updates)
          ∙ find-apply-updates p (rounded_ops m.round h.ops) (m.stored s.db sensor.uuid)
              (rounded m.round (x ∷ rest)) j (rounded-IsSorted m.round h.ops.inserts h.sorted)
              (rounded-IsSorted m.round h.ops.updates h.sorted_updates)
              (rounded-IsSorted m.round (x ∷ rest) o)
          ∙ unfold view in rw h.cached)
        (update_readings-Leaves r m p tr reliable sensor x rest now s h known w ac)
