-- ===== src/Store/Flush/Flushed.antt =====
-- A flush of one sensor writes its pending operations and empties its buffer, and changes nothing else.
use libklio.Prelude.{
  ◌<◌, ◌≡◌, refl, ap, ◌∙◌, Bool, true, some, [], ◌∷◌, arith, length, ◌==◌, nat_eq, if◌then◌else◌,
  ltb,
}
use libklio.Exec.{Result, ok}
use libklio.HashMap
use libklio.HashMap.{HashMap, find-assign}
use libklio.OrdMap
use libklio.OrdMap.Sorted.{IsSorted}
use libklio.Time.{Readings, timestamp_less}
use libklio.Sensor.{Sensor, Uuid}
use libklio.Store.{Store, Records, Operations, no_operations}
use libklio.Store.Buffers.{write_buffered}
use libklio.Store.Reliable.{Policy, rounded, Model, Written, IsReliable}
use libklio.Store.View.{view, IsReady}
use libklio.Store.Flush.{flush_sensor, flush_operations, write_updates}
use libklio.Store.Flush.Writes.{write_inserts-Wrote}

-- The buffer `b` is `a` without the pending operations of one sensor.
abbrev pub Cleared : Uuid → HashMap Uuid Operations → HashMap Uuid Operations → Type 0
Cleared uuid a b =
    (u : Uuid) → HashMap.find u b ≡ (if uuid == u then some no_operations else HashMap.find u a)

module _ {D : Type 0} (m : Model D) where
  -- The flush of a sensor succeeds, empties its buffer, and writes what was in it.
  pub record Flushed (p : Policy) (s : Store D) (sensor : Sensor)
      (out : Result (Unit {0}) × Store D) : Type 0 where
    pub db : D
    pub buffer : HashMap Uuid Operations
    pub result : out ≡ (ok tt, record s { db = db; reading_operations_buffer = buffer })
    pub cleared : Cleared sensor.uuid s.reading_operations_buffer buffer
    pub written : Written m s sensor.uuid (view m p s sensor.uuid) db

module _ {D : Type 0} (r : Records D) (m : Model D) (p : Policy) (ignore : Bool)
    (reliable : IsReliable r m p ignore) (sensor : Sensor) where
  flush_operations-Flushed :
      (s : Store D) (inserts updates : Readings)
      → HashMap.find sensor.uuid s.reading_operations_buffer
        ≡ some (record { inserts = inserts; updates = updates })
      → IsSorted inserts
      → m.accepts s.sensors_buffer s.db sensor
      → 0 < s.max_bulk_size
      → Flushed m p s sensor (
          flush_operations r sensor ignore
            (some (record { inserts = inserts; updates = updates }))
            s)
  unfolding flush_operations write_updates write_buffered view
  flush_operations-Flushed s inserts [] cached sorted accepted capacity =
      let (d, e, w) =
        write_inserts-Wrote r m p ignore reliable sensor inserts s sorted capacity accepted in
      record {
        db = d;
        buffer =
            HashMap.assign sensor.uuid (record { inserts = []; updates = [] })
              s.reading_operations_buffer;
        result = rw (e, cached) refl;
        cleared = λ u. find-assign u sensor.uuid _ _;
        written = rw cached (unfold OrdMap.assign_all in w);
      }
  flush_operations-Flushed s inserts (x ∷ rest) cached sorted accepted capacity =
      let (d, e, w) =
        write_inserts-Wrote r m p ignore reliable sensor inserts s sorted capacity accepted in
      let s1 : Store D = record s { db = d; reading_operations_buffer = emptied } in
      let (d2, e2, w2) = reliable.update sensor (x ∷ rest) s1 (w.accepts sensor accepted) in
      let found : HashMap.find sensor.uuid emptied ≡ some still_pending =
        HashMap.find-assign_self sensor.uuid still_pending s.reading_operations_buffer in
      let pending : ltb 0 (length (x ∷ rest)) ≡ true = ground arith in
      record {
        db = d2;
        buffer = HashMap.assign sensor.uuid no_operations emptied;
        result = rw (e, cached, pending, e2, found) refl;
        cleared = λ u.
            find-assign u sensor.uuid no_operations emptied
            ∙ ground (arith, find-assign u sensor.uuid still_pending s.reading_operations_buffer);
        written = rw cached (record {
          accepts = λ y h. w2.accepts y (w.accepts y h);
          written = w2.written ∙ ap (OrdMap.assign_all (rounded m.round (x ∷ rest))) w.written;
          others = λ u h. w2.others u h ∙ w.others u h;
        });
      }
    where
      still_pending : Operations
      still_pending = record { inserts = []; updates = x ∷ rest }

      emptied : HashMap Uuid Operations
      emptied = HashMap.assign sensor.uuid still_pending s.reading_operations_buffer

  -- Over a reliable database, a flush of a sensor that is ready succeeds, empties its buffer, and
  -- leaves in the database what a reader saw. Other sensors keep their buffers and readings.
  pub flush_sensor-Flushed :
      (s : Store D) → IsReady m s sensor → Flushed m p s sensor (flush_sensor r sensor ignore s)
  unfolding flush_sensor
  flush_sensor-Flushed s h = rw h.cached (
      flush_operations-Flushed s h.ops.inserts h.ops.updates h.cached h.sorted h.accepted
        h.capacity)
