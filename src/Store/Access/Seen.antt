-- ===== src/Store/Access/Seen.antt =====
-- What a reader sees after readings have been added or updated, and what a read returns.
use libklio.Prelude.{
  ◌≡◌, ap, ◌∙◌, true, some, ◌∷◌, arith, ◌==◌, ==_refl, nat_eq, Bool-cases, Option-cases, inl, inr,
  if◌then◌else◌,
}
use libklio.Exec.{Result, ok}
use libklio.HashMap
use libklio.HashMap.{HashMap, find-assign}
use libklio.OrdMap
use libklio.OrdMap.Sorted.{IsSorted, insert-IsSorted, insert_all-IsSorted}
use libklio.Time.{Timestamp, Double, Readings, timestamp_less}
use libklio.Sensor.{Sensor, Uuid}
use libklio.Store.{
  Store, Records, Operation, Operations, no_operations, insert_operation, update_operation,
  delete_operation,
}
use libklio.Store.Buffers.{get_buffered_readings, write_buffered}
use libklio.Store.Reliable.{Policy, Model, IsReliable, IsTransactional}
use libklio.Store.View.{apply, view, rounded_ops, rounded_pending, IsReady, changed}
use libklio.Store.Flush.{auto_flush}
use libklio.Store.Flush.Flushed.{flush_sensor-Flushed}
use libklio.Store.Flush.Unseen.{IsWellFormed, entries-ready, auto_flush-Invisible, Flushed-views}
use libklio.Store.Access.{add_reading, add_readings, update_readings, get_all_readings}

module _ {D : Type 0} (m : Model D) (s : Store D) (uuid : Uuid) (ops : Operations)
    (sorted : IsSorted ops.inserts) (sorted_updates : IsSorted ops.updates) where
  -- Other pending operations of one sensor leave every sensor ready.
  pending-ready :
      (x : Sensor)
      → IsReady m s x
      → IsReady m
          (record s {
            reading_operations_buffer = HashMap.assign uuid ops s.reading_operations_buffer;
          })
          x
  pending-ready x h = elim (Bool-cases (uuid == x.uuid)) [
    | inl same ↦ record {
      ops = ops;
      cached = find-assign x.uuid uuid ops s.reading_operations_buffer ∙ rw same;
      sorted = sorted;
      sorted_updates = sorted_updates;
      accepted = h.accepted;
      capacity = h.capacity;
    }
    | inr other ↦ record {
      ops = h.ops;
      cached = find-assign x.uuid uuid ops s.reading_operations_buffer ∙ rw other h.cached;
      sorted = h.sorted;
      sorted_updates = h.sorted_updates;
      accepted = h.accepted;
      capacity = h.capacity;
    }
  ]

-- The pending operations after `readings` have been put into the map of one operation.
abbrev pub buffered : Operation → Readings → Operations → Operations
buffered insert_operation readings ops = record ops {
  inserts = OrdMap.insert_all readings ops.inserts;
}
buffered update_operation readings ops = record ops {
  updates = OrdMap.insert_all readings ops.updates;
}
buffered delete_operation readings ops = ops

module _ {D : Type 0} (m : Model D) (p : Policy) (sensor : Sensor) where
  -- The outcome of an operation that leaves `ops` pending for the sensor.
  abbrev pub Leaves : Operations → Store D → Result (Unit {0}) × Store D → Type 0
  Leaves ops s out =
      (s' : Store D) × (out ≡ (ok tt, s'))
      × ((u : Uuid)
          → view m p s' u ≡ (
              if sensor.uuid == u
              then apply p (some (rounded_ops m.round ops)) (m.stored s.db u)
              else view m p s u))
      × IsWellFormed m s'

module _ {D : Type 0} (r : Records D) (m : Model D) (p : Policy) (tr : IsTransactional r m)
    (reliable : IsReliable r m p true) (sensor : Sensor) where
  auto_flush-Leaves :
      (ops : Operations) (now : Timestamp) (s : Store D)
      → IsSorted ops.inserts
      → IsSorted ops.updates
      → IsWellFormed m s
      → s.auto_commit ≡ true
      → Leaves m p sensor ops s (
          auto_flush r now (record s {
            reading_operations_buffer = HashMap.assign sensor.uuid ops s.reading_operations_buffer;
          }))
  unfolding view
  auto_flush-Leaves ops now s o o' h ac =
      let s1 : Store D = record s {
        reading_operations_buffer = HashMap.assign sensor.uuid ops s.reading_operations_buffer;
      } in
      let h1 : IsWellFormed m s1 =
        entries-ready s s1 (pending-ready m s sensor.uuid ops o o') s.sensors_buffer h in
      let i = auto_flush-Invisible r m p tr reliable now s1 h1 ac in
      (
        changed s1 i.last_flush i.buffer i.db,
        i.result,
        λ u. i.views u ∙ ground (arith, find-assign u sensor.uuid ops s.reading_operations_buffer),
        entries-ready s1 _ i.ready s.sensors_buffer h1,
      )

  -- The buffer of a sensor that the store knows is found.
  get_inserts :
      (s : Store D) (h : IsReady m s sensor)
      → HashMap.contains sensor.uuid s.sensors_buffer ≡ true
      → get_buffered_readings sensor.uuid insert_operation s ≡ (ok h.ops.inserts, s)
  unfolding get_buffered_readings
  get_inserts s h known = elim (Option-cases (HashMap.find sensor.uuid s.sensors_buffer)) [
    | inl e ↦ ground arith
    | inr (x, e) ↦ rw (e, h.cached)
  ]

  get_updates :
      (s : Store D) (h : IsReady m s sensor)
      → HashMap.contains sensor.uuid s.sensors_buffer ≡ true
      → get_buffered_readings sensor.uuid update_operation s ≡ (ok h.ops.updates, s)
  unfolding get_buffered_readings
  get_updates s h known = elim (Option-cases (HashMap.find sensor.uuid s.sensors_buffer)) [
    | inl e ↦ ground arith
    | inr (x, e) ↦ rw (e, h.cached)
  ]

  pub add_reading-Leaves :
      (t : Timestamp) (v : Double) (now : Timestamp) (s : Store D) (h : IsReady m s sensor)
      → HashMap.contains sensor.uuid s.sensors_buffer ≡ true
      → IsWellFormed m s
      → s.auto_commit ≡ true
      → Leaves m p sensor
          (record h.ops { inserts = OrdMap.insert t v h.ops.inserts })
          s
          (add_reading r sensor t v now s)
  unfolding add_reading write_buffered
  add_reading-Leaves t v now s h known w ac =
      rw (get_inserts s h known, h.cached)
        (auto_flush-Leaves _ now s (insert-IsSorted t v h.ops.inserts h.sorted) h.sorted_updates w
          ac)

  pub add_readings-Leaves :
      (x : Timestamp × Double) (rest : Readings) (now : Timestamp) (s : Store D)
      (h : IsReady m s sensor)
      → HashMap.contains sensor.uuid s.sensors_buffer ≡ true
      → IsWellFormed m s
      → s.auto_commit ≡ true
      → Leaves m p sensor
          (buffered insert_operation (x ∷ rest) h.ops)
          s
          (add_readings r sensor (x ∷ rest) now s)
  unfolding add_readings write_buffered
  add_readings-Leaves x rest now s h known w ac =
      rw (get_inserts s h known, h.cached)
        (auto_flush-Leaves _ now s (insert_all-IsSorted (x ∷ rest) h.ops.inserts h.sorted)
          h.sorted_updates w ac)

  pub update_readings-Leaves :
      (x : Timestamp × Double) (rest : Readings) (now : Timestamp) (s : Store D)
      (h : IsReady m s sensor)
      → HashMap.contains sensor.uuid s.sensors_buffer ≡ true
      → IsWellFormed m s
      → s.auto_commit ≡ true
      → Leaves m p sensor
          (buffered update_operation (x ∷ rest) h.ops)
          s
          (update_readings r sensor (x ∷ rest) now s)
  unfolding update_readings write_buffered
  update_readings-Leaves x rest now s h known w ac =
      rw (get_updates s h known, h.cached)
        (auto_flush-Leaves _ now s h.sorted
          (insert_all-IsSorted (x ∷ rest) h.ops.updates h.sorted_updates) w ac)

  -- Over a reliable database, a read of a sensor that is ready returns what the reader sees. It leaves nothing pending for the
  -- sensor, and changes what is seen of no sensor.
  pub get_all_readings-eq-view :
      (s : Store D)
      → IsReady m s sensor
      → (s' : Store D) × (get_all_readings r sensor s ≡ (ok (view m p s sensor.uuid), s'))
        × ((u : Uuid) → view m p s' u ≡ view m p s u)
        × (HashMap.find sensor.uuid s'.reading_operations_buffer ≡ some no_operations)
  unfolding get_all_readings
  get_all_readings-eq-view s h =
      let f = flush_sensor-Flushed r m p true reliable sensor s h in
      let s1 : Store D = record s { reading_operations_buffer = f.buffer; db = f.db } in
      let (d, e, k) = reliable.read sensor s1 (f.written.accepts sensor h.accepted) in
      (
        record s1 { db = d },
        rw (f.result, e, f.written.written),
        λ u.
            unfold view in
            (ap (apply p (rounded_pending m.round (HashMap.find u f.buffer))) (k.kept u)
              ∙ Flushed-views m p s sensor f u),
        f.cleared sensor.uuid ∙ rw (==_refl sensor.uuid),
      )
