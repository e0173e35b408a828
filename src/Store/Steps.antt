-- ===== src/Store/Steps.antt =====
-- The public functions of a store as steps of its state, and the states that they reach.
use libklio.Prelude.{
  ℕ, ◌≡◌, ◌⊎◌, Bool, String, Option, some, [], ◌∷◌, nat_eq, string_eq, Option-cases, inl, inr, refl,
}
use libklio.Exec.{Exec, Result, ok, err, modify, continue, ◌>>◌}
use libklio.HashMap
use libklio.HashMap.{find-nil}
use libklio.Time.{Timestamp, Double, Readings}
use libklio.Sensor.{Sensor, Uuid}
use libklio.Store.{Store, Backend, create, run}
use libklio.Store.Buffers.{set_buffers, forget_sensor}
use libklio.Store.Buffers.Index.{IsIndexed, KeepsId, set_buffers-IsIndexed, forget_sensor-IsIndexed}
use libklio.Store.Buffers.Preserved.{db-IsIndexed}
use libklio.Store.Transactions.{in_transaction, start_transaction}
use libklio.Store.Commit.{commit_transaction}
use libklio.Store.Access.{add_reading, add_readings, update_readings, get_all_readings}
use libklio.Store.Access.Indexed.{
  add_reading-IsIndexed, add_readings-IsIndexed, update_readings-IsIndexed,
  get_all_readings-IsIndexed, start_transaction-IsIndexed, commit_transaction-IsIndexed,
}
use libklio.Store.Transactions.Frame.{OnlyDb, call-OnlyDb}
use libklio.Store.Flush.Indexed.{flush-IsIndexed, auto_flush-IsIndexed}
use libklio.Store.Flush.{flush, auto_flush}
use libklio.Store.Sensors.{
  add_sensor, remove_sensor, update_sensor, get_sensors_by_external_id, buffered_sensor,
}

module _ {D : Type 0} where
  continue-IsIndexed :
      (result : Result (Unit {0})) (change : Store D → Store D) (s : Store D)
      → IsIndexed s
      → IsIndexed (change s)
      → IsIndexed (continue {S = Store D} result (λ _. modify change) s).1
  continue-IsIndexed (ok a) change s h h' = h'
  continue-IsIndexed (err e) change s h h' = h

  -- The call of the derived class throws and no buffer changes, or the buffers change after it.
  then_change-IsIndexed :
      (m : Exec (Store D) Unit) (change : Store D → Store D) (s : Store D)
      → OnlyDb s (m s)
      → IsIndexed s
      → ((d : D) → IsIndexed (change (record s { db = d })))
      → IsIndexed ((m >> modify change) s).1
  then_change-IsIndexed m change s (d, e) h h' =
      rw e (continue-IsIndexed (m s).0 change (record s { db = d }) (db-IsIndexed s d h) (h' d))

  pub create-IsIndexed :
      (auto_commit flush_by_itself : Bool) (timeout : Timestamp) (min max : ℕ) (db : D)
      → IsIndexed (create auto_commit flush_by_itself timeout min max db)
  unfolding create
  create-IsIndexed auto_commit flush_by_itself timeout min max db = record {
    entry = λ u q found. cc (find-nil {V = Option Sensor} u);
    listing = λ e u found. cc (find-nil {V = Uuid} e);
  }

module _ {D : Type 0} (b : Backend D) where
  -- The calls that a program makes. A sensor keeps its external id when it is added again or updated,
  -- and only a sensor that is listed under its external id is removed.
  pub data Step : Store D → Store D → Type 0 where
    adds :
        {s : Store D} (sensor : Sensor)
        → KeepsId s sensor
        → Step s (add_sensor b.records sensor s).1
    updates :
        {s : Store D} (sensor : Sensor)
        → KeepsId s sensor
        → Step s (update_sensor b.records sensor s).1
    removes :
        {s : Store D} (sensor : Sensor)
        → HashMap.find sensor.external_id s.external_ids_buffer ≡ some sensor.uuid
        → Step s (remove_sensor b.records sensor s).1
    flushes : {s : Store D} (ignore_errors : Bool) → Step s (flush b.records ignore_errors s).1
    flushes_by_clock : {s : Store D} (now : Timestamp) → Step s (auto_flush b.records now s).1
    adds_reading :
        {s : Store D} (sensor : Sensor) (t : Timestamp) (v : Double) (now : Timestamp)
        → Step s (add_reading b.records sensor t v now s).1
    adds_readings :
        {s : Store D} (sensor : Sensor) (readings : Readings) (now : Timestamp)
        → Step s (add_readings b.records sensor readings now s).1
    updates_readings :
        {s : Store D} (sensor : Sensor) (readings : Readings) (now : Timestamp)
        → Step s (update_readings b.records sensor readings now s).1
    reads : {s : Store D} (sensor : Sensor) → Step s (get_all_readings b.records sensor s).1
    starts_transaction : {s : Store D} → Step s (start_transaction b.records s).1
    commits_transaction : {s : Store D} → Step s (commit_transaction b s).1

  pub data Reach (start : Store D) : Store D → Type 0 where
    starts : Reach start start
    steps : {s s' : Store D} → Reach start s → Step s s' → Reach start s'

  Step-IsIndexed : {s s' : Store D} → Step s s' → IsIndexed s → IsIndexed s'
  unfolding add_sensor update_sensor remove_sensor
  Step-IsIndexed {s} (adds sensor keeps) h =
      then_change-IsIndexed (in_transaction b.records (run (b.records.add_sensor_record sensor)))
        (set_buffers sensor) s (call-OnlyDb b.records (b.records.add_sensor_record sensor) s) h
        λ d. set_buffers-IsIndexed sensor (record s { db = d }) (db-IsIndexed s d h) keeps
  Step-IsIndexed {s} (updates sensor keeps) h =
      then_change-IsIndexed (in_transaction b.records (run (b.records.update_sensor_record sensor)))
        (set_buffers sensor) s (call-OnlyDb b.records (b.records.update_sensor_record sensor) s) h
        λ d. set_buffers-IsIndexed sensor (record s { db = d }) (db-IsIndexed s d h) keeps
  Step-IsIndexed {s} (removes sensor listed) h =
      then_change-IsIndexed (in_transaction b.records (run (b.records.remove_sensor_record sensor)))
        (forget_sensor sensor) s (call-OnlyDb b.records (b.records.remove_sensor_record sensor) s) h
        λ d. forget_sensor-IsIndexed sensor (record s { db = d }) (db-IsIndexed s d h) listed
  Step-IsIndexed {s} (flushes ignore_errors) h = (flush-IsIndexed b.records ignore_errors).at s h
  Step-IsIndexed {s} (flushes_by_clock now) h = (auto_flush-IsIndexed b.records now).at s h
  Step-IsIndexed {s} (adds_reading sensor t v now) h =
      (add_reading-IsIndexed b.records sensor t v now).at s h
  Step-IsIndexed {s} (adds_readings sensor readings now) h =
      (add_readings-IsIndexed b.records sensor readings now).at s h
  Step-IsIndexed {s} (updates_readings sensor readings now) h =
      (update_readings-IsIndexed b.records sensor readings now).at s h
  Step-IsIndexed {s} (reads sensor) h = (get_all_readings-IsIndexed b.records sensor).at s h
  Step-IsIndexed {s} starts_transaction h = (start_transaction-IsIndexed b.records).at s h
  Step-IsIndexed {s} commits_transaction h = (commit_transaction-IsIndexed b).at s h

  -- From buffers that agree, along every sequence of these calls, in which a sensor keeps its external
  -- id and only a listed sensor is removed, the buffers agree, whether the calls of the derived class
  -- succeed or throw.
  pub Reach-IsIndexed : {start s : Store D} → IsIndexed start → Reach start s → IsIndexed s
  Reach-IsIndexed h starts = h
  Reach-IsIndexed h (steps before step) = Step-IsIndexed step (Reach-IsIndexed h before)

  -- In every state that is reached from a new store by these calls, in which a sensor keeps its external
  -- id and only a listed sensor is removed, a lookup by external id changes nothing
  -- and finds either no sensor or exactly one, which is no null pointer and has this external id.
  pub get_sensors_by_external_id-Reach :
      (auto_commit flush_by_itself : Bool) (timeout : Timestamp) (min max : ℕ) (db : D)
      (s : Store D) (e : String)
      → Reach (create auto_commit flush_by_itself timeout min max db) s
      → (get_sensors_by_external_id e s ≡ (ok [], s))
        ⊎ ((x : Sensor) × (get_sensors_by_external_id e s ≡ (ok (some x ∷ []), s))
            × (x.external_id ≡ e))
  unfolding get_sensors_by_external_id
  get_sensors_by_external_id-Reach auto_commit flush_by_itself timeout min max db s e reached =
      let h =
        Reach-IsIndexed (create-IsIndexed auto_commit flush_by_itself timeout min max db) reached in
      elim (Option-cases (HashMap.find e s.external_ids_buffer)) [
        | inl absent ↦ inl (rw absent refl)
        | inr (u, listed) ↦
            let x = h.listing e u listed in
            inr (x.sensor, rw (listed, x.there, buffered_sensor) refl, x.named)
      ]
