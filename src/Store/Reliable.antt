-- ===== src/Store/Reliable.antt =====
-- What the store relies on when it writes to a database, as an interface: the readings that the
-- database holds, the sensors that it accepts, and what each write does to them.
use libklio.Prelude.{ℕ, ◌≡◌, ◌≢◌, Bool, Option, [], ◌∷◌}
use libklio.Exec.{Result, ok}
use libklio.HashMap.{HashMap}
use libklio.OrdMap
use libklio.Time.{Timestamp, Double, Readings, timestamp_less}
use libklio.Sensor.{Sensor, Uuid}
use libklio.Store.{Store, Records}

-- What a database does with a reading whose timestamp is there: SQL `INSERT` keeps the old one,
-- Redis `HMSET` replaces it.
pub data Policy : Type 0 where
  keep_old take_new : Policy

abbrev pub put_all : Policy → Readings → Readings → Readings
put_all keep_old = OrdMap.insert_all
put_all take_new = OrdMap.assign_all

-- `accepts` says where the database takes the readings of a sensor, and `round` what it gives back for a
-- value: a store that writes a double as a text may lose some of its digits.
pub record Model (D : Type 0) : Type 1 where
  pub stored : D → Uuid → Readings
  pub accepts : HashMap Uuid (Option Sensor) → D → Sensor → Type 0
  pub round : Double → Double

abbrev pub rounded : (Double → Double) → Readings → Readings
rounded round [] = []
rounded round ((t, v) ∷ rest) = (t, round v) ∷ rounded round rest

module _ {D : Type 0} (m : Model D) where
  -- The database accepts what it accepted.
  abbrev pub StillAccepts : Store D → D → Type 0
  StillAccepts s d =
      (x : Sensor) → m.accepts s.sensors_buffer s.db x → m.accepts s.sensors_buffer d x

  -- The readings of one sensor are `new`, and those of the others are as before.
  pub record Written (s : Store D) (uuid : Uuid) (new : Readings) (d : D) : Type 0 where
    pub accepts : StillAccepts s d
    pub written : m.stored d uuid ≡ new
    pub others : (u : Uuid) → u ≢ uuid → m.stored d u ≡ m.stored s.db u

  -- Nothing that the store can see has changed.
  pub record Kept (s : Store D) (d : D) : Type 0 where
    pub accepts : StillAccepts s d
    pub kept : (u : Uuid) → m.stored d u ≡ m.stored s.db u

  abbrev pub Writes : Store D → Uuid → Readings → Result (Unit {0}) × D → Type 0
  Writes s uuid new out = (d : D) × (out ≡ (ok tt, d)) × Written s uuid new d

  abbrev pub Reads : {A : Type 0} → Store D → A → Result A × D → Type 0
  Reads s a out = (d : D) × (out ≡ (ok a, d)) × Kept s d

-- Writes that are asked to ignore errors (or not) succeed for a sensor that the database accepts.
pub record IsReliable {D : Type 0} (r : Records D) (m : Model D) (p : Policy) (ignore : Bool)
    : Type 0 where
  pub single :
      (sensor : Sensor) (t : Timestamp) (v : Double) (s : Store D)
      → m.accepts s.sensors_buffer s.db sensor
      → Writes m s sensor.uuid
          (put_all p ((t, m.round v) ∷ []) (m.stored s.db sensor.uuid))
          (r.add_single_reading_record sensor t v ignore s)
  pub bulk :
      (sensor : Sensor) (readings : Readings) (s : Store D)
      → m.accepts s.sensors_buffer s.db sensor
      → Writes m s sensor.uuid
          (put_all p (rounded m.round readings) (m.stored s.db sensor.uuid))
          (r.add_bulk_reading_records sensor readings ignore s)
  pub update :
      (sensor : Sensor) (readings : Readings) (s : Store D)
      → m.accepts s.sensors_buffer s.db sensor
      → Writes m s sensor.uuid
          (OrdMap.assign_all (rounded m.round readings) (m.stored s.db sensor.uuid))
          (r.update_reading_records sensor readings ignore s)
  pub read :
      (sensor : Sensor) (s : Store D)
      → m.accepts s.sensors_buffer s.db sensor
      → Reads m s (m.stored s.db sensor.uuid) (r.get_all_reading_records sensor s)

-- The transaction handlers work, and leave the readings alone.
pub record IsTransactional {D : Type 0} (r : Records D) (m : Model D) : Type 0 where
  pub handler : (s : Store D) → (t : Option ℕ) × Reads m s t (r.get_transaction_handler s)
  pub start : (t : ℕ) (s : Store D) → Reads m s tt (r.start t s)
  pub commit : (t : ℕ) (s : Store D) → Reads m s tt (r.commit t s)
