-- ===== src/Store/Sync.antt =====
-- libklio/store.cpp: copying the sensors and readings of another store into this one. The other
-- store is another object; `clock` gives what the clock shows at each turn of the loop.
pub mod Known
use libklio.Prelude.{
  ℕ, zero, suc, Bool, Option, none, some, List, [], ◌∷◌, ◌||◌, not, ◌==◌, nat_eq, string_eq,
  if◌then◌else◌,
}
use libklio.Exec.{Exec, Result, ok, err, pure, throw, modify, ◌>>=◌, ◌>>◌, undefined_behaviour}
use libklio.HashMap
use libklio.DeviceType.{same_device}
use libklio.Sensor.{Sensor, Uuid, Library, create_sensor}
use libklio.Time.{Timestamp}
use libklio.Store.{Store, Records, run, update_operation}
use libklio.Store.Buffers.{set_buffers}
use libklio.Store.Transactions.{auto_start_transaction, auto_commit_transaction}
use libklio.Store.Sensors.{get_sensors, buffered_sensor}
use libklio.Store.Access.{get_all_readings, buffer_readings}

-- Any of the properties that the test compares is another.
unfoldable pub properties_changed : Sensor → Sensor → Bool
properties_changed found sensor =
    not (found.name == sensor.name)
    || (not (found.description == sensor.description)
        || (not (found.unit == sensor.unit)
            || (not (found.timezone == sensor.timezone)
                || not (same_device found.device_type sensor.device_type))))

module _ (l : Library) {D : Type 0} (r : Records D) where
  abbrev raise_of : {A : Type 0} → Result A → Exec (Store D) A
  raise_of (ok a) = pure a
  raise_of (err e) = throw e

  abbrev update_if_changed : Option Sensor → Sensor → Sensor → Exec (Store D) Sensor
  update_if_changed none sensor local_sensor = throw undefined_behaviour
  update_if_changed (some found) sensor local_sensor =
      if properties_changed found sensor
      then (run (r.update_sensor_record local_sensor) >> pure local_sensor)
      else pure local_sensor

  abbrev sync_known : Option Uuid → Sensor → Exec (Store D) Sensor
  sync_known none sensor = run (r.add_sensor_record sensor) >> pure sensor
  sync_known (some uuid) sensor = do
    found ← buffered_sensor uuid
    local_sensor ← raise_of (
        create_sensor l uuid sensor.external_id sensor.name sensor.description sensor.unit
          sensor.timezone sensor.device_type)
    update_if_changed found sensor local_sensor

  unfoldable pub sync_sensor_record : Sensor → Exec (Store D) Sensor
  unfolding properties_changed create_sensor
  sync_sensor_record sensor s =
      sync_known (HashMap.find sensor.external_id s.external_ids_buffer) sensor s

module _ {D E : Type 0} where
  abbrev here : {A : Type 0} → Exec (Store D) A → Exec (Store D × Store E) A
  here m (s, o) = let (a, s') = m s in (a, (s', o))

  abbrev there : {A : Type 0} → Exec (Store E) A → Exec (Store D × Store E) A
  there m (s, o) = let (a, o') = m o in (a, (s, o'))

module _ (l : Library) {D E : Type 0} (r : Records D) (other : Records E) where
  unfoldable pub sync_reading_records : Sensor → Timestamp → Exec (Store D × Store E) Unit
  unfolding sync_sensor_record get_all_readings buffer_readings
  sync_reading_records sensor now = do
    readings ← there (get_all_readings other sensor)
    local_sensor ← here (sync_sensor_record l r sensor)
    here (modify (set_buffers local_sensor))
    here (buffer_readings r local_sensor readings update_operation now)

  sync_each : (ℕ → Timestamp) → ℕ → List Sensor → Exec (Store D × Store E) Unit
  unfolding sync_reading_records
  sync_each clock turn [] = pure tt
  sync_each clock turn (sensor ∷ rest) =
      sync_reading_records sensor (clock turn) >> sync_each clock (suc turn) rest

  unfoldable pub sync : (ℕ → Timestamp) → Exec (Store D × Store E) Unit
  unfolding sync_each get_sensors auto_start_transaction auto_commit_transaction
  sync clock = do
    sensors ← there (get_sensors other)
    transaction ← here (auto_start_transaction r)
    sync_each clock zero sensors
    here (auto_commit_transaction r transaction)

  unfoldable pub sync_readings : Sensor → Timestamp → Exec (Store D × Store E) Unit
  unfolding sync_reading_records auto_start_transaction auto_commit_transaction
  sync_readings sensor now = do
    transaction ← here (auto_start_transaction r)
    sync_reading_records sensor now
    here (auto_commit_transaction r transaction)

  sync_each_sensor : List Sensor → Exec (Store D × Store E) Unit
  unfolding sync_sensor_record
  sync_each_sensor [] = pure tt
  sync_each_sensor (sensor ∷ rest) = do
    local_sensor ← here (sync_sensor_record l r sensor)
    here (modify (set_buffers local_sensor))
    sync_each_sensor rest

  unfoldable pub sync_sensors : Exec (Store D × Store E) Unit
  unfolding sync_each_sensor get_sensors auto_start_transaction auto_commit_transaction
  sync_sensors = do
    sensors ← there (get_sensors other)
    transaction ← here (auto_start_transaction r)
    sync_each_sensor sensors
    here (auto_commit_transaction r transaction)
