-- ===== src/Store/Sensors.antt =====
-- libklio/store.cpp: the sensors of a store.
use libklio.Prelude.{
  String, Option, none, some, List, [], ◌∷◌, ◌==◌, nat_eq, string_eq, map, if◌then◌else◌,
}
use libklio.Exec.{Exec, ok, pure, throw, gets, modify, ◌>>=◌, ◌>>◌, undefined_behaviour}
use libklio.HashMap
use libklio.HashMap.{HashMap}
use libklio.Sensor.{Sensor, Uuid}
use libklio.Store.{Store, Records, run}
use libklio.Store.Buffers.{set_buffers, forget_sensor}
use libklio.Store.Transactions.{in_transaction}

module _ {D : Type 0} (r : Records D) where
  unfoldable pub add_sensor : Sensor → Exec (Store D) Unit
  unfolding in_transaction
  add_sensor sensor = do
    in_transaction r (run (r.add_sensor_record sensor))
    modify (set_buffers sensor)

  unfoldable pub remove_sensor : Sensor → Exec (Store D) Unit
  unfolding in_transaction
  remove_sensor sensor = do
    in_transaction r (run (r.remove_sensor_record sensor))
    modify (forget_sensor sensor)

  unfoldable pub update_sensor : Sensor → Exec (Store D) Unit
  unfolding in_transaction
  update_sensor sensor = do
    in_transaction r (run (r.update_sensor_record sensor))
    modify (set_buffers sensor)

  unfoldable pub get_sensors : Exec (Store D) (List Sensor)
  get_sensors = run r.get_sensor_records

module _ {D : Type 0} where
  -- `_sensors_buffer[uuid]` enters a null pointer where the key is missing.
  abbrev pub buffered_sensor : Uuid → Exec (Store D) (Option Sensor)
  buffered_sensor uuid s = elim (HashMap.find uuid s.sensors_buffer) [
    | none ↦ (ok none, record s { sensors_buffer = HashMap.assign uuid none s.sensors_buffer })
    | some sensor ↦ (ok sensor, s)
  ]

  abbrev sensor_at : Option Uuid → Exec (Store D) (List (Option Sensor))
  sensor_at none = pure []
  sensor_at (some uuid) = buffered_sensor uuid >>= λ sensor. pure (sensor ∷ [])

  unfoldable pub get_sensors_by_external_id : String → Exec (Store D) (List (Option Sensor))
  get_sensors_by_external_id external_id s =
      sensor_at (HashMap.find external_id s.external_ids_buffer) s

  named : String → HashMap Uuid (Option Sensor) → Exec (Store D) (List Sensor)
  named name [] = pure []
  named name ((uuid, none) ∷ rest) = throw undefined_behaviour
  named name ((uuid, some sensor) ∷ rest) = named name rest >>= λ sensors.
      pure (if sensor.name == name then sensor ∷ sensors else sensors)

  unfoldable pub get_sensors_by_name : String → Exec (Store D) (List Sensor)
  unfolding named
  get_sensors_by_name name s = named name s.sensors_buffer s

  unfoldable pub get_sensor_uuids : Exec (Store D) (List Uuid)
  get_sensor_uuids = gets (λ s. map (λ e. e.0) s.sensors_buffer)
