-- ===== src/Store/Buffers.antt =====
-- libklio/store.cpp: the buffers of sensors, of external ids and of pending reading operations.
pub mod Lookups
pub mod Index
pub mod Preserved
use libklio.Prelude.{Option, none, some, List, [], ◌∷◌, nat_eq, string_eq, if◌then◌else◌}
use libklio.Exec.{Exec, pure, throw, ◌>>=◌, store_exception}
use libklio.Exec.{undefined_behaviour, std_exception}
use libklio.HashMap
use libklio.HashMap.{HashMap}
use libklio.Time.{Readings}
use libklio.Sensor.{Sensor, Uuid}
use libklio.Store.{Store, Operation, Operations, no_operations, at, replace}

-- A sensor that takes over an external id takes the pending readings of its former owner too, and
-- then drops the entry of that owner, which may be the sensor itself.
abbrev take_over : Uuid → Uuid → HashMap Uuid Operations → HashMap Uuid Operations
take_over uuid other buffer = elim (HashMap.find other buffer) [
  | none ↦ buffer
  | some ops ↦ HashMap.erase other (HashMap.assign uuid ops buffer)
]

abbrev ensure_operations : Uuid → HashMap Uuid Operations → HashMap Uuid Operations
ensure_operations uuid buffer =
    if HashMap.contains uuid buffer then buffer else HashMap.assign uuid no_operations buffer

module _ {D : Type 0} where
  abbrev evict : Uuid → Option Uuid → Store D → Store D
  evict uuid none s = s
  evict uuid (some other) s = record s {
    sensors_buffer = HashMap.erase other s.sensors_buffer;
    reading_operations_buffer = take_over uuid other s.reading_operations_buffer;
  }

  abbrev enter : Sensor → Store D → Store D
  enter sensor s = record s {
    sensors_buffer = HashMap.assign sensor.uuid (some sensor) s.sensors_buffer;
    reading_operations_buffer = ensure_operations sensor.uuid s.reading_operations_buffer;
    external_ids_buffer = HashMap.assign sensor.external_id sensor.uuid s.external_ids_buffer;
  }

  unfoldable pub set_buffers : Sensor → Store D → Store D
  set_buffers sensor s =
      enter sensor (evict sensor.uuid (HashMap.find sensor.external_id s.external_ids_buffer) s)

  -- clear_buffers(sensor)
  unfoldable pub forget_sensor : Sensor → Store D → Store D
  forget_sensor sensor s = record s {
    sensors_buffer = HashMap.erase sensor.uuid s.sensors_buffer;
    external_ids_buffer = HashMap.erase sensor.external_id s.external_ids_buffer;
    reading_operations_buffer = HashMap.erase sensor.uuid s.reading_operations_buffer;
  }

  -- Store::clear_buffers()
  unfoldable pub clear_buffers : Store D → Store D
  clear_buffers s = record s {
    sensors_buffer = [];
    external_ids_buffer = [];
    reading_operations_buffer = [];
  }

  -- `prepare`, after the records of the sensors have been read
  unfoldable pub set_all_buffers : List Sensor → Store D → Store D
  set_all_buffers [] s = s
  set_all_buffers (sensor ∷ rest) s = set_all_buffers rest (set_buffers sensor s)

  or_not_found : {A : Type 0} → Option A → Exec (Store D) A
  or_not_found none = throw store_exception
  or_not_found (some a) = pure a

  unfoldable pub get_sensor : Uuid → Exec (Store D) (Option Sensor)
  unfolding or_not_found
  get_sensor uuid s = or_not_found (HashMap.find uuid s.sensors_buffer) s

  or_null : {A : Type 0} → Option A → Exec (Store D) A
  or_null none = throw undefined_behaviour
  or_null (some a) = pure a

  or_out_of_range : Option Readings → Exec (Store D) Readings
  or_out_of_range none = throw std_exception
  or_out_of_range (some r) = pure r

  -- The map that the returned pointer leads to; `write_buffered` writes through the pointer.
  unfoldable pub get_buffered_readings : Uuid → Operation → Exec (Store D) Readings
  unfolding get_sensor or_null or_out_of_range
  get_buffered_readings uuid operation = do
    sensor ← get_sensor uuid
    cached ← λ s. or_null (HashMap.find uuid s.reading_operations_buffer) s
    or_out_of_range (at operation cached)

  abbrev write_at : Uuid → Operation → Readings → Option Operations → Store D → Store D
  write_at uuid operation readings none s = s
  write_at uuid operation readings (some ops) s = record s {
    reading_operations_buffer =
        HashMap.assign uuid (replace operation readings ops) s.reading_operations_buffer;
  }

  unfoldable pub write_buffered : Uuid → Operation → Readings → Store D → Store D
  write_buffered uuid operation readings s =
      write_at uuid operation readings (HashMap.find uuid s.reading_operations_buffer) s
