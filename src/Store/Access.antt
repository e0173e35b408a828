-- ===== src/Store/Access.antt =====
-- libklio/store.cpp: readings go to the buffer, and are written before anything is read. `now` is
-- what the clock shows at the call.
pub mod Seen
pub mod Lookup
pub mod Indexed
use libklio.Prelude.{ℕ, true, [], ◌∷◌}
use libklio.Exec.{Exec, pure, modify, ◌>>=◌, ◌>>◌}
use libklio.OrdMap
use libklio.Time.{Timestamp, Double, Readings, Reading, timestamp_less}
use libklio.Sensor.{Sensor}
use libklio.Store.{Store, Records, Backend, Operation, insert_operation, update_operation, run}
use libklio.Store.Buffers.{get_buffered_readings, write_buffered}
use libklio.Store.Flush.{flush_sensor, auto_flush}

module _ {D : Type 0} (r : Records D) where
  unfoldable pub add_reading : Sensor → Timestamp → Double → Timestamp → Exec (Store D) Unit
  unfolding get_buffered_readings auto_flush
  add_reading sensor timestamp value now = do
    cached ← get_buffered_readings sensor.uuid insert_operation
    modify (write_buffered sensor.uuid insert_operation (OrdMap.insert timestamp value cached))
    auto_flush r now

  abbrev buffer_some : Sensor → Readings → Operation → Timestamp → Exec (Store D) Unit
  buffer_some sensor readings operation now = do
    cached ← get_buffered_readings sensor.uuid operation
    modify (write_buffered sensor.uuid operation (OrdMap.insert_all readings cached))
    auto_flush r now

  -- add_readings(sensor, readings, operation_type)
  unfoldable pub buffer_readings : Sensor → Readings → Operation → Timestamp → Exec (Store D) Unit
  unfolding get_buffered_readings auto_flush
  buffer_readings sensor [] operation now = pure tt
  buffer_readings sensor (reading ∷ rest) operation now =
      buffer_some sensor (reading ∷ rest) operation now

  unfoldable pub add_readings : Sensor → Readings → Timestamp → Exec (Store D) Unit
  unfolding buffer_readings
  add_readings sensor readings now = buffer_readings sensor readings insert_operation now

  unfoldable pub update_readings : Sensor → Readings → Timestamp → Exec (Store D) Unit
  unfolding buffer_readings
  update_readings sensor readings now = buffer_readings sensor readings update_operation now

  unfoldable pub get_all_readings : Sensor → Exec (Store D) Readings
  unfolding flush_sensor
  get_all_readings sensor = do flush_sensor r sensor true; run (r.get_all_reading_records sensor)

module _ {D : Type 0} (b : Backend D) where
  unfoldable pub get_timeframe_readings : Sensor → Timestamp → Timestamp → Exec (Store D) Readings
  unfolding flush_sensor
  get_timeframe_readings sensor begin end = do
    flush_sensor b.records sensor true
    b.get_timeframe_reading_records sensor begin end

  unfoldable pub get_num_readings : Sensor → Exec (Store D) ℕ
  unfolding flush_sensor
  get_num_readings sensor = do flush_sensor b.records sensor true; b.get_num_readings_value sensor

  unfoldable pub get_last_reading : Sensor → Exec (Store D) Reading
  unfolding flush_sensor
  get_last_reading sensor = do flush_sensor b.records sensor true; b.get_last_reading_record sensor

  unfoldable pub get_reading : Sensor → Timestamp → Exec (Store D) Reading
  unfolding flush_sensor
  get_reading sensor timestamp = do
    flush_sensor b.records sensor true
    b.get_reading_record sensor timestamp
