-- ===== src/Tests/Memory.antt =====
-- A database in memory that keeps the first reading of a timestamp, for tests.
use libklio.Prelude.{true, Option, none, some, [], ◌∷◌}
use libklio.Prelude.{nat_eq}
use libklio.Prelude.Int.{pos}
use libklio.Exec.{ok}
use libklio.HashMap
use libklio.HashMap.{HashMap, find-assign}
use libklio.OrdMap
use libklio.Time.{Readings, timestamp_less}
use libklio.Sensor.{Sensor, Uuid}
use libklio.DeviceType.{unknown_device}
use libklio.Store.{Store, Records, Backend, Operations}
use libklio.Store.Reliable.{keep_old, put_all}

abbrev pub Db : Type 0
Db = HashMap Uuid Readings

abbrev or_empty : Option Readings → Readings
or_empty none = []
or_empty (some readings) = readings

unfoldable pub readings_at : Db → Uuid → Readings
readings_at d u = or_empty (HashMap.find u d)

abbrev pub write : Uuid → Readings → Db → Db
write u readings d = HashMap.assign u readings d

abbrev pub memory : Records Db
memory = record {
  get_transaction_handler = λ s. (ok (some 0), s.db);
  pending = λ t s. true;
  start = λ t s. (ok tt, s.db);
  commit = λ t s. (ok tt, s.db);
  rollback = λ t s. (ok tt, s.db);
  add_sensor_record = λ x s. (ok tt, write x.uuid [] s.db);
  remove_sensor_record = λ x s. (ok tt, HashMap.erase x.uuid s.db);
  update_sensor_record = λ x s. (ok tt, s.db);
  add_single_reading_record = λ x t v ignore s.
      (ok tt, write x.uuid (put_all keep_old ((t, v) ∷ []) (readings_at s.db x.uuid)) s.db);
  add_bulk_reading_records = λ x readings ignore s.
      (ok tt, write x.uuid (put_all keep_old readings (readings_at s.db x.uuid)) s.db);
  update_reading_records = λ x readings ignore s.
      (ok tt, write x.uuid (OrdMap.assign_all readings (readings_at s.db x.uuid)) s.db);
  get_sensor_records = λ s. (ok [], s.db);
  get_all_reading_records = λ x s. (ok (readings_at s.db x.uuid), s.db);
}

abbrev pub kitchen : Sensor
kitchen = record {
  uuid = 7;
  external_id = "k1";
  name = "kitchen";
  description = "power";
  unit = "watt";
  timezone = "Europe/Berlin";
  device_type = unknown_device;
}

abbrev pub pending : Operations
pending = record { inserts = (pos 10, 1) ∷ (pos 20, 2) ∷ []; updates = (pos 20, 5) ∷ [] }

-- One sensor with pending operations, bulks of two readings, a flush after 600 seconds.
abbrev pub small : Store Db
small = record {
  auto_commit = true;
  auto_flush = true;
  flush_timeout = pos 600;
  last_flush = pos 0;
  min_bulk_size = 1;
  max_bulk_size = 2;
  sensors_buffer = (7, some kitchen) ∷ [];
  reading_operations_buffer = (7, pending) ∷ [];
  external_ids_buffer = ("k1", 7) ∷ [];
  db = (7, (pos 10, 9) ∷ []) ∷ [];
}

abbrev pub memory_backend : Backend Db
memory_backend = record {
  records = memory;
  prepare = λ s. (ok tt, s);
  clear_buffers = λ s. s;
  get_timeframe_reading_records = λ x begin end s. (ok [], s);
  get_last_reading_record = λ x s. (ok (pos 0, 0), s);
  get_reading_record = λ x t s. (ok (pos 0, 0), s);
  get_num_readings_value = λ x s. (ok 0, s);
}
