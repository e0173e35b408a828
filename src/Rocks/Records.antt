-- ===== src/Rocks/Records.antt =====
-- libklio/rocksdb/rocksdb-store.cpp: the records of sensors and readings.
use libklio.Prelude.{
  ℕ, Bool, true, false, Option, none, some, String, List, [], ◌∷◌, map, string_eq, length,
  if◌then◌else◌,
}
use libklio.Exec.{
  Exec, Result, ok, err, pure, throw, modify, ◌>>=◌, ◌>>◌, catching, store_exception,
  undefined_behaviour,
}
use libklio.OrdMap
use libklio.Time.{Timestamp, Double, Readings, Reading, timestamp_less, convert_from_epoch}
use libklio.DeviceType.{unknown_device}
use libklio.Sensor.{Sensor, Library, Uuid, uuid_string, create_sensor}
use libklio.Store.{Store, Records, Backend, run}
use libklio.Store.Buffers
use libklio.Store.Flush
use libklio.Store.Access.{get_all_readings}
use libklio.Txt.{find_reading}
use libklio.Rocks.{
  Api, Members, open_db, remove_db, put_value, get_value, write_batch, create_directory,
  delete_directory, ensure_entry, db_at, compose_sensor_path, compose_sensor_properties_path,
  compose_sensor_readings_path, compose_sensors_path,
}

abbrev pub on_rocks : {W A : Type 0} → Exec (Members W) A → Exec (Store (Members W)) A
on_rocks f = run λ s. f s.db

-- Store::handle_reading_insertion_error
abbrev pub handle_error : {W : Type 0} → Bool → Exec (Members W) Unit
handle_error ignore_errors = if ignore_errors then pure tt else throw store_exception

module _ {W : Type 0} (api : Api W) (l : Library) where
  unfoldable pub put_sensor : Bool → Sensor → Exec (Members W) Unit
  unfolding open_db
  put_sensor create sensor = do
    db ← λ s. open_db api create create (compose_sensor_properties_path (uuid_string l sensor) s) s
    put_value api db "external_id" sensor.external_id
    put_value api db "name" sensor.name
    put_value api db "description" sensor.description
    put_value api db "unit" sensor.unit
    put_value api db "timezone" sensor.timezone

  unfoldable pub add_sensor_record : Sensor → Exec (Members W) Unit
  unfolding put_sensor
  add_sensor_record sensor = do
    λ s. create_directory api (compose_sensor_path (uuid_string l sensor) s) s
    λ s. create_directory api (compose_sensor_properties_path (uuid_string l sensor) s) s
    λ s. create_directory api (compose_sensor_readings_path (uuid_string l sensor) s) s
    put_sensor true sensor

  unfoldable pub remove_sensor_record : Sensor → Exec (Members W) Unit
  unfolding remove_db
  remove_sensor_record sensor = do
    modify λ s. remove_db api (compose_sensor_properties_path (uuid_string l sensor) s) s
    modify λ s. remove_db api (compose_sensor_readings_path (uuid_string l sensor) s) s
    modify λ s. delete_directory api (compose_sensor_path (uuid_string l sensor) s) s

  unfoldable pub update_sensor_record : Sensor → Exec (Members W) Unit
  unfolding put_sensor
  update_sensor_record sensor = put_sensor false sensor

  abbrev pub read_properties : Uuid → Option ℕ → Exec (Members W) Sensor
  read_properties uuid none = throw store_exception
  read_properties uuid (some db) = do
    external_id ← get_value api db "external_id"
    name ← get_value api db "name"
    description ← get_value api db "description"
    unit ← get_value api db "unit"
    timezone ← get_value api db "timezone"
    λ s. (create_sensor l uuid external_id name description unit timezone unknown_device, s)

  -- A sensor whose database is not open is an exception.
  abbrev pub read_sensor : Uuid → Exec (Members W) Sensor
  read_sensor uuid s =
      let db_path = compose_sensor_properties_path (l.to_string uuid) s in
      read_properties uuid (db_at db_path s) (ensure_entry db_path s)

  unfoldable pub read_directory : List String → Exec (Members W) (List Sensor)
  unfolding create_sensor
  read_directory [] = pure []
  read_directory (filename ∷ rest) = do
    sensor ← read_sensor (l.read_uuid filename)
    sensors ← read_directory rest
    pure (sensor ∷ sensors)

  unfoldable pub get_sensor_records : Exec (Members W) (List Sensor)
  unfolding read_directory
  get_sensor_records = do
    filenames ← λ s. (api.directory (compose_sensors_path s) s.world, s)
    read_directory filenames

  -- open_db(true, false, compose_sensor_readings_path(sensor->uuid_string()))
  unfoldable pub open_readings : Sensor → Exec (Members W) ℕ
  unfolding open_db
  open_readings sensor s =
      open_db api true false (compose_sensor_readings_path (uuid_string l sensor) s) s

  unfoldable pub collect_entries : List (String × String) → Readings → Readings
  collect_entries [] readings = readings
  collect_entries ((epoch, value) ∷ rest) readings =
      collect_entries rest
        (OrdMap.insert (convert_from_epoch (api.atol epoch)) (api.atof value) readings)

  unfoldable pub get_all_reading_records : Sensor → Exec (Members W) Readings
  unfolding open_readings collect_entries
  get_all_reading_records sensor = do
    db ← open_readings sensor
    λ s. (ok (collect_entries (api.entries db s.world) []), s)

  -- `epoch` and `value` point into texts that are gone when they are read.
  abbrev select_entries : List (String × String) → Result Readings
  select_entries [] = ok []
  select_entries (entry ∷ rest) = err undefined_behaviour

  unfoldable pub get_timeframe_reading_records :
      Sensor → Timestamp → Timestamp → Exec (Members W) Readings
  unfolding open_readings
  get_timeframe_reading_records sensor begin end = do
    db ← open_readings sensor
    λ s. (select_entries (api.entries db s.world), s)

  -- The same pointers; without an entry, the iterator is not valid.
  unfoldable pub get_last_reading_record : Sensor → Exec (Members W) Reading
  unfolding open_readings
  get_last_reading_record sensor = do db ← open_readings sensor; throw undefined_behaviour

  unfoldable pub add_single_reading_record :
      Sensor → Timestamp → Double → Bool → Exec (Members W) Unit
  unfolding open_readings
  add_single_reading_record sensor timestamp value ignore_errors = do
    db ← open_readings sensor
    catching (put_value api db (api.time_to_string timestamp) (api.double_to_string value))
        (λ e. handle_error ignore_errors)

  abbrev put_in_batch : Timestamp × Double → String × String
  put_in_batch (timestamp, value) = (api.time_to_string timestamp, api.double_to_string value)

  -- `batch.Put` throws nothing.
  unfoldable pub add_bulk_reading_records : Sensor → Readings → Bool → Exec (Members W) Unit
  unfolding open_readings
  add_bulk_reading_records sensor readings ignore_errors = do
    db ← open_readings sensor
    catching (write_batch api db (map put_in_batch readings)) (λ e. handle_error ignore_errors)

  unfoldable pub update_reading_records : Sensor → Readings → Bool → Exec (Members W) Unit
  unfolding add_bulk_reading_records
  update_reading_records sensor readings ignore_errors =
      add_bulk_reading_records sensor readings ignore_errors

  -- The handlers are those of `Store`: there are none.
  unfoldable pub rocks_records : Records (Members W)
  unfolding add_sensor_record remove_sensor_record update_sensor_record add_single_reading_record
      add_bulk_reading_records update_reading_records get_sensor_records get_all_reading_records
  rocks_records = record {
    get_transaction_handler = λ s. (ok none, s.db);
    pending = λ t s. false;
    start = λ t s. (ok tt, s.db);
    commit = λ t s. (ok tt, s.db);
    rollback = λ t s. (ok tt, s.db);
    add_sensor_record = λ sensor s. add_sensor_record sensor s.db;
    remove_sensor_record = λ sensor s. remove_sensor_record sensor s.db;
    update_sensor_record = λ sensor s. update_sensor_record sensor s.db;
    add_single_reading_record = λ sensor t v i s. add_single_reading_record sensor t v i s.db;
    add_bulk_reading_records = λ sensor r i s. add_bulk_reading_records sensor r i s.db;
    update_reading_records = λ sensor r i s. update_reading_records sensor r i s.db;
    get_sensor_records = λ s. get_sensor_records s.db;
    get_all_reading_records = λ sensor s. get_all_reading_records sensor s.db;
  }

  unfoldable pub get_num_readings_value : Sensor → Exec (Store (Members W)) ℕ
  unfolding get_all_readings rocks_records
  get_num_readings_value sensor = do
    readings ← get_all_readings rocks_records sensor
    pure (length readings)

  unfoldable pub get_reading_record : Sensor → Timestamp → Exec (Store (Members W)) Reading
  unfolding get_all_readings rocks_records find_reading
  get_reading_record sensor timestamp = do
    readings ← get_all_readings rocks_records sensor
    pure (find_reading timestamp readings)

  -- RocksDBStore::clear_buffers
  unfoldable pub clear_buffers : Store (Members W) → Store (Members W)
  unfolding Buffers.clear_buffers
  clear_buffers s =
      let s' = Buffers.clear_buffers s in record s' { db = record s'.db { db_buffer = [] } }

  unfoldable pub rocks_store : Backend (Members W)
  unfolding rocks_records clear_buffers get_timeframe_reading_records get_last_reading_record
      get_reading_record get_num_readings_value Flush.prepare
  rocks_store = record {
    records = rocks_records;
    prepare = Flush.prepare rocks_records;
    clear_buffers = clear_buffers;
    get_timeframe_reading_records =
        λ sensor begin end. on_rocks (get_timeframe_reading_records sensor begin end);
    get_last_reading_record = λ sensor. on_rocks (get_last_reading_record sensor);
    get_reading_record = get_reading_record;
    get_num_readings_value = get_num_readings_value;
  }
