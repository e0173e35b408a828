-- ===== src/Txt.antt =====
-- libklio/txt/txt-store.cpp: a store of text files, one line for each record. A stream of the C++
-- library reports a failure by its state and not by an exception, so no `catch` around a write is
-- ever entered, and a file that cannot be read has no lines.
pub mod Files
pub mod Lines
pub mod Updates
pub mod Selections
use Prim.Native.String.{◌++◌}
use libklio.Prelude.{
  ℕ, zero, suc, map, Bool, true, false, String, Option, none, some, List, [], ◌∷◌, ◌&&◌, ◌==◌,
  string_eq, length, if◌then◌else◌,
}
use libklio.Prelude.Int.{ℤ, pos, leb_ℤ, int_eq}
use libklio.Exec.{
  Exec, Result, ok, err, pure, throw, ◌>>=◌, store_exception, std_exception, undefined_behaviour,
}
use libklio.OrdMap
use libklio.OrdMap.{Less}
use libklio.Time.{
  Timestamp, Double, Readings, Reading, timestamp_less, zero_double, convert_from_epoch,
}
use libklio.Sensor.{Sensor, Library, uuid_string, create_sensor_without_device}
use libklio.Store.{Store, Records, Backend, run}
use libklio.Store.Access.{get_all_readings}
use libklio.Store.Buffers.{clear_buffers}
use libklio.Store.Flush.{prepare}
use libklio.Txt.Files.{Disk, Text}
use libklio.Txt.Lines.{LinesByKey, read_lines}

abbrev pub enabled : String
enabled = "1"

abbrev pub not_a_number : String
not_a_number = "nan"

module _ (path : String) where
  abbrev pub compose_sensors_path : String
  compose_sensors_path = path ++ "/sensors"

  abbrev pub compose_sensor_path : String → String
  compose_sensor_path uuid = compose_sensors_path ++ ("/" ++ uuid)

  abbrev pub compose_sensor_properties_path : String → String
  compose_sensor_properties_path uuid = compose_sensor_path uuid ++ "/properties.csv"

  abbrev pub compose_sensor_readings_path : String → String
  compose_sensor_readings_path uuid = compose_sensor_path uuid ++ "/readings.csv"

-- The lines that the loops write: `std::endl` ends each.
module _ (l : Library) (separator : String) where
  abbrev pub save_sensor : Sensor → String
  save_sensor sensor =
      enabled
      ++ (separator
          ++ (uuid_string l sensor
              ++ (separator
                  ++ (sensor.external_id
                      ++ (separator
                          ++ (sensor.name
                              ++ (separator
                                  ++ (sensor.description
                                      ++ (separator
                                          ++ (sensor.unit
                                              ++ (separator ++ sensor.timezone)))))))))))

module _ (x : Text) (separator : String) where
  abbrev pub save_reading : Timestamp → Double → String
  save_reading timestamp value =
      enabled
      ++ (separator ++ (x.long_to_string timestamp ++ (separator ++ x.double_to_string value)))

  unfoldable pub save_readings : Readings → List String
  save_readings [] = []
  save_readings ((t, v) ∷ rest) = save_reading t v ∷ save_readings rest

-- `record.at(n)` of a vector
unfoldable pub field : ℕ → List String → Result String
field n [] = err std_exception
field zero (a ∷ rest) = ok a
field (suc n) (a ∷ rest) = field n rest

abbrev pub then_field : {A : Type 0} → ℕ → List String → (String → Result A) → Result A
then_field n line next = elim (field n line) [ ok a ↦ next a | err e ↦ err e ]

-- begin <= timestamp <= end
unfoldable pub select : Timestamp → Timestamp → Readings → Readings → Readings
select begin end [] selected = selected
select begin end ((t, v) ∷ rest) selected =
    select begin end rest
      (if leb_ℤ begin t && leb_ℤ t end then OrdMap.insert t v selected else selected)

unfoldable pub find_reading : Timestamp → Readings → Reading
find_reading timestamp [] = (pos 0, zero_double)
find_reading timestamp ((t, v) ∷ rest) =
    let later = find_reading timestamp rest in if t == timestamp then (t, v) else later

module _ {F : Type 0} ⦃order : Less String⦄ (disk : Disk F) (x : Text) (l : Library)
    (path separator : String) where
  -- A function of the class goes on where the sensor is as it should be.
  unfoldable pub check_sensor : Sensor → Bool → Store F → Result (Unit {0})
  check_sensor sensor should_exist s =
      if disk.exists (compose_sensor_properties_path path (uuid_string l sensor)) s.db
      then (if should_exist then ok tt else err store_exception)
      else (if should_exist then err store_exception else ok tt)

  abbrev checked : {A : Type 0} → Result (Unit {0}) → Store F → Result A × F → Result A × F
  checked (ok a) s out = out
  checked (err e) s out = (err e, s.db)

  -- create_directory: an exception where it was not created
  unfoldable pub create_directory : String → F → Result (Unit {0}) × F
  create_directory dir f =
      let (created, f') = disk.create_directory dir f in
      (if created then ok tt else err store_exception, f')

  abbrev append_properties : Sensor → Result (Unit {0}) × F → Result (Unit {0}) × F
  append_properties sensor (err e, f) = (err e, f)
  append_properties sensor (ok a, f) = (
    ok tt,
    disk.append (compose_sensor_properties_path path (uuid_string l sensor))
        (save_sensor l separator sensor ∷ []) f,
  )

  unfoldable pub add_sensor_record : Sensor → Store F → Result (Unit {0}) × F
  unfolding check_sensor create_directory
  add_sensor_record sensor s = checked (check_sensor sensor false s) s (
      append_properties sensor
        (create_directory (compose_sensor_path path (uuid_string l sensor)) s.db))

  unfoldable pub remove_sensor_record : Sensor → Store F → Result (Unit {0}) × F
  remove_sensor_record sensor s =
      (ok tt, disk.remove_all (compose_sensor_path path (uuid_string l sensor)) s.db)

  unfoldable pub update_sensor_record : Sensor → Store F → Result (Unit {0}) × F
  unfolding check_sensor
  update_sensor_record sensor s =
      checked (check_sensor sensor true s) s (append_properties sensor (ok tt, s.db))

  abbrev append_readings : Sensor → Readings → Store F → Result (Unit {0}) × F
  append_readings sensor readings s = (
    ok tt,
    disk.append (compose_sensor_readings_path path (uuid_string l sensor))
        (save_readings x separator readings) s.db,
  )

  unfoldable pub add_single_reading_record :
      Sensor → Timestamp → Double → Bool → Store F → Result (Unit {0}) × F
  unfolding check_sensor save_readings
  add_single_reading_record sensor timestamp value ignore_errors s =
      checked (check_sensor sensor true s) s (append_readings sensor ((timestamp, value) ∷ []) s)

  unfoldable pub add_bulk_reading_records :
      Sensor → Readings → Bool → Store F → Result (Unit {0}) × F
  unfolding check_sensor save_readings
  add_bulk_reading_records sensor readings ignore_errors s =
      checked (check_sensor sensor true s) s (append_readings sensor readings s)

  unfoldable pub update_reading_records : Sensor → Readings → Bool → Store F → Result (Unit {0}) × F
  unfolding check_sensor save_readings
  update_reading_records sensor readings ignore_errors s =
      checked (check_sensor sensor true s) s (append_readings sensor readings s)

  abbrev records_of : Option LinesByKey → Result (List (List String))
  records_of none = err store_exception
  records_of (some lines) = ok (map (λ r. r.1) lines)

  unfoldable pub read_records : String → F → Result (List (List String))
  unfolding read_lines
  read_records file f = records_of (read_lines x (disk.lines file f) [])

  abbrev sensor_of : List String → Result Sensor
  sensor_of r = then_field 1 r λ uuid. then_field 2 r λ external_id. then_field 3 r λ name.
      then_field 4 r λ description. then_field 5 r λ unit.
        then_field 6 r
          λ timezone. create_sensor_without_device l uuid external_id name description unit timezone

  unfoldable pub sensors_of : List (List String) → Result (List Sensor)
  unfolding field create_sensor_without_device
  sensors_of [] = ok []
  sensors_of (r ∷ rest) =
      let others = sensors_of rest in
      elim (sensor_of r) [
        | err e ↦ err e
        | ok sensor ↦ elim others [ err e ↦ err e | ok sensors ↦ ok (sensor ∷ sensors) ]
      ]

  abbrev then_read : {A B : Type 0} → Result A → (A → Result B) → Result B
  then_read (ok a) next = next a
  then_read (err e) next = err e

  unfoldable pub get_sensor_records : Store F → Result (List Sensor) × F
  unfolding read_records sensors_of
  get_sensor_records s =
      (then_read (read_records (compose_sensors_path path) s.db) sensors_of, s.db)

  -- A field that is no number leaves the readings as they are.
  abbrev enter_reading : Option Timestamp → Option Double → Readings → Readings
  enter_reading (some t) (some v) readings = OrdMap.insert (convert_from_epoch t) v readings
  enter_reading none v readings = readings
  enter_reading (some t) none readings = readings

  abbrev collect_reading : String → String → Readings → Readings
  collect_reading time value readings =
      if x.contains value not_a_number
      then readings
      else enter_reading (x.long_of_string time) (x.double_of_string value) readings

  -- A record without a third field is an exception; one with it has a second field too.
  unfoldable pub collect_readings : List (List String) → Readings → Result Readings
  unfolding field
  collect_readings [] readings = ok readings
  collect_readings (r ∷ rest) readings = then_field 2 r λ value.
      then_field 1 r
        λ time. collect_readings rest (collect_reading time (x.to_lower value) readings)

  unfoldable pub get_all_reading_records : Sensor → Store F → Result Readings × F
  unfolding check_sensor read_records collect_readings
  get_all_reading_records sensor s = checked (check_sensor sensor true s) s (
    then_read (read_records (compose_sensor_readings_path path (uuid_string l sensor)) s.db)
        (λ found. collect_readings found []),
    s.db,
  )

  -- The handlers are those of `Store`: there are none.
  unfoldable pub txt_records : Records F
  unfolding add_sensor_record remove_sensor_record update_sensor_record add_single_reading_record
      add_bulk_reading_records update_reading_records get_sensor_records get_all_reading_records
  txt_records = record {
    get_transaction_handler = λ s. (ok none, s.db);
    pending = λ t s. false;
    start = λ t s. (ok tt, s.db);
    commit = λ t s. (ok tt, s.db);
    rollback = λ t s. (ok tt, s.db);
    add_sensor_record = add_sensor_record;
    remove_sensor_record = remove_sensor_record;
    update_sensor_record = update_sensor_record;
    add_single_reading_record = add_single_reading_record;
    add_bulk_reading_records = add_bulk_reading_records;
    update_reading_records = update_reading_records;
    get_sensor_records = get_sensor_records;
    get_all_reading_records = get_all_reading_records;
  }

  unfoldable pub get_timeframe_reading_records :
      Sensor → Timestamp → Timestamp → Exec (Store F) Readings
  unfolding get_all_reading_records select
  get_timeframe_reading_records sensor begin end = do
    all ← run (get_all_reading_records sensor)
    pure (select begin end all [])

  unfoldable pub get_num_readings_value : Sensor → Exec (Store F) ℕ
  unfolding get_all_readings txt_records
  get_num_readings_value sensor = do
    readings ← get_all_readings txt_records sensor
    pure (length readings)

  -- `*end()`
  unfoldable pub get_last_reading_record : Sensor → Exec (Store F) Reading
  unfolding get_all_reading_records
  get_last_reading_record sensor = do
    readings ← run (get_all_reading_records sensor)
    throw undefined_behaviour

  unfoldable pub get_reading_record : Sensor → Timestamp → Exec (Store F) Reading
  unfolding get_all_reading_records find_reading
  get_reading_record sensor timestamp = do
    all ← run (get_all_reading_records sensor)
    pure (find_reading timestamp all)

  unfoldable pub txt_store : Backend F
  unfolding txt_records clear_buffers prepare get_timeframe_reading_records get_num_readings_value
      get_last_reading_record get_reading_record
  txt_store = record {
    records = txt_records;
    prepare = prepare txt_records;
    clear_buffers = clear_buffers;
    get_timeframe_reading_records = get_timeframe_reading_records;
    get_last_reading_record = get_last_reading_record;
    get_reading_record = get_reading_record;
    get_num_readings_value = get_num_readings_value;
  }

  -- initialize(): remove_all, then both directories
  unfoldable pub initialize : F → Result (Unit {0}) × F
  unfolding create_directory
  initialize f = then_create (create_directory path (disk.remove_all path f))
    where
      then_create : Result (Unit {0}) × F → Result (Unit {0}) × F
      then_create (err e, f') = (err e, f')
      then_create (ok a, f') = create_directory (compose_sensors_path path) f'

  unfoldable pub dispose : F → F
  dispose f = disk.remove_all path f

  -- Reading a uuid throws no exception, so the loop over the entries has no effect.
  unfoldable pub check_integrity : F → Result (Unit {0})
  check_integrity f =
      if disk.exists (compose_sensors_path path) f then ok tt else err store_exception
