-- ===== src/Sqlite3/SensorRecords.antt =====
-- libklio/sqlite3/sqlite3-store.cpp: the records of the sensors.
use Prim.Native.String.{◌++◌}
use libklio.Prelude.{
  ℕ, zero, suc, Option, none, some, String, List, [], ◌∷◌, ◌==◌, nat_eq, string_eq, if◌then◌else◌,
}
use libklio.Exec.{
  Exec, Result, ok, err, pure, throw, modify, ◌>>=◌, ◌>>◌, finally, undefined_behaviour,
  out_of_fuel,
}
use libklio.DeviceType.{DeviceType, get_by_id}
use libklio.Sensor.{Sensor, Library, uuid_string, create_sensor_from_text}
use libklio.Sqlite3.{
  Api, Members, Pointer, sqlite_row, sqlite_done, act, reset, finalize, prepare_statement, execute,
}

module _ {W : Type 0} (api : Api W) where
  -- A prepared statement is bound, executed and reset.
  abbrev pub run_prepared : Pointer → (Pointer → W → W) → Exec (Members W) Unit
  run_prepared stmt bind =
      finally (do modify (act (bind stmt)); execute api stmt sqlite_done) (reset api stmt)

  -- A statement that is prepared, executed and finalized.
  abbrev pub run_text : String → Exec (Members W) Unit
  run_text sql = do
    stmt ← prepare_statement api sql
    finally (execute api stmt sqlite_done) (finalize api stmt)

module _ {W : Type 0} (api : Api W) (l : Library) where
  -- The parameters of the statement that inserts a sensor, and of the one that updates it.
  abbrev pub bind_sensor : Sensor → Pointer → W → W
  bind_sensor sensor stmt w0 =
      let w1 = api.bind_text stmt 1 (uuid_string l sensor) w0 in
      let w2 = api.bind_text stmt 2 sensor.external_id w1 in
      let w3 = api.bind_text stmt 3 sensor.name w2 in
      let w4 = api.bind_text stmt 4 sensor.description w3 in
      let w5 = api.bind_text stmt 5 sensor.unit w4 in
      let w6 = api.bind_text stmt 6 sensor.timezone w5 in
      api.bind_int stmt 7 sensor.device_type.id w6

  unfoldable pub add_sensor_record : Sensor → Exec (Members W) Unit
  unfolding execute prepare_statement
  add_sensor_record sensor = do
    λ s. run_prepared api s.prepared.insert_sensor_stmt (bind_sensor sensor) s
    run_text api (
        "CREATE TABLE '"
        ++ uuid_string l sensor
        ++ "'(timestamp INTEGER PRIMARY KEY, value DOUBLE)")

  unfoldable pub remove_sensor_record : Sensor → Exec (Members W) Unit
  unfolding execute prepare_statement
  remove_sensor_record sensor = do
    λ s.
        run_prepared api s.prepared.remove_sensor_stmt
          (λ stmt. api.bind_text stmt 1 (uuid_string l sensor)) s
    run_text api ("DROP TABLE '" ++ uuid_string l sensor ++ "'")

  unfoldable pub update_sensor_record : Sensor → Exec (Members W) Unit
  unfolding execute
  update_sensor_record sensor s =
      run_prepared api s.prepared.update_sensor_stmt (bind_sensor sensor) s

  -- A text of a row; `std::string` of a null pointer has no meaning.
  abbrev with_text : {A : Type 0} → Option String → (String → Result A) → Result A
  with_text none next = err undefined_behaviour
  with_text (some text) next = next text

  abbrev with_type : Result DeviceType → (DeviceType → Result Sensor) → Result Sensor
  with_type (ok device_type) next = next device_type
  with_type (err e) next = err e

  unfoldable pub parse_sensor : Pointer → W → Result Sensor
  parse_sensor stmt w = with_text (api.column_text stmt 0 w) λ uuid.
      with_text (api.column_text stmt 1 w) λ external_id.
        with_text (api.column_text stmt 2 w) λ name.
          with_text (api.column_text stmt 3 w) λ description.
            with_text (api.column_text stmt 4 w) λ unit.
              with_text (api.column_text stmt 5 w) λ timezone.
                with_type (get_by_id (api.column_int stmt 6 w))
                  (create_sensor_from_text l uuid external_id name description unit timezone)

  abbrev row_and_rest :
      ℕ × W → Pointer → Exec (Members W) (List Sensor) → Exec (Members W) (List Sensor)
  row_and_rest (code, w) stmt rest s =
      (if code == sqlite_row
          then (do
            sensor ← λ s'. (parse_sensor stmt s'.world, s')
            sensors ← rest
            pure (sensor ∷ sensors))
          else pure [])
        (record s { world = w })

  -- The loop of get_sensor_records, over at most `fuel` rows.
  unfoldable pub read_sensors : ℕ → Pointer → Exec (Members W) (List Sensor)
  unfolding parse_sensor
  read_sensors zero stmt = throw out_of_fuel
  read_sensors (suc fuel) stmt =
      λ s. row_and_rest (api.step stmt s.world) stmt (read_sensors fuel stmt) s

  unfoldable pub get_sensor_records : ℕ → Exec (Members W) (List Sensor)
  unfolding read_sensors
  get_sensor_records fuel s =
      finally (read_sensors fuel s.prepared.select_sensors_stmt)
        (reset api s.prepared.select_sensors_stmt) s
