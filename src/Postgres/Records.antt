-- ===== src/Postgres/Records.antt =====
-- libklio/postgresql/postgresql-store.cpp: the records. The loops that clear the waiting results go over
-- at most `fuel` of them.
use Prim.Native.String.{◌++◌}
use libklio.Prelude.{ℕ, zero, suc, ◌-◌, ◌^◌, Bool, String, List, [], ◌∷◌, nat_eq, if◌then◌else◌}
use libklio.Prelude.Int.{ℤ, pos, negsuc}
use libklio.Exec.{
  Exec, Result, ok, err, pure, throw, modify, ◌>>=◌, ◌>>◌, catching, store_exception, std_exception,
  undefined_behaviour,
}
use libklio.OrdMap
use libklio.Time.{
  Timestamp, Double, Readings, Reading, timestamp_less, convert_to_epoch, convert_from_epoch,
}
use libklio.DeviceType.{DeviceType, get_by_id}
use libklio.Sensor.{Sensor, Library, uuid_string, create_sensor_from_text}
use libklio.Postgres.{
  Api, Members, tuples_ok, copy_in, call, clear, check_code, execute, execute_prepared, with_result,
  clear_results,
}

-- Store::handle_reading_insertion_error
abbrev pub handle_insertion_error : {W : Type 0} → Bool → Exec (Members W) Unit
handle_insertion_error ignore_errors = if ignore_errors then pure tt else throw store_exception

module _ {W : Type 0} (api : Api W) (l : Library) where
  abbrev expired_texts : List String → W → List String
  expired_texts [] w = []
  expired_texts (text ∷ rest) w = api.expired text w ∷ expired_texts rest w

  -- Every parameter points into a string that is destroyed before the statement is executed.
  abbrev sensor_params : Sensor → W → List String
  sensor_params sensor = expired_texts (
      uuid_string l sensor
      ∷ sensor.external_id
      ∷ sensor.name
      ∷ sensor.description
      ∷ sensor.unit
      ∷ sensor.timezone
      ∷ api.time_to_string sensor.device_type.id
      ∷ [])

  unfoldable pub add_sensor_record : Sensor → Exec (Members W) Unit
  unfolding execute
  add_sensor_record sensor s = execute api "INSERT_SENSOR" (sensor_params sensor s.world) s

  unfoldable pub remove_sensor_record : Sensor → Exec (Members W) Unit
  unfolding execute
  remove_sensor_record sensor s =
      execute api "DELETE_SENSOR" (expired_texts (uuid_string l sensor ∷ []) s.world) s

  unfoldable pub update_sensor_record : Sensor → Exec (Members W) Unit
  unfolding execute
  update_sensor_record sensor s = execute api "UPDATE_SENSOR" (sensor_params sensor s.world) s

  -- A `try` block with a result: it is cleared at the end and by the handler, whose `throw e` makes a
  -- std::exception of a copy.
  abbrev sliced : {A : Type 0} → ℕ → Exec (Members W) A → Exec (Members W) A
  sliced result body =
      catching (do a ← body; modify (clear api result); pure a)
        (λ e. do modify (clear api result); throw std_exception)

  abbrev query : {A : Type 0} → String → List String → (ℕ → Exec (Members W) A) → Exec (Members W) A
  query statement_name params body s =
      with_result api (λ result. sliced result (body result))
        (execute_prepared api statement_name params tuples_ok s)

  -- The conversion of a `long` to an `unsigned long`, and of that to an `int` and back to a `long`.
  abbrev to_unsigned : ℤ → ℕ
  to_unsigned (pos n) = n
  to_unsigned (negsuc n) = 2 ^ 64 - 1 - n

  abbrev value_at : ℕ → ℕ → ℕ → W → String
  value_at result row col w = api.getvalue result row col w

  abbrev sensor_of : Result DeviceType → ℕ → ℕ → W → Result Sensor
  sensor_of (err e) result row w = err e
  sensor_of (ok device_type) result row w =
      create_sensor_from_text l (value_at result row 0 w) (value_at result row 1 w)
        (value_at result row 2 w) (value_at result row 3 w) (value_at result row 4 w)
        (value_at result row 5 w) device_type

  -- The conversions of the id through `unsigned long` change no id of 32 bits.
  unfoldable pub parse_sensor : ℕ → ℕ → W → Result Sensor
  unfolding create_sensor_from_text
  parse_sensor result row w =
      sensor_of (get_by_id (api.atol (value_at result row 6 w))) result row w

  -- for (int row = 0; row < num_rows; row++), with the rows that are left
  unfoldable pub parse_sensors : ℕ → ℕ → ℕ → Exec (Members W) (List Sensor)
  unfolding parse_sensor
  parse_sensors result row zero = pure []
  parse_sensors result row (suc left) = do
    sensor ← λ s. (parse_sensor result row s.world, s)
    sensors ← parse_sensors result (suc row) left
    pure (sensor ∷ sensors)

  unfoldable pub get_sensor_records : Exec (Members W) (List Sensor)
  unfolding execute_prepared clear parse_sensors
  get_sensor_records =
      query "SELECT_SENSORS" [] λ result s. parse_sensors result 0 (api.ntuples result s.world) s

  -- A timestamp passes through `unsigned long` and is the same `long` after it.
  unfoldable pub parse_reading : ℕ → ℕ → W → Reading
  parse_reading result row w =
      (convert_from_epoch (api.atol (value_at result row 0 w)), api.atof (value_at result row 1 w))

  unfoldable pub parse_readings : ℕ → ℕ → ℕ → Readings → W → Readings
  unfolding parse_reading
  parse_readings result row zero readings w = readings
  parse_readings result row (suc left) readings w =
      let (timestamp, value) = parse_reading result row w in
      parse_readings result (suc row) left (OrdMap.insert timestamp value readings) w

  unfoldable pub get_reading_records : ℕ → String → List String → Exec (Members W) Readings
  unfolding clear_results execute_prepared clear parse_readings
  get_reading_records fuel statement_name params = do
    clear_results api fuel
    query statement_name params
        λ result s. (ok (parse_readings result 0 (api.ntuples result s.world) [] s.world), s)

  abbrev select_with : ℕ → String → List String → Exec (Members W) Readings
  select_with fuel statement_name texts s =
      get_reading_records fuel statement_name (expired_texts texts s.world) s

  unfoldable pub get_all_reading_records : ℕ → Sensor → Exec (Members W) Readings
  unfolding get_reading_records
  get_all_reading_records fuel sensor =
      select_with fuel "SELECT_READINGS" (uuid_string l sensor ∷ [])

  unfoldable pub get_timeframe_reading_records :
      ℕ → Sensor → Timestamp → Timestamp → Exec (Members W) Readings
  unfolding get_reading_records
  get_timeframe_reading_records fuel sensor begin end =
      select_with fuel "SELECT_TIMEFRAME_READINGS"
        (uuid_string l sensor ∷ api.time_to_string begin ∷ api.time_to_string end ∷ [])

  unfoldable pub get_num_readings_value : Sensor → Exec (Members W) ℕ
  unfolding execute_prepared clear
  get_num_readings_value sensor s =
      query "COUNT_READINGS" (expired_texts (uuid_string l sensor ∷ []) s.world)
        (λ result s'. (ok (to_unsigned (api.atol (value_at result 0 0 s'.world))), s')) s

  -- `*begin()` of a map without a reading has no meaning.
  abbrev first_reading : Readings → Result Reading
  first_reading [] = err undefined_behaviour
  first_reading (reading ∷ rest) = ok reading

  unfoldable pub get_last_reading_record : ℕ → Sensor → Exec (Members W) Reading
  unfolding get_reading_records
  get_last_reading_record fuel sensor = do
    readings ← select_with fuel "SELECT_LAST_READING" (uuid_string l sensor ∷ [])
    λ s. (first_reading readings, s)

  unfoldable pub get_reading_record : ℕ → Sensor → Timestamp → Exec (Members W) Reading
  unfolding get_reading_records
  get_reading_record fuel sensor timestamp = do
    readings ←
        select_with fuel "SELECT_READING" (uuid_string l sensor ∷ api.time_to_string timestamp ∷ [])
    λ s. (first_reading readings, s)

  -- The uuid is the text that a pointer into a destroyed string leads to.
  abbrev write_reading : String → Sensor → Timestamp → Double → Bool → Exec (Members W) Unit
  write_reading statement_name sensor timestamp value ignore_errors s =
      catching
        (execute api statement_name (
          api.expired (uuid_string l sensor) s.world
          ∷ api.time_to_string (convert_to_epoch timestamp)
          ∷ api.double_to_string value
          ∷ []))
        (λ e. handle_insertion_error ignore_errors) s

  unfoldable pub add_single_reading_record :
      Sensor → Timestamp → Double → Bool → Exec (Members W) Unit
  unfolding execute
  add_single_reading_record = write_reading "INSERT_READING"

  unfoldable pub update_reading_records : Sensor → Readings → Bool → Exec (Members W) Unit
  unfolding execute
  update_reading_records sensor [] ignore_errors = pure tt
  update_reading_records sensor ((t, v) ∷ rest) ignore_errors = do
    write_reading "UPDATE_READING" sensor t v ignore_errors
    update_reading_records sensor rest ignore_errors

  unfoldable pub copy_lines : Sensor → Readings → String
  copy_lines sensor [] = ""
  copy_lines sensor ((t, v) ∷ rest) =
      uuid_string l sensor
      ++ (","
          ++ (api.time_to_string (convert_to_epoch t)
              ++ ("," ++ (api.stream_double v ++ ("\n" ++ copy_lines sensor rest)))))

  -- The `try` block; before the result is assigned and after it is cleared, the handler clears NULL.
  abbrev copy_readings : String → Exec (Members W) Unit
  copy_readings buffer = do
    result ← execute_prepared api "COPY_READINGS" [] copy_in
    modify (clear api result)
    code ← call λ s. api.put_copy_data s.connection buffer
    check_code code
    end ← call λ s. api.put_copy_end s.connection
    check_code end

  unfoldable pub add_bulk_reading_records : ℕ → Sensor → Readings → Bool → Exec (Members W) Unit
  unfolding clear_results execute_prepared clear check_code copy_lines
  add_bulk_reading_records fuel sensor readings ignore_errors = do
    clear_results api fuel
    catching (copy_readings (copy_lines sensor readings))
        (λ e. handle_insertion_error ignore_errors)
