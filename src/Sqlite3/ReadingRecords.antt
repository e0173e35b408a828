-- ===== src/Sqlite3/ReadingRecords.antt =====
-- libklio/sqlite3/sqlite3-store.cpp: the records of the readings, and the functions that the store
-- calls through its virtual members.
use Prim.Native.String.{◌++◌}
use libklio.Prelude.{
  ℕ, zero, suc, ◌-◌, ◌^◌, Bool, Option, some, String, [], ◌∷◌, ◌==◌, nat_eq, string_eq,
  if◌then◌else◌,
}
use libklio.Prelude.Int.{ℤ, pos, negsuc}
use libklio.Exec.{
  Exec, Result, ok, pure, throw, modify, gets, ◌>>=◌, ◌>>◌, catching, finally, out_of_fuel,
  store_exception,
}
use libklio.OrdMap
use libklio.Time.{
  Timestamp, Double, Readings, Reading, timestamp_less, zero_double, convert_to_epoch,
  convert_from_epoch,
}
use libklio.Sensor.{Sensor, Library, uuid_string}
use libklio.Store.{Store, Records, Backend}
use libklio.Transaction.{sqlite3_start, sqlite3_commit, sqlite3_rollback}
use libklio.Sqlite3.{
  Api, Members, Pointer, to_int, sqlite_row, sqlite_done, act, reset, get_statement, execute, drive,
  pending_at, create_transaction_handler,
}
use libklio.Sqlite3.Connection.{on_members, clear_buffers}
use libklio.Sqlite3.Schema.{prepare}
use libklio.Sqlite3.SensorRecords.{
  add_sensor_record, remove_sensor_record, update_sensor_record, get_sensor_records,
}

-- The conversion of an `int` to an `unsigned long`.
abbrev pub to_unsigned_long : ℤ → ℕ
to_unsigned_long (pos n) = n
to_unsigned_long (negsuc n) = 2 ^ 64 - 1 - n

-- A `std::pair` without a value.
abbrev pub no_reading : Reading
no_reading = (pos 0, zero_double)

module _ {W : Type 0} where
  -- Store::handle_reading_insertion_error
  abbrev pub handle_reading_insertion_error : Bool → Exec (Members W) Unit
  handle_reading_insertion_error ignore_errors =
      if ignore_errors then pure tt else throw store_exception

module _ {W : Type 0} (api : Api W) where
  -- sqlite3_bind_int takes an `int`.
  abbrev pub bind_time : Pointer → ℕ → Timestamp → W → W
  bind_time stmt index time = api.bind_int stmt index (to_int time)

  abbrev pub row : Pointer → W → Reading
  row stmt w = (convert_from_epoch (api.column_int stmt 0 w), api.column_double stmt 1 w)

  abbrev row_and_rest :
      ℕ × W
      → Pointer
      → (Readings → Exec (Members W) Readings)
      → Readings
      → Exec (Members W) Readings
  row_and_rest (code, w) stmt rest readings s =
      (if code == sqlite_row
          then rest (OrdMap.insert (row stmt w).0 (row stmt w).1 readings)
          else pure readings)
        (record s { world = w })

  -- The loop of get_readings_records, over at most `fuel` rows.
  unfoldable pub read_rows : ℕ → Pointer → Readings → Exec (Members W) Readings
  read_rows zero stmt readings = throw out_of_fuel
  read_rows (suc fuel) stmt readings =
      λ s. row_and_rest (api.step stmt s.world) stmt (read_rows fuel stmt) readings s

  unfoldable pub get_readings_records : ℕ → Pointer → Exec (Members W) Readings
  unfolding read_rows
  get_readings_records fuel stmt = read_rows fuel stmt []

  abbrev value_at : {A : Type 0} → (W → A) → A → ℕ × W → Exec (Members W) A
  value_at column default (code, w) s =
      (ok (if code == sqlite_row then column w else default), record s { world = w })

  -- The first row, or the default where there is none.
  abbrev pub first_row : {A : Type 0} → Pointer → (W → A) → A → Exec (Members W) A
  first_row stmt column default s = value_at column default (api.step stmt s.world) s

  -- get_transaction_handler
  unfoldable pub get_transaction_handler : Store (Members W) → Result (Option ℕ) × Members W
  unfolding create_transaction_handler
  get_transaction_handler s =
      (if s.auto_commit
          then (create_transaction_handler api >>= λ t. pure (some t))
          else gets (λ m. m.transaction))
        s.db

module _ {W : Type 0} (api : Api W) (l : Library) where
  abbrev pub select_readings : Sensor → String → String
  select_readings sensor clause =
      "SELECT timestamp, value FROM '" ++ uuid_string l sensor ++ "'" ++ clause

  unfoldable pub get_all_reading_records : ℕ → Sensor → Exec (Members W) Readings
  unfolding get_readings_records get_statement
  get_all_reading_records fuel sensor = do
    stmt ← get_statement api (select_readings sensor "")
    finally (get_readings_records api fuel stmt) (reset api stmt)

  unfoldable pub get_timeframe_reading_records :
      ℕ → Sensor → Timestamp → Timestamp → Exec (Members W) Readings
  unfolding get_readings_records get_statement to_int
  get_timeframe_reading_records fuel sensor begin end = do
    stmt ← get_statement api (select_readings sensor " WHERE timestamp BETWEEN ? AND ?")
    finally
        (do
          modify (act (bind_time api stmt 1 begin))
          modify (act (bind_time api stmt 2 end))
          get_readings_records api fuel stmt)
        (reset api stmt)

  unfoldable pub get_num_readings_value : Sensor → Exec (Members W) ℕ
  unfolding get_statement
  get_num_readings_value sensor = do
    stmt ← get_statement api ("SELECT count(*) FROM '" ++ uuid_string l sensor ++ "'")
    num ← finally (first_row api stmt (api.column_int stmt 0) (pos 0)) (reset api stmt)
    pure (to_unsigned_long num)

  unfoldable pub get_last_reading_record : Sensor → Exec (Members W) Reading
  unfolding get_statement
  get_last_reading_record sensor = do
    stmt ← get_statement api (select_readings sensor " ORDER BY timestamp DESC LIMIT 1")
    finally (first_row api stmt (row api stmt) no_reading) (reset api stmt)

  unfoldable pub get_reading_record : Sensor → Timestamp → Exec (Members W) Reading
  unfolding get_statement to_int
  get_reading_record sensor timestamp = do
    stmt ← get_statement api (select_readings sensor " WHERE timestamp = ?")
    finally
        (do
          modify (act (bind_time api stmt 1 timestamp))
          first_row api stmt (row api stmt) no_reading)
        (reset api stmt)

  unfoldable pub add_reading_record :
      Sensor → Timestamp → Double → String → Bool → Exec (Members W) Unit
  unfolding get_statement execute to_int
  add_reading_record sensor timestamp value operation ignore_errors = do
    stmt ←
        get_statement api
          (operation ++ " INTO '" ++ uuid_string l sensor ++ "' (timestamp, value) VALUES (?, ?)")
    catching
        (do
          modify (act (bind_time api stmt 1 (convert_to_epoch timestamp)))
          modify (act (api.bind_double stmt 2 value))
          execute api stmt sqlite_done
          modify (reset api stmt))
        (λ e. do modify (reset api stmt); handle_reading_insertion_error ignore_errors)

  unfoldable pub add_single_reading_record :
      Sensor → Timestamp → Double → Bool → Exec (Members W) Unit
  unfolding add_reading_record
  add_single_reading_record sensor timestamp value ignore_errors =
      add_reading_record sensor timestamp value "INSERT" ignore_errors

  unfoldable pub add_all_records : Sensor → String → Bool → Readings → Exec (Members W) Unit
  unfolding add_reading_record
  add_all_records sensor operation ignore_errors [] = pure tt
  add_all_records sensor operation ignore_errors ((t, v) ∷ rest) = do
    add_reading_record sensor t v operation ignore_errors
    add_all_records sensor operation ignore_errors rest

  unfoldable pub add_bulk_reading_records : Sensor → Readings → Bool → Exec (Members W) Unit
  unfolding add_all_records
  add_bulk_reading_records sensor readings ignore_errors =
      add_all_records sensor "INSERT" ignore_errors readings

  unfoldable pub update_reading_records : Sensor → Readings → Bool → Exec (Members W) Unit
  unfolding add_all_records
  update_reading_records sensor readings ignore_errors =
      add_all_records sensor "INSERT OR REPLACE" ignore_errors readings

  -- The virtual functions that `Store` calls; the loops read at most `fuel` rows.
  unfoldable pub records : ℕ → Records (Members W)
  unfolding get_transaction_handler add_sensor_record remove_sensor_record update_sensor_record
      add_single_reading_record add_bulk_reading_records update_reading_records get_sensor_records
      get_all_reading_records drive sqlite3_start sqlite3_commit sqlite3_rollback
  records fuel = record {
    get_transaction_handler = get_transaction_handler api;
    pending = λ t s. pending_at (some t) s.db;
    start = λ t s. drive api sqlite3_start t s.db;
    commit = λ t s. drive api sqlite3_commit t s.db;
    rollback = λ t s. drive api sqlite3_rollback t s.db;
    add_sensor_record = λ sensor s. add_sensor_record api l sensor s.db;
    remove_sensor_record = λ sensor s. remove_sensor_record api l sensor s.db;
    update_sensor_record = λ sensor s. update_sensor_record api l sensor s.db;
    add_single_reading_record = λ sensor t v i s. add_single_reading_record sensor t v i s.db;
    add_bulk_reading_records =
        λ sensor readings i s. add_bulk_reading_records sensor readings i s.db;
    update_reading_records = λ sensor readings i s. update_reading_records sensor readings i s.db;
    get_sensor_records = λ s. get_sensor_records api l fuel s.db;
    get_all_reading_records = λ sensor s. get_all_reading_records fuel sensor s.db;
  }

  unfoldable pub backend : ℕ → Backend (Members W)
  unfolding records prepare clear_buffers
  backend fuel = record {
    records = records fuel;
    prepare = prepare api (records fuel);
    clear_buffers = clear_buffers api;
    get_timeframe_reading_records =
        λ sensor begin end. on_members (get_timeframe_reading_records fuel sensor begin end);
    get_last_reading_record = λ sensor. on_members (get_last_reading_record sensor);
    get_reading_record = λ sensor t. on_members (get_reading_record sensor t);
    get_num_readings_value = λ sensor. on_members (get_num_readings_value sensor);
  }
