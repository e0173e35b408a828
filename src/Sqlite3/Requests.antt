-- ===== src/Sqlite3/Requests.antt =====
-- The operations that SQLite's store performs on its records, in any order and with any outcome.
use libklio.Prelude.{ℕ, Bool, Option, String, List, [], ◌∷◌, string_eq, arith}
use libklio.Prelude.Int.{pos}
use libklio.Exec.{Exec, pure, modify, ◌>>=◌}
use libklio.Exec.Preserves.{Preserves, Preserves-pure, Preserves-bind, Preserves-finally}
use libklio.HashMap.{find-nil}
use libklio.Time.{Timestamp, Double, Readings}
use libklio.Sensor.{Sensor, Library}
use libklio.Sqlite3.{Api, Members, Pointer, get_statement, reset}
use libklio.Sqlite3.SensorRecords.{
  add_sensor_record, remove_sensor_record, update_sensor_record, get_sensor_records,
}
use libklio.Sqlite3.ReadingRecords.{
  add_single_reading_record, add_bulk_reading_records, update_reading_records,
  get_all_reading_records, get_timeframe_reading_records, get_num_readings_value,
  get_last_reading_record, get_reading_record, get_readings_records, row, no_reading,
  to_unsigned_long,
}
use libklio.Sqlite3.Cached.{IsPreparing, IsCached, get_statement-IsCached, reset-IsCached}
use libklio.Sqlite3.Cached.Operations.{
  with_statement-IsCached, add_sensor-IsCached, remove_sensor-IsCached, update_sensor-IsCached,
  add_all-IsCached, add_reading-IsCached, read_rows-IsCached, read_sensors-IsCached,
  first_row-IsCached, bind_time-IsCached,
}

-- A call of one of the store's virtual functions; `forget` is the end of `clear_buffers`.
pub data Request : Type 0 where
  add_sensor remove_sensor update_sensor all num last : Sensor → Request
  single : Sensor → Timestamp → Double → Bool → Request
  bulk update : Sensor → Readings → Bool → Request
  timeframe : Sensor → Timestamp → Timestamp → Request
  one : Sensor → Timestamp → Request
  sensors forget : Request

abbrev done : {W A : Type 0} → Exec (Members W) A → Exec (Members W) Unit
done f = f >>= λ a. pure tt

module _ {W : Type 0} (api : Api W) (l : Library) (fuel : ℕ) where
  abbrev pub handle : Request → Exec (Members W) Unit
  handle (add_sensor sensor) = add_sensor_record api l sensor
  handle (remove_sensor sensor) = remove_sensor_record api l sensor
  handle (update_sensor sensor) = update_sensor_record api l sensor
  handle (single sensor t v ignore) = add_single_reading_record api l sensor t v ignore
  handle (bulk sensor readings ignore) = add_bulk_reading_records api l sensor readings ignore
  handle (update sensor readings ignore) = update_reading_records api l sensor readings ignore
  handle (all sensor) = done (get_all_reading_records api l fuel sensor)
  handle (timeframe sensor begin end) =
      done (get_timeframe_reading_records api l fuel sensor begin end)
  handle (num sensor) = done (get_num_readings_value api l sensor)
  handle (last sensor) = done (get_last_reading_record api l sensor)
  handle (one sensor t) = done (get_reading_record api l sensor t)
  handle sensors = done (get_sensor_records api l fuel)
  handle forget = modify λ s. record s { statements = [] }

  -- The members after the requests, whether they throw or not.
  unfoldable pub serve : List Request → Members W → Members W
  serve [] s = s
  serve (r ∷ rest) s = serve rest (handle r s).1

module _ {W : Type 0} (api : Api W) (l : Library) (fuel : ℕ) (sql : Pointer → W → Option String)
    (spec : IsPreparing api sql) where
  done-IsCached :
      {A : Type 0} (f : Exec (Members W) A)
      → Preserves (IsCached api sql) f
      → Preserves (IsCached api sql) (done f)
  done-IsCached f h = Preserves-bind f _ h λ a. Preserves-pure tt

  handle-IsCached : (r : Request) → Preserves (IsCached api sql) (handle api l fuel r)
  unfolding add_single_reading_record add_bulk_reading_records update_reading_records
      get_all_reading_records get_timeframe_reading_records get_num_readings_value
      get_last_reading_record get_reading_record get_readings_records get_sensor_records
  handle-IsCached (add_sensor sensor) = add_sensor-IsCached api l sql spec sensor
  handle-IsCached (remove_sensor sensor) = remove_sensor-IsCached api l sql spec sensor
  handle-IsCached (update_sensor sensor) = update_sensor-IsCached api l sql spec sensor
  handle-IsCached (single sensor t v ignore) =
      add_reading-IsCached api l sql spec sensor t v _ ignore
  handle-IsCached (bulk sensor readings ignore) =
      add_all-IsCached api l sql spec sensor _ ignore readings
  handle-IsCached (update sensor readings ignore) =
      add_all-IsCached api l sql spec sensor _ ignore readings
  handle-IsCached (all sensor) = done-IsCached _ (
      with_statement-IsCached api l sql spec _ _
        λ stmt. read_rows-IsCached api l sql spec fuel stmt [])
  handle-IsCached (timeframe sensor begin end) = done-IsCached _ (
      with_statement-IsCached api l sql spec _ _ λ stmt.
        Preserves-bind _ _ (bind_time-IsCached api l sql spec stmt 1 begin) λ _.
          Preserves-bind _ _ (bind_time-IsCached api l sql spec stmt 2 end)
            λ _. read_rows-IsCached api l sql spec fuel stmt [])
  handle-IsCached (num sensor) = done-IsCached _ (
      Preserves-bind (get_statement api _) _ (get_statement-IsCached api sql spec _) λ stmt.
        Preserves-bind _ _
          (Preserves-finally _ (reset api stmt)
            (first_row-IsCached api l sql spec stmt (api.column_int stmt 0) (pos 0))
            (reset-IsCached api sql spec stmt))
          λ num. Preserves-pure (to_unsigned_long num))
  handle-IsCached (last sensor) = done-IsCached _ (
      with_statement-IsCached api l sql spec _ _
        λ stmt. first_row-IsCached api l sql spec stmt (row api stmt) no_reading)
  handle-IsCached (one sensor t) = done-IsCached _ (
      with_statement-IsCached api l sql spec _ _ λ stmt.
        Preserves-bind _ _ (bind_time-IsCached api l sql spec stmt 1 t)
          λ _. first_row-IsCached api l sql spec stmt (row api stmt) no_reading)
  handle-IsCached sensors = done-IsCached _ (record {
    at = λ s h.
        (Preserves-finally _ (reset api s.prepared.select_sensors_stmt)
            (read_sensors-IsCached api l sql spec fuel s.prepared.select_sensors_stmt)
            (reset-IsCached api sql spec s.prepared.select_sensors_stmt)).at
          s h;
  })
  handle-IsCached forget = record {
    at = λ s h text p found. ground (arith, find-nil {V = Pointer} text);
  }

  pub serve-IsCached :
      (requests : List Request) (s : Members W)
      → IsCached api sql s
      → IsCached api sql (serve api l fuel requests s)
  unfolding serve
  serve-IsCached [] s h = h
  serve-IsCached (r ∷ rest) s h =
      serve-IsCached rest (handle api l fuel r s).1 ((handle-IsCached r).at s h)
