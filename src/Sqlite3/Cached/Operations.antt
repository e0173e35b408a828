-- ===== src/Sqlite3/Cached/Operations.antt =====
-- Every operation on the records keeps the cache of statements right.
use libklio.Prelude.{◌≡◌, ◌∙◌, ℕ, zero, suc, Option, String, [], ◌∷◌, Bool, ◌==◌, nat_eq}
use libklio.Exec.{Exec, modify, ◌>>=◌, finally, out_of_fuel, store_exception}
use libklio.Exec.Preserves.{
  Preserves, Preserves-pure, Preserves-throw, Preserves-if, Preserves-bind, Preserves-finally,
  Preserves-catching,
}
use libklio.Time.{Timestamp, Double, Readings}
use libklio.Sensor.{Sensor, Library, uuid_string}
use libklio.Sqlite3.{Api, Members, Pointer, get_statement, act, reset, to_int}
use libklio.Sqlite3.SensorRecords.{
  add_sensor_record, remove_sensor_record, update_sensor_record, read_sensors, parse_sensor,
  bind_sensor,
}
use libklio.Sqlite3.ReadingRecords.{
  add_reading_record, add_all_records, read_rows, first_row, bind_time,
}
use libklio.Sqlite3.Cached.{
  IsPreparing, IsCached, act-IsCached, execute-IsCached, get_statement-IsCached, reset-IsCached,
  run_text-IsCached, run_prepared-IsCached,
}

module _ {W : Type 0} (api : Api W) (l : Library) (sql : Pointer → W → Option String)
    (spec : IsPreparing api sql) where
  step-IsCached :
      (stmt : Pointer) (s : Members W)
      → IsCached api sql s
      → IsCached api sql (record s { world = (api.step stmt s.world).1 })
  step-IsCached stmt s h text p found = spec.steps stmt p s.world ∙ h text p found

  -- A statement of the cache, and what is done with it until it is reset.
  pub with_statement-IsCached :
      {A : Type 0} (text : String) (body : Pointer → Exec (Members W) A)
      → ((stmt : Pointer) → Preserves (IsCached api sql) (body stmt))
      → Preserves
          (IsCached api sql)
          (get_statement api text >>= λ stmt. finally (body stmt) (reset api stmt))
  with_statement-IsCached text body h =
      Preserves-bind (get_statement api text) _ (get_statement-IsCached api sql spec text) λ stmt.
        Preserves-finally (body stmt) (reset api stmt) (h stmt) (reset-IsCached api sql spec stmt)

  pub read_rows-IsCached :
      (fuel : ℕ) (stmt : Pointer) (readings : Readings)
      → Preserves (IsCached api sql) (read_rows api fuel stmt readings)
  unfolding read_rows
  read_rows-IsCached zero stmt readings = Preserves-throw out_of_fuel
  read_rows-IsCached (suc fuel) stmt readings = record {
    at = λ s h.
        (Preserves-if ((api.step stmt s.world).0 == 100) _ _ (read_rows-IsCached fuel stmt _)
            (Preserves-pure readings)).at
          (record s { world = (api.step stmt s.world).1 }) (step-IsCached stmt s h);
  }

  pub read_sensors-IsCached :
      (fuel : ℕ) (stmt : Pointer) → Preserves (IsCached api sql) (read_sensors api l fuel stmt)
  unfolding read_sensors
  read_sensors-IsCached zero stmt = Preserves-throw out_of_fuel
  read_sensors-IsCached (suc fuel) stmt = record {
    at = λ s h.
        (Preserves-if ((api.step stmt s.world).0 == 100) _ _
            (Preserves-bind (λ s'. (parse_sensor api l stmt s'.world, s')) _
              (record { at = λ s' h'. h' })
              λ sensor.
                Preserves-bind (read_sensors api l fuel stmt) _ (read_sensors-IsCached fuel stmt)
                  λ sensors. Preserves-pure (sensor ∷ sensors))
            (Preserves-pure [])).at
          (record s { world = (api.step stmt s.world).1 }) (step-IsCached stmt s h);
  }

  pub first_row-IsCached :
      {A : Type 0} (stmt : Pointer) (column : W → A) (default : A)
      → Preserves (IsCached api sql) (first_row api stmt column default)
  first_row-IsCached stmt column default = record { at = λ s h. step-IsCached stmt s h }

  pub bind_time-IsCached :
      (stmt : Pointer) (index : ℕ) (t : Timestamp)
      → Preserves (IsCached api sql) (modify (act (bind_time api stmt index t)))
  bind_time-IsCached stmt index t =
      act-IsCached api sql spec (bind_time api stmt index t)
        λ q w. spec.binds_int stmt q index (to_int t) w

  bind_sensor-same :
      (sensor : Sensor) (stmt q : Pointer) (w : W)
      → sql q (bind_sensor api l sensor stmt w) ≡ sql q w
  bind_sensor-same sensor stmt q w = simp (spec.binds_int, spec.binds_text)

  pub add_sensor-IsCached :
      (sensor : Sensor) → Preserves (IsCached api sql) (add_sensor_record api l sensor)
  unfolding add_sensor_record
  add_sensor-IsCached sensor =
      Preserves-bind _ _
        (record {
          at = λ s h.
              (run_prepared-IsCached api sql spec s.prepared.insert_sensor_stmt
                  (bind_sensor api l sensor)
                  (bind_sensor-same sensor s.prepared.insert_sensor_stmt)).at
                s h;
        })
        λ _. run_text-IsCached api sql spec _

  pub remove_sensor-IsCached :
      (sensor : Sensor) → Preserves (IsCached api sql) (remove_sensor_record api l sensor)
  unfolding remove_sensor_record
  remove_sensor-IsCached sensor =
      Preserves-bind _ _
        (record {
          at = λ s h.
              (run_prepared-IsCached api sql spec s.prepared.remove_sensor_stmt
                  (λ stmt. api.bind_text stmt 1 (uuid_string l sensor))
                  λ q w.
                    spec.binds_text s.prepared.remove_sensor_stmt q 1 (uuid_string l sensor) w).at
                s h;
        })
        λ _. run_text-IsCached api sql spec _

  pub update_sensor-IsCached :
      (sensor : Sensor) → Preserves (IsCached api sql) (update_sensor_record api l sensor)
  unfolding update_sensor_record
  update_sensor-IsCached sensor = record {
    at = λ s h.
        (run_prepared-IsCached api sql spec s.prepared.update_sensor_stmt (bind_sensor api l sensor)
            (bind_sensor-same sensor s.prepared.update_sensor_stmt)).at
          s h;
  }

  pub add_reading-IsCached :
      (sensor : Sensor) (t : Timestamp) (v : Double) (operation : String) (ignore : Bool)
      → Preserves (IsCached api sql) (add_reading_record api l sensor t v operation ignore)
  unfolding add_reading_record
  add_reading-IsCached sensor t v operation ignore =
      Preserves-bind (get_statement api _) _ (get_statement-IsCached api sql spec _) λ stmt.
        Preserves-catching _ _
          (Preserves-bind _ _ (bind_time-IsCached stmt 1 t) λ _.
            Preserves-bind _ _
              (act-IsCached api sql spec (api.bind_double stmt 2 v)
                λ q w. spec.binds_double stmt q 2 v w)
              λ _. Preserves-bind _ _ (execute-IsCached api sql spec stmt 101) λ _. reset_stmt stmt)
          λ e.
            Preserves-bind _ _ (reset_stmt stmt)
              λ _. Preserves-if ignore _ _ (Preserves-pure tt) (Preserves-throw store_exception)
    where
      reset_stmt : (stmt : Pointer) → Preserves (IsCached api sql) (modify (reset api stmt))
      reset_stmt stmt = record { at = λ s h. reset-IsCached api sql spec stmt s h }

  pub add_all-IsCached :
      (sensor : Sensor) (operation : String) (ignore : Bool) (readings : Readings)
      → Preserves (IsCached api sql) (add_all_records api l sensor operation ignore readings)
  unfolding add_all_records
  add_all-IsCached sensor operation ignore [] = Preserves-pure tt
  add_all-IsCached sensor operation ignore ((t, v) ∷ rest) =
      Preserves-bind _ _ (add_reading-IsCached sensor t v operation ignore)
        λ _. add_all-IsCached sensor operation ignore rest
