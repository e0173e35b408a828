-- ===== src/Rocks/Live/Operations.antt =====
-- Every operation on the records keeps the databases in the buffer open.
use libklio.Prelude.{ℕ, Bool, true, false, Option, none, some, String, List, [], ◌∷◌, string_eq}
use libklio.Exec.{Exec, modify, catching, store_exception}
use libklio.Exec.Preserves.{
  Preserves, Preserves-pure, Preserves-throw, Preserves-if, Preserves-bind, Preserves-catching,
}
use libklio.Sensor.{Sensor, Library, Uuid, uuid_string}
use libklio.Rocks.{
  Api, Members, open_db, close_db, remove_db, put_value, write_batch, get_value, create_directory,
  delete_directory, ensure_entry, db_at, compose_sensor_properties_path,
  compose_sensor_readings_path, compose_sensor_path,
}
use libklio.Rocks.Records.{
  put_sensor, add_sensor_record, remove_sensor_record, read_sensor, read_properties, read_directory,
  open_readings, handle_error,
}
use libklio.Rocks.Live.{
  IsOpening, IsLive, world-IsLive, ensure-IsLive, open_db-IsLive, close_db-IsLive,
}

module _ {W : Type 0} (api : Api W) (l : Library) (is_open : ℕ → W → Bool)
    (spec : IsOpening api is_open) where
  abbrev pub Keeps : {A : Type 0} → Exec (Members W) A → Type 0
  Keeps f = Preserves (IsLive is_open) f

  pub put_value-IsLive : (db : ℕ) (key value : String) → Keeps (put_value api db key value)
  put_value-IsLive db key value = record {
    at = λ s h.
        world-IsLive api is_open spec s (api.put s.write_options db key value s.world).1
          (λ q. spec.puts s.write_options db q key value s.world) h;
  }

  pub write_batch-IsLive :
      (db : ℕ) (batch : List (String × String)) → Keeps (write_batch api db batch)
  write_batch-IsLive db batch = record {
    at = λ s h.
        world-IsLive api is_open spec s (api.write s.write_options db batch s.world).1
          (λ q. spec.writes s.write_options db q batch s.world) h;
  }

  create_directory-IsLive : (path : String) → Keeps (create_directory api path)
  create_directory-IsLive path = record {
    at = λ s h.
        world-IsLive api is_open spec s (api.create_directory path s.world).1
          (λ q. spec.creates path q s.world) h;
  }

  delete_directory-IsLive :
      (path : String) (s : Members W)
      → IsLive is_open s
      → IsLive is_open (delete_directory api path s)
  delete_directory-IsLive path s h =
      world-IsLive api is_open spec s (api.remove_all path s.world)
        (λ q. spec.removes path q s.world) h

  -- An operation on a path that is composed from the members.
  at_path-IsLive :
      {A : Type 0} (path : Members W → String) (f : String → Exec (Members W) A)
      → ((p : String) → Keeps (f p))
      → Keeps (λ s. f (path s) s)
  at_path-IsLive path f h = record { at = λ s k. (h (path s)).at s k }

  modify-IsLive :
      (path : Members W → String) (f : String → Members W → Members W)
      → ((p : String) (s : Members W) → IsLive is_open s → IsLive is_open (f p s))
      → Keeps (modify (λ s. f (path s) s))
  modify-IsLive path f h = record { at = λ s k. h (path s) s k }

  open-IsLive :
      (create exclusive : Bool) (path : Members W → String)
      → Keeps (λ s. open_db api create exclusive (path s) s)
  open-IsLive create exclusive path =
      at_path-IsLive path (open_db api create exclusive)
        (open_db-IsLive api is_open spec create exclusive)

  pub put_sensor-IsLive : (create : Bool) (sensor : Sensor) → Keeps (put_sensor api l create sensor)
  unfolding put_sensor
  put_sensor-IsLive create sensor = Preserves-bind _ _ (open-IsLive create create _) λ db.
      Preserves-bind _ _ (put_value-IsLive db _ _) λ _.
        Preserves-bind _ _ (put_value-IsLive db _ _) λ _.
          Preserves-bind _ _ (put_value-IsLive db _ _)
            λ _. Preserves-bind _ _ (put_value-IsLive db _ _) λ _. put_value-IsLive db _ _

  pub add_sensor-IsLive : (sensor : Sensor) → Keeps (add_sensor_record api l sensor)
  unfolding add_sensor_record
  add_sensor-IsLive sensor =
      Preserves-bind _ _ (at_path-IsLive _ (create_directory api) create_directory-IsLive) λ _.
        Preserves-bind _ _ (at_path-IsLive _ (create_directory api) create_directory-IsLive) λ _.
          Preserves-bind _ _ (at_path-IsLive _ (create_directory api) create_directory-IsLive)
            λ _. put_sensor-IsLive true sensor

  remove_db-IsLive :
      (path : String) (s : Members W) → IsLive is_open s → IsLive is_open (remove_db api path s)
  unfolding remove_db
  remove_db-IsLive path s h =
      delete_directory-IsLive path (close_db api path s) (close_db-IsLive api is_open spec path s h)

  pub remove_sensor-IsLive : (sensor : Sensor) → Keeps (remove_sensor_record api l sensor)
  unfolding remove_sensor_record
  remove_sensor-IsLive sensor =
      Preserves-bind _ _
        (modify-IsLive (compose_sensor_properties_path (uuid_string l sensor)) (remove_db api)
          remove_db-IsLive)
        λ _.
          Preserves-bind _ _
            (modify-IsLive (compose_sensor_readings_path (uuid_string l sensor)) (remove_db api)
              remove_db-IsLive)
            λ _.
              modify-IsLive (compose_sensor_path (uuid_string l sensor)) (delete_directory api)
                delete_directory-IsLive

  pub open_readings-IsLive : (sensor : Sensor) → Keeps (open_readings api l sensor)
  unfolding open_readings
  open_readings-IsLive sensor = open-IsLive true false _

  -- Readings are written, and an error is handled.
  pub written-IsLive :
      (f : Exec (Members W) Unit) (ignore : Bool)
      → Keeps f
      → Keeps (catching f (λ e. handle_error ignore))
  written-IsLive f ignore h =
      Preserves-catching f _ h
        λ e. Preserves-if ignore _ _ (Preserves-pure tt) (Preserves-throw store_exception)

  get_value-IsLive : (db : ℕ) (key : String) → Keeps (get_value api db key)
  get_value-IsLive db key = record { at = λ s h. h }

  read_properties-IsLive : (uuid : Uuid) (db : Option ℕ) → Keeps (read_properties api l uuid db)
  read_properties-IsLive uuid none = Preserves-throw store_exception
  read_properties-IsLive uuid (some db) =
      Preserves-bind _ _ (get_value-IsLive db "external_id") λ _.
        Preserves-bind _ _ (get_value-IsLive db "name") λ _.
          Preserves-bind _ _ (get_value-IsLive db "description") λ _.
            Preserves-bind _ _ (get_value-IsLive db "unit")
              λ _. Preserves-bind _ _ (get_value-IsLive db "timezone") λ _. record { at = λ s h. h }

  read_sensor-IsLive : (uuid : Uuid) → Keeps (read_sensor api l uuid)
  read_sensor-IsLive uuid = record {
    at = λ s h.
        let path = compose_sensor_properties_path (l.to_string uuid) s in
        (read_properties-IsLive uuid (db_at path s)).at (ensure_entry path s)
          (ensure-IsLive api is_open spec path s h);
  }

  pub read_directory-IsLive : (filenames : List String) → Keeps (read_directory api l filenames)
  unfolding read_directory
  read_directory-IsLive [] = Preserves-pure []
  read_directory-IsLive (filename ∷ rest) =
      Preserves-bind _ _ (read_sensor-IsLive (l.read_uuid filename)) λ sensor.
        Preserves-bind _ _ (read_directory-IsLive rest) λ sensors. Preserves-pure (sensor ∷ sensors)
