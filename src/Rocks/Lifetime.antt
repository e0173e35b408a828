-- ===== src/Rocks/Lifetime.antt =====
-- libklio/rocksdb/rocksdb-store.cpp: opening, closing and checking the store.
use libklio.Prelude.{
  ℕ, Bool, true, false, ◌&&◌, Option, none, some, String, List, [], ◌∷◌, if◌then◌else◌,
}
use libklio.Exec.{Exec, Result, ok, err, pure, modify, ◌>>=◌, ◌>>◌, store_exception}
use libklio.HashMap.{HashMap}
use libklio.Sensor.{Library, Uuid}
use libklio.Store.{Store}
use libklio.Store.Sensors.{get_sensor_uuids}
use libklio.Rocks.{
  Api, Members, open_db, create_directory, delete_directory, compose_sensors_path,
  compose_sensor_properties_path, compose_sensor_readings_path,
}
use libklio.Rocks.Records.{on_rocks, clear_buffers}

abbrev is_empty : {A : Type 0} → List A → Bool
is_empty [] = true
is_empty (x ∷ xs) = false

module _ {W : Type 0} (api : Api W) (l : Library) where
  unfoldable pub open_all : List Uuid → Exec (Members W) Unit
  unfolding open_db
  open_all [] = pure tt
  open_all (uuid ∷ rest) = do
    properties ←
        λ s. open_db api false false (compose_sensor_properties_path (l.to_string uuid) s) s
    readings ← λ s. open_db api true false (compose_sensor_readings_path (l.to_string uuid) s) s
    open_all rest

  -- open: the databases of the sensors that the buffers hold
  unfoldable pub open_store : Exec (Store (Members W)) Unit
  unfolding get_sensor_uuids open_all
  open_store s =
      (if api.exists s.db.path s.db.world
            && (api.is_directory s.db.path s.db.world && is_empty s.db.db_buffer)
          then (do uuids ← get_sensor_uuids; on_rocks (open_all uuids))
          else pure tt)
        s

  abbrev delete_entry : Option ℕ → W → W
  delete_entry none w = w
  delete_entry (some db) w = api.delete db w

  unfoldable pub delete_all : HashMap String (Option ℕ) → W → W
  delete_all [] w = w
  delete_all ((path, db) ∷ rest) w = delete_all rest (delete_entry db w)

  abbrev delete_buffered : Members W → Members W
  delete_buffered s = record s { world = delete_all s.db_buffer s.world }

  -- close
  unfoldable pub close_store : Store (Members W) → Store (Members W)
  unfolding delete_all clear_buffers
  close_store s = clear_buffers api l (record s { db = delete_buffered s.db })

  unfoldable pub initialize : Exec (Members W) Unit
  initialize = do
    modify λ s. delete_directory api s.path s
    λ s. create_directory api s.path s
    λ s. create_directory api (compose_sensors_path s) s

  unfoldable pub dispose : Store (Members W) → Store (Members W)
  unfolding close_store
  dispose s = let s' = close_store s in record s' { db = delete_directory api s'.db.path s'.db }

  abbrev listed : Result (List String) → Result (Unit {0})
  listed (ok filenames) = ok tt
  listed (err e) = err e

  -- Reading a uuid throws no exception, so the loop over the entries has no effect.
  unfoldable pub check_integrity : Members W → Result (Unit {0})
  check_integrity s =
      if api.exists (compose_sensors_path s) s.world
      then listed (api.directory (compose_sensors_path s) s.world)
      else err store_exception
