-- ===== src/Sqlite3/Rotation.antt =====
-- libklio/sqlite3/sqlite3-store.cpp: `rotate`, which goes on in a new file.
use libklio.Prelude.{Option, none, some, String, [], ◌∷◌, ◌==◌, nat_eq, if◌then◌else◌}
use libklio.Exec.{Exec, pure, throw, modify, ◌>>◌, store_exception, undefined_behaviour}
use libklio.HashMap.{HashMap}
use libklio.Sensor.{Sensor, Library, Uuid}
use libklio.Store.{Store}
use libklio.Sqlite3.{Api, Members, pending_at}
use libklio.Sqlite3.Connection.{on_members, finalize_statements, close_db, open_db}
use libklio.Sqlite3.Schema.{initialize, prepare_statements}
use libklio.Sqlite3.SensorRecords.{add_sensor_record}

module _ {W : Type 0} (api : Api W) (l : Library) where
  abbrev renamed : String → Exec (Members W) Unit
  renamed to_path s = let (r, w) = api.rename s.path to_path s.world in (r, record s { world = w })

  -- The loop over `_sensors_buffer`.
  unfoldable pub add_buffered : HashMap Uuid (Option Sensor) → Exec (Members W) Unit
  unfolding add_sensor_record
  add_buffered [] = pure tt
  add_buffered ((uuid, none) ∷ rest) = throw undefined_behaviour
  add_buffered ((uuid, some sensor) ∷ rest) = do add_sensor_record api l sensor; add_buffered rest

  -- rotate(to_path), after its test
  unfoldable pub rotate_open :
      String → String → HashMap Uuid (Option Sensor) → Exec (Members W) Unit
  unfolding finalize_statements close_db open_db initialize prepare_statements add_buffered
  rotate_open version to_path buffered = do
    modify (finalize_statements api)
    close_db api
    renamed to_path
    open_db api
    initialize api version
    prepare_statements api
    add_buffered buffered

  unfoldable pub rotate : String → String → Exec (Store (Members W)) Unit
  unfolding rotate_open
  rotate version to_path s =
      (if s.db.connection == 0
          then throw store_exception
          else if pending_at s.db.transaction s.db
          then throw store_exception
          else on_members (rotate_open version to_path s.sensors_buffer))
        s
