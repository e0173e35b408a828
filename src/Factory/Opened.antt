-- ===== src/Factory/Opened.antt =====
-- What a caller gets who opens a store of RocksDB.
use Prim.Native.String.{◌++◌}
use libklio.Prelude.{
  ◌≡◌, refl, Bool-cases, inl, inr, Bool, true, ◌&&◌, String, List, ◌∷◌, string_eq,
}
use libklio.Exec.{ok, err, store_exception}
use libklio.HashMap
use libklio.HashMap.{HashMap, find-nil}
use libklio.Time.{Timestamp}
use libklio.Sensor.{Library}
use libklio.Store.{create}
use libklio.Store.Flush as Flush
use libklio.Store.Sensors.{get_sensor_uuids}
use libklio.Rocks.{Api}
use libklio.Rocks.Lifetime.{open_store, open_all, check_integrity}
use libklio.Rocks.Records.{rocks_records, get_sensor_records, read_directory}
use libklio.Factory.{open_rocksdb_store_with}

module _ {W : Type 0} (api : Api W) (l : Library) where
  -- Opening a database of RocksDB that holds a sensor throws a store_exception, whatever the options:
  -- no database of a sensor is open before the sensors are read.
  pub open_rocksdb_store-refused :
      (path : String) (auto_flush : Bool) (flush_timeout : Timestamp) (synchronous : Bool)
      (db_options read_options : HashMap String String) (world : W) (filename : String)
      (rest : List String)
      → api.directory (path ++ "/sensors") world ≡ ok (filename ∷ rest)
      → (open_rocksdb_store_with api l path auto_flush flush_timeout synchronous db_options
          read_options world).0
        ≡ err store_exception
  unfolding open_rocksdb_store_with open_store open_all check_integrity Flush.prepare rocks_records
      create get_sensor_uuids get_sensor_records read_directory HashMap.find
  open_rocksdb_store-refused path auto_flush flush_timeout synchronous db_options read_options world
        filename rest listed =
      elim (Bool-cases (api.exists path world && (api.is_directory path world && true))) [
        | inl there ↦ elim (Bool-cases (api.exists (path ++ "/sensors") world)) [
          | inl complete ↦ rw (there, complete, listed, listed) refl
          | inr incomplete ↦ rw (there, incomplete) refl
        ]
        | inr missing ↦ elim (Bool-cases (api.exists (path ++ "/sensors") world)) [
          | inl complete ↦ rw (missing, complete, listed, listed) refl
          | inr incomplete ↦ rw (missing, incomplete) refl
        ]
      ]
