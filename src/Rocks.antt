-- ===== src/Rocks.antt =====
-- libklio/rocksdb/rocksdb-store.hpp and rocksdb-store.cpp: the members of the store, and the databases
-- that it keeps open. RocksDB and the file system are parameters.
pub mod Records
pub mod Lifetime
pub mod Live
pub mod Entries
pub mod Reliable
pub mod Requests
use Prim.Native.String.{◌++◌}
use libklio.Prelude.{
  ℕ, Bool, true, false, Option, none, some, String, List, [], ◌∷◌, ◌==◌, string_eq, if◌then◌else◌,
  is_some,
}
use libklio.Exec.{Exec, Result, ok, err, pure, throw, modify, ◌>>=◌, ◌>>◌, store_exception}
use libklio.HashMap
use libklio.HashMap.{HashMap}
use libklio.Time.{Timestamp, Double}

-- rocksdb::Options, as far as the store sets them.
pub record Options : Type 0 where
  pub create_if_missing : Bool
  pub error_if_exists : Bool
  pub paranoid_checks : Bool
  pub disable_data_sync : Bool

-- rocksdb::WriteOptions
pub record WriteOptions : Type 0 where
  pub sync : Bool
  pub disable_wal : Bool

-- RocksDB and boost::filesystem on what lies outside the program. An open database is a number; `none`
-- is a status that is not ok. `entries` is what an iterator goes over, from the first key on.
pub record Api (W : Type 0) : Type 0 where
  pub open_path : Options → String → W → Option ℕ × W
  pub delete : ℕ → W → W
  pub put : WriteOptions → ℕ → String → String → W → Bool × W
  pub write : WriteOptions → ℕ → List (String × String) → W → Bool × W
  pub get : ℕ → String → W → Option String
  pub entries : ℕ → W → List (String × String)
  pub exists : String → W → Bool
  pub is_directory : String → W → Bool
  pub directory : String → W → Result (List String)
  pub create_directory : String → W → Bool × W
  pub remove_all : String → W → W
  pub time_to_string : Timestamp → String
  pub double_to_string : Double → String
  pub atol : String → Timestamp
  pub atof : String → Double

-- The members of the class. `_db_buffer` is a `std::map`, of which the code needs the lookups and one
-- loop over all entries; a null pointer in it is `none`.
pub record Members (W : Type 0) : Type 0 where
  pub path : String
  pub synchronous : Bool
  pub db_options : HashMap String String
  pub read_options : HashMap String String
  pub write_options : WriteOptions
  pub db_buffer : HashMap String (Option ℕ)
  pub world : W

-- The constructor. `sync` and `disableWAL` are of the type bool, and a text literal converts to true.
abbrev pub create_rocksdb :
    {W : Type 0} → String → Bool → HashMap String String → HashMap String String → W → Members W
create_rocksdb path synchronous db_options read_options world = record {
  path = path;
  synchronous = synchronous;
  db_options = db_options;
  read_options = read_options;
  write_options =
      if synchronous
      then record { sync = true; disable_wal = true }
      else record { sync = true; disable_wal = true };
  db_buffer = [];
  world = world;
}

abbrev pub pointer_of : Option (Option ℕ) → Option ℕ
pointer_of none = none
pointer_of (some entry) = entry

abbrev is_true : Option String → Bool
is_true none = false
is_true (some text) = text == "true"

module _ {W : Type 0} where
  -- `_db_buffer[db_path]`, which enters a null pointer for a path that is not there.
  abbrev pub ensure_entry : String → Members W → Members W
  ensure_entry db_path s = record s {
    db_buffer =
        if HashMap.contains db_path s.db_buffer
        then s.db_buffer
        else HashMap.assign db_path none s.db_buffer;
  }

  abbrev pub db_at : String → Members W → Option ℕ
  db_at db_path s = pointer_of (HashMap.find db_path s.db_buffer)

  -- `_db_options[name] == "true"`; the entry that a missing name gets is the empty text, as none is.
  abbrev flag : String → Members W → Bool
  flag name s = is_true (HashMap.find name s.db_options)

  abbrev compose_sensors_path : Members W → String
  compose_sensors_path s = s.path ++ "/sensors"

  abbrev pub compose_sensor_path : String → Members W → String
  compose_sensor_path uuid s = (s.path ++ "/sensors") ++ ("/" ++ uuid)

  abbrev pub compose_sensor_properties_path : String → Members W → String
  compose_sensor_properties_path uuid s = compose_sensor_path uuid s ++ "/properties"

  abbrev pub compose_sensor_readings_path : String → Members W → String
  compose_sensor_readings_path uuid s = compose_sensor_path uuid s ++ "/readings"

module _ {W : Type 0} (api : Api W) where
  abbrev pub opened : String → Option ℕ × W → Exec (Members W) ℕ
  opened db_path (none, w) s = (err store_exception, record s { world = w })
  opened db_path (some db, w) s =
      (ok db, record s { db_buffer = HashMap.assign db_path (some db) s.db_buffer; world = w })

  abbrev pub options_of : Bool → Bool → Members W → Options
  options_of create_if_missing error_if_exists s = record {
    create_if_missing = create_if_missing;
    error_if_exists = error_if_exists;
    paranoid_checks = flag "paranoid_checks" s;
    disable_data_sync = flag "disableDataSync" s;
  }

  abbrev open_missing : Bool → Bool → String → Option ℕ → Exec (Members W) ℕ
  open_missing create_if_missing error_if_exists db_path (some db) s = (ok db, s)
  open_missing create_if_missing error_if_exists db_path none s =
      opened db_path
        (api.open_path (options_of create_if_missing error_if_exists s) db_path s.world) s

  unfoldable pub open_db : Bool → Bool → String → Exec (Members W) ℕ
  open_db create_if_missing error_if_exists db_path s =
      open_missing create_if_missing error_if_exists db_path (db_at db_path s)
        (ensure_entry db_path s)

  abbrev close_entry : String → Option ℕ → Members W → Members W
  close_entry db_path none s = s
  close_entry db_path (some db) s = record s {
    db_buffer = HashMap.erase db_path s.db_buffer;
    world = api.delete db s.world;
  }

  unfoldable pub close_db : String → Members W → Members W
  close_db db_path s = close_entry db_path (db_at db_path s) (ensure_entry db_path s)

  abbrev pub delete_directory : String → Members W → Members W
  delete_directory path s = record s { world = api.remove_all path s.world }

  unfoldable pub remove_db : String → Members W → Members W
  unfolding close_db
  remove_db db_path s = delete_directory db_path (close_db db_path s)

  abbrev accepted : Bool × W → Exec (Members W) Unit
  accepted (fine, w) s = (if fine then ok tt else err store_exception, record s { world = w })

  abbrev pub put_value : ℕ → String → String → Exec (Members W) Unit
  put_value db key value s = accepted (api.put s.write_options db key value s.world) s

  abbrev pub write_batch : ℕ → List (String × String) → Exec (Members W) Unit
  write_batch db batch s = accepted (api.write s.write_options db batch s.world) s

  abbrev pub create_directory : String → Exec (Members W) Unit
  create_directory path s = accepted (api.create_directory path s.world) s

  abbrev found_or_error : Option String → Result String
  found_or_error none = err store_exception
  found_or_error (some value) = ok value

  abbrev pub get_value : ℕ → String → Exec (Members W) String
  get_value db key s = (found_or_error (api.get db key s.world), s)
