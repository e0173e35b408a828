-- ===== src/Sqlite3/Schema.antt =====
-- libklio/sqlite3/sqlite3-store.cpp: the tables of the database, its upgrade, and the statements
-- that are prepared once.
use Prim.Native.String.{◌++◌}
use libklio.Prelude.{
  ℕ, zero, suc, Bool, true, false, Option, none, some, String, ◌==◌, nat_eq, string_eq,
  if◌then◌else◌,
}
use libklio.Exec.{
  Exec, ok, err, pure, throw, modify, ◌>>=◌, ◌>>◌, catching, finally, undefined_behaviour,
  out_of_fuel,
}
use libklio.Store.{Store, Records}
use libklio.Store.Transactions.{auto_start_transaction, auto_commit_transaction}
use libklio.Store.Flush
use libklio.Sqlite3.{
  Api, Members, Pointer, sqlite_row, sqlite_done, act, reset, finalize, prepare_statement,
  get_statement, execute,
}
use libklio.Sqlite3.Connection.{on_members}

abbrev create_sensors : String
create_sensors =
    "CREATE TABLE IF NOT EXISTS sensors(uuid VARCHAR(36) PRIMARY KEY, external_id VARCHAR(36), name VARCHAR(100), description VARCHAR(255), unit VARCHAR(20), timezone VARCHAR(30), device_type_id INTEGER)"

abbrev create_index : String
create_index = "CREATE UNIQUE INDEX IF NOT EXISTS sensors_external_id_idx ON sensors (external_id)"

abbrev create_properties : String
create_properties =
    "CREATE TABLE IF NOT EXISTS properties(name VARCHAR(32) PRIMARY KEY, value VARCHAR(32))"

abbrev columns : String
columns = "uuid, external_id, name, description, unit, timezone, device_type_id"

module _ {W : Type 0} (api : Api W) where
  -- A local pointer inside a `try` block is NULL while the next statement is prepared, and the
  -- handler finalizes it.
  abbrev pub in_try : {S A : Type 0} → (S → S) → Exec S A → Exec S A
  in_try finalize_null body = catching body λ e. modify finalize_null >> throw e

  -- A statement that is bound, executed and finalized.
  abbrev pub run_statement : Pointer → (W → W) → Exec (Members W) Unit
  run_statement stmt bind =
      finally (do modify (act bind); execute api stmt sqlite_done) (finalize api stmt)

  abbrev pub run_next : String → (Pointer → W → W) → Exec (Members W) Unit
  run_next sql bind = do
    stmt ← in_try (finalize api 0) (prepare_statement api sql)
    run_statement stmt (bind stmt)

  abbrev pub nothing_bound : Pointer → W → W
  nothing_bound stmt w = w

  abbrev pub bind_version : String → Pointer → W → W
  bind_version version stmt w = api.bind_text stmt 2 version (api.bind_text stmt 1 "version" w)

  -- The statement of the second variable `stmt`, which the handler does not see: it is finalized
  -- only where it was executed.
  abbrev pub run_shadowed : String → Exec (Members W) Unit
  run_shadowed sql =
      in_try (finalize api 0) do
        stmt ← prepare_statement api sql
        execute api stmt sqlite_done
        modify (finalize api stmt)

  -- initialize; `version` is what VersionInfo::getVersion returns
  unfoldable pub initialize : String → Exec (Members W) Unit
  unfolding prepare_statement execute
  initialize version = do
    stmt ← prepare_statement api create_sensors
    run_statement stmt (λ w. w)
    run_next create_index nothing_bound
    run_next create_properties nothing_bound
    run_next "INSERT OR IGNORE INTO properties (name, value) VALUES(?1, ?2)" (bind_version version)
    λ s. run_shadowed ("PRAGMA synchronous = " ++ s.synchronous) s

  -- prepare_statements
  unfoldable pub prepare_statements : Exec (Members W) Unit
  unfolding get_statement
  prepare_statements = do
    insert_sensor ←
        get_statement api
          ("INSERT INTO sensors (" ++ columns ++ ") VALUES (?1, ?2, ?3, ?4, ?5, ?6, ?7)")
    modify λ s. record s { prepared = record s.prepared { insert_sensor_stmt = insert_sensor } }
    remove_sensor ← get_statement api "DELETE FROM sensors WHERE uuid = ?1"
    modify λ s. record s { prepared = record s.prepared { remove_sensor_stmt = remove_sensor } }
    update_sensor ←
        get_statement api
          "UPDATE sensors SET external_id = ?2, name = ?3, description = ?4, unit = ?5, timezone = ?6, device_type_id = ?7 WHERE uuid = ?1"
    modify λ s. record s { prepared = record s.prepared { update_sensor_stmt = update_sensor } }
    select_sensor ← get_statement api ("SELECT " ++ columns ++ " FROM sensors WHERE uuid = ?1")
    modify λ s. record s { prepared = record s.prepared { select_sensor_stmt = select_sensor } }
    by_external_id ←
        get_statement api ("SELECT " ++ columns ++ " FROM sensors WHERE external_id = ?1")
    modify λ s. record s {
      prepared = record s.prepared { select_sensor_by_external_id_stmt = by_external_id };
    }
    by_name ← get_statement api ("SELECT " ++ columns ++ " FROM sensors WHERE name = ?1")
    modify λ s. record s { prepared = record s.prepared { select_sensor_by_name_stmt = by_name } }
    select_sensors ← get_statement api ("SELECT " ++ columns ++ " FROM sensors")
    modify λ s. record s { prepared = record s.prepared { select_sensors_stmt = select_sensors } }
    all_uuids ← get_statement api "SELECT uuid FROM sensors"
    modify
        λ s. record s { prepared = record s.prepared { select_all_sensor_uuids_stmt = all_uuids } }

  -- prepare
  unfoldable pub prepare : Records (Members W) → Exec (Store (Members W)) Unit
  unfolding prepare_statements Flush.prepare
  prepare r = do on_members prepare_statements; Flush.prepare r

  abbrev first_row : Pointer → ℕ × W → Members W → Bool × Members W
  first_row stmt (code, w) s = (code == sqlite_row, reset api stmt (record s { world = w }))

  abbrev has_row : Pointer → Exec (Members W) Bool
  has_row stmt s = let (found, s') = first_row stmt (api.step stmt s.world) s in (ok found, s')

  unfoldable pub has_table : String → Exec (Members W) Bool
  unfolding get_statement
  has_table name = do
    stmt ← get_statement api "SELECT name FROM sqlite_master WHERE type='table' AND name=?"
    modify (act (api.bind_text stmt 1 name))
    has_row stmt

  abbrev named : String → Option String → Exec (Members W) Bool → Exec (Members W) Bool
  named column none rest s = (err undefined_behaviour, s)
  named column (some text) rest s = (if text == column then pure true else rest) s

  abbrev column_at : Pointer → String → ℕ × W → Exec (Members W) Bool → Exec (Members W) Bool
  column_at stmt column (code, w) rest s =
      (if code == sqlite_row then named column (api.column_text stmt 1 w) rest else pure false)
        (record s { world = w })

  -- The loop of has_column, over at most `fuel` rows.
  unfoldable pub search_columns : ℕ → Pointer → String → Exec (Members W) Bool
  search_columns zero stmt column = throw out_of_fuel
  search_columns (suc fuel) stmt column =
      λ s. column_at stmt column (api.step stmt s.world) (search_columns fuel stmt column) s

  -- The table is always `sensors`, whatever the argument.
  unfoldable pub has_column : ℕ → String → String → Exec (Members W) Bool
  unfolding get_statement search_columns
  has_column fuel table column = do
    stmt ← get_statement api "PRAGMA table_info(sensors)"
    finally (search_columns fuel stmt column) (reset api stmt)

  abbrev add_device_type : Bool → Exec (Members W) Unit
  add_device_type true = pure tt
  add_device_type false = do
    run_next "ALTER TABLE sensors ADD COLUMN device_type_id INTEGER" nothing_bound
    run_next "UPDATE sensors SET device_type_id = 0" nothing_bound

  abbrev on_db : (Members W → Members W) → Store (Members W) → Store (Members W)
  on_db f s = record s { db = f s.db }

  -- upgrade
  unfoldable pub upgrade : Records (Members W) → ℕ → String → Exec (Store (Members W)) Unit
  unfolding prepare_statement execute has_column auto_start_transaction auto_commit_transaction
  upgrade r fuel version = do
    stmt ←
        on_members
          (prepare_statement api "INSERT OR REPLACE INTO properties (name, value) VALUES(?1, ?2)")
    transaction ←
        finally
          (do
            modify (on_db (act (bind_version version stmt)))
            t ← auto_start_transaction r
            on_members (execute api stmt sqlite_done)
            pure t)
          (on_db (finalize api stmt))
    found ← on_members (in_try (finalize api 0) (has_column fuel "sensors" "device_type_id"))
    on_members (add_device_type found)
    on_members (run_next create_index nothing_bound)
    in_try (on_db (finalize api 0)) (auto_commit_transaction r transaction)
