-- ===== src/Postgres/Lifetime.antt =====
-- libklio/postgresql/postgresql-store.cpp: opening and closing the database, its tables and its
-- prepared statements.
use libklio.Prelude.{
  ℕ, suc, Bool, true, false, not, Option, none, some, String, [], ◌∷◌, ◌==◌, nat_eq, if◌then◌else◌,
}
use libklio.Exec.{
  Exec, Result, ok, err, pure, throw, modify, ◌>>=◌, ◌>>◌, catching, store_exception,
  undefined_behaviour,
}
use libklio.HashMap
use libklio.Store.{Store, Records, run}
use libklio.Store.Buffers
use libklio.Store.Flush
use libklio.Transaction.{Transaction, Statement, postgresql_rollback}
use libklio.Postgres.{
  Api, Members, Handler, tuples_ok, execute_statement, execute_prepared, prepare_statement, clear,
  execute_on,
}

abbrev pub on_postgres : {W A : Type 0} → Exec (Members W) A → Exec (Store (Members W)) A
on_postgres f = run λ s. f s.db

module _ {W : Type 0} where
  abbrev connect_handler : ℕ → ℕ → Option Handler → Members W → Members W
  connect_handler t connection none s = s
  connect_handler t connection (some h) s = record s {
    transactions = HashMap.assign t (record h { connection = connection }) s.transactions;
  }

  abbrev connect_at : Option ℕ → ℕ → Members W → Members W
  connect_at none connection s = s
  connect_at (some t) connection s = connect_handler t connection (HashMap.find t s.transactions) s

  -- if (_transaction) { _transaction->connection(connection); }
  unfoldable pub connect_transaction : ℕ → Members W → Members W
  connect_transaction connection s = connect_at s.transaction connection s

  unfoldable pub clear_connection_references : Members W → Members W
  unfolding connect_transaction
  clear_connection_references s = connect_transaction 0 (record s { connection = 0 })

  unfoldable pub create_transaction_handler : Exec (Members W) ℕ
  create_transaction_handler s = (
    ok s.next_transaction,
    record s {
      transactions =
          HashMap.assign s.next_transaction (record { connection = s.connection; pending = false })
            s.transactions;
      next_transaction = suc s.next_transaction;
    },
  )

  unfoldable pub get_transaction_handler : Store (Members W) → Result (Option ℕ) × Members W
  unfolding create_transaction_handler
  get_transaction_handler s =
      (if s.auto_commit then (create_transaction_handler >>= λ t. pure (some t)) else λ m.
      (ok m.transaction, m))
        s.db

module _ {W : Type 0} (api : Api W) where
  abbrev after_handler :
      ℕ → Handler → Members W → Result (Unit {0}) × Transaction W → Result (Unit {0}) × Members W
  after_handler t h s (result, x) = (
    result,
    record s {
      transactions = HashMap.assign t (record h { pending = x.pending }) s.transactions;
      world = x.db;
    },
  )

  abbrev drive_handler :
      (Statement W → Exec (Transaction W) Unit) → ℕ → Option Handler → Exec (Members W) Unit
  drive_handler f t none s = (err undefined_behaviour, s)
  drive_handler f t (some h) s = after_handler t h s (
      f (execute_on api h.connection)
        (record { connected = not (h.connection == 0); pending = h.pending; db = s.world }))

  -- A function of the handler at a place.
  unfoldable pub drive : (Statement W → Exec (Transaction W) Unit) → ℕ → Exec (Members W) Unit
  drive f t s = drive_handler f t (HashMap.find t s.transactions) s

  -- close_db; PQfinish throws nothing
  unfoldable pub close_db : Members W → Members W
  unfolding clear_connection_references
  close_db s = clear_connection_references (record s { world = api.finish s.connection s.world })

  abbrev take_handler : Option ℕ → Exec (Members W) Unit
  take_handler (some t) s = (ok tt, connect_transaction s.connection s)
  take_handler none s =
      (create_transaction_handler >>= λ t. modify λ s'. record s' { transaction = some t }) s

  abbrev connected : ℕ × W → Exec (Members W) Unit
  connected (connection, w) s =
      let s' = record s { connection = connection; world = w } in
      if api.is_connected connection w
      then take_handler s.transaction s'
      else (err store_exception, close_db s')

  unfoldable pub open_db : Exec (Members W) Unit
  unfolding close_db connect_transaction create_transaction_handler
  open_db s = connected (api.connectdb s.info s.world) s

  -- open
  unfoldable pub open_store : Exec (Members W) Unit
  unfolding open_db
  open_store s = (if s.connection == 0 then open_db else pure tt) s

  unfoldable pub finalize_statements : Exec (Members W) Unit
  unfolding execute_statement
  finalize_statements = execute_statement api "DEALLOCATE ALL"

  abbrev roll_back_at : Option ℕ → Exec (Members W) Unit
  roll_back_at none = pure tt
  roll_back_at (some t) = drive postgresql_rollback t

  -- close
  unfoldable pub close_store : Exec (Store (Members W)) Unit
  unfolding finalize_statements drive close_db Buffers.clear_buffers
  close_store s =
      (if s.db.connection == 0 then pure tt else (do
        on_postgres finalize_statements
        on_postgres (λ m. roll_back_at m.transaction m)
        modify Buffers.clear_buffers
        on_postgres (modify close_db)))
        s

  unfoldable pub initialize : Exec (Members W) Unit
  unfolding execute_statement
  initialize = do
    execute_statement api
        "CREATE TABLE IF NOT EXISTS sensors (uuid VARCHAR(36), external_id VARCHAR(36), name VARCHAR(100), description VARCHAR(255), unit VARCHAR(20), timezone VARCHAR(30), device_type_id INTEGER, PRIMARY KEY(uuid))"
    execute_statement api
        "CREATE TABLE IF NOT EXISTS readings (uuid VARCHAR(36), timestamp INTEGER, value FLOAT8, PRIMARY KEY(uuid, timestamp))"

  -- dispose
  unfoldable pub dispose : Exec (Store (Members W)) Unit
  unfolding execute_statement close_store
  dispose = do
    on_postgres (execute_statement api "DROP TABLE readings")
    on_postgres (execute_statement api "DROP TABLE sensors")
    close_store

  -- The rows of the result are not asked for.
  unfoldable pub has_table : String → Exec (Members W) Bool
  unfolding execute_prepared clear
  has_table name =
      catching
        (do
          result ← execute_prepared api "HAS_TABLE" (name ∷ []) tuples_ok
          modify (clear api result)
          pure true)
        (λ e. pure false)

  unfoldable pub check_integrity : Exec (Members W) Unit
  unfolding has_table
  check_integrity = do
    sensors ← has_table "sensors"
    readings ← if sensors then has_table "readings" else pure false
    if readings then pure tt else throw store_exception

  unfoldable pub prepare_statements : Exec (Members W) Unit
  unfolding prepare_statement
  prepare_statements = do
    prepare_statement api "HAS_TABLE"
        "SELECT 1 FROM pg_catalog.pg_class WHERE relname = $1 AND relkind = 'r'" 1
    prepare_statement api "INSERT_SENSOR"
        "INSERT INTO sensors (uuid, external_id, name, description, unit, timezone, device_type_id) VALUES ($1::varchar, $2::varchar, $3::varchar, $4::varchar, $5::varchar, $6::varchar, $7::integer)"
        7
    prepare_statement api "DELETE_SENSOR" "DELETE FROM sensors WHERE uuid = $1::varchar" 1
    prepare_statement api "UPDATE_SENSOR"
        "UPDATE sensors SET external_id = $2::varchar, name = $3::varchar, description = $4::varchar, unit = $5::varchar, timezone = $6::varchar, device_type_id = $7::integer WHERE uuid = $1::varchar"
        7
    prepare_statement api "SELECT_SENSORS"
        "SELECT uuid, external_id, name, description, unit, timezone, device_type_id FROM sensors" 0
    prepare_statement api "INSERT_READING"
        "INSERT INTO readings (uuid, timestamp, value) VALUES ($1::varchar, $2::integer, $3::float8)"
        3
    prepare_statement api "COPY_READINGS"
        "COPY readings (uuid, timestamp, value) FROM STDIN (FORMAT csv, DELIMITER ',')" 0
    prepare_statement api "UPDATE_READING"
        "UPDATE readings SET timestamp = $2::integer, value = $3::float8 WHERE uuid = $1::varchar" 3
    prepare_statement api "SELECT_READINGS"
        "SELECT timestamp, value FROM readings WHERE uuid = $1::varchar" 1
    prepare_statement api "SELECT_TIMEFRAME_READINGS"
        "SELECT timestamp, value FROM readings WHERE uuid = $1::varchar AND timestamp BETWEEN $2::integer AND $3::integer"
        3
    prepare_statement api "COUNT_READINGS" "SELECT COUNT(*) FROM readings WHERE uuid = $1::varchar"
        3
    prepare_statement api "SELECT_LAST_READING"
        "SELECT timestamp, value FROM readings WHERE uuid = $1::varchar ORDER BY timestamp DESC LIMIT 1"
        1
    prepare_statement api "SELECT_READING"
        "SELECT timestamp, value FROM readings WHERE uuid = $1::varchar AND timestamp = $2::integer"
        1

  -- prepare
  unfoldable pub prepare : Records (Members W) → Exec (Store (Members W)) Unit
  unfolding prepare_statements Flush.prepare
  prepare r = do on_postgres prepare_statements; Flush.prepare r
