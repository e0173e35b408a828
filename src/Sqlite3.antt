-- ===== src/Sqlite3.antt =====
-- libklio/sqlite3/sqlite3-store.hpp and sqlite3-store.cpp: the members of the store, its statements
-- and the cache of statements. The C interface of SQLite and the file system are parameters.
pub mod Connection
pub mod Schema
pub mod SensorRecords
pub mod ReadingRecords
pub mod Rotation
pub mod Cached
pub mod Requests
pub mod Table
pub mod Integrity
pub mod Connected
use libklio.Prelude.{
  ℕ, suc, ◌-◌, ◌%◌, ◌^◌, Bool, true, false, not, Option, none, some, String, List, [], ◌∷◌, ◌==◌,
  ltb, nat_eq, string_eq, if◌then◌else◌,
}
use libklio.Prelude.Int.{ℤ, pos, negsuc}
use libklio.Exec.{
  Exec, Result, ok, err, pure, throw, modify, ◌>>=◌, ◌>>◌, store_exception, undefined_behaviour,
}
use libklio.HashMap
use libklio.HashMap.{HashMap}
use libklio.Time.{Double}
use libklio.Transaction.{Transaction, Statement}

-- A pointer to an object of SQLite; 0 is NULL.
abbrev pub Pointer : Type 0
Pointer = ℕ

abbrev pub sqlite_ok : ℕ
sqlite_ok = 0

abbrev pub sqlite_row : ℕ
sqlite_row = 100

abbrev pub sqlite_done : ℕ
sqlite_done = 101

-- The functions of SQLite and of boost::filesystem on what lies outside the program. `open_v2` and
-- `prepare_v2` return the code and the pointer that they write; `column_text` may be NULL.
pub record Api (W : Type 0) : Type 0 where
  pub open_v2 : String → W → (ℕ × Pointer) × W
  pub close_v2 : Pointer → W → ℕ × W
  pub prepare_v2 : Pointer → String → W → (ℕ × Pointer) × W
  pub exec : Pointer → String → W → ℕ × W
  pub step : Pointer → W → ℕ × W
  pub sqlite3_reset : Pointer → W → W
  pub clear_bindings : Pointer → W → W
  pub sqlite3_finalize : Pointer → W → W
  pub bind_text : Pointer → ℕ → String → W → W
  pub bind_int : Pointer → ℕ → ℤ → W → W
  pub bind_double : Pointer → ℕ → Double → W → W
  pub column_text : Pointer → ℕ → W → Option String
  pub column_int : Pointer → ℕ → W → ℤ
  pub column_double : Pointer → ℕ → W → Double
  pub exists : String → W → Result Bool
  pub is_directory : String → W → Result Bool
  pub is_regular_file : String → W → Result Bool
  pub file_size : String → W → Result ℕ
  pub remove : String → W → Result (Unit {0}) × W
  pub rename : String → String → W → Result (Unit {0}) × W

-- An SQLite3Transaction: `_db` and `_pending`.
pub record Handler : Type 0 where
  pub connection : Pointer
  pub pending : Bool

-- The members that point to prepared statements.
pub record Prepared : Type 0 where
  pub insert_sensor_stmt : Pointer
  pub remove_sensor_stmt : Pointer
  pub update_sensor_stmt : Pointer
  pub select_sensor_stmt : Pointer
  pub select_sensor_by_external_id_stmt : Pointer
  pub select_sensor_by_name_stmt : Pointer
  pub select_sensors_stmt : Pointer
  pub select_all_sensor_uuids_stmt : Pointer

abbrev pub no_statements : Prepared
no_statements = record {
  insert_sensor_stmt = 0;
  remove_sensor_stmt = 0;
  update_sensor_stmt = 0;
  select_sensor_stmt = 0;
  select_sensor_by_external_id_stmt = 0;
  select_sensor_by_name_stmt = 0;
  select_sensors_stmt = 0;
  select_all_sensor_uuids_stmt = 0;
}

-- The members of the class. `transactions` are the handlers that were made, by their place; `world`
-- is what lies outside the program.
pub record Members (W : Type 0) : Type 0 where
  pub path : String
  pub connection : Pointer
  pub transaction : Option ℕ
  pub transactions : HashMap ℕ Handler
  pub next_transaction : ℕ
  pub synchronous : String
  pub prepared : Prepared
  pub statements : HashMap String Pointer
  pub world : W

-- The conversion of a `long` to an `int`, which keeps the lowest 32 bits.
abbrev pub to_signed : ℕ → ℤ
to_signed n = if ltb n (2 ^ 31) then pos n else negsuc (2 ^ 32 - 1 - n)

unfoldable pub to_int : ℤ → ℤ
to_int (pos n) = to_signed (n % 2 ^ 32)
to_int (negsuc n) = to_signed (2 ^ 32 - 1 - n % 2 ^ 32)

module _ {W : Type 0} where
  -- The constructor.
  abbrev pub create_members : String → String → W → Members W
  create_members path synchronous world = record {
    path = path;
    connection = 0;
    transaction = none;
    transactions = [];
    next_transaction = 0;
    synchronous = synchronous;
    prepared = no_statements;
    statements = [];
    world = world;
  }

  -- `_transaction->pending()`, of a handler at its place.
  abbrev pub pending_at : Option ℕ → Members W → Bool
  pending_at none s = false
  pending_at (some t) s = elim (HashMap.find t s.transactions) [ none ↦ false | some h ↦ h.pending ]

  -- A call that writes no member and throws nothing.
  abbrev pub act : (W → W) → Members W → Members W
  act f s = record s { world = f s.world }

module _ {W : Type 0} (api : Api W) where
  abbrev pub reset : Pointer → Members W → Members W
  reset stmt = act λ w. api.clear_bindings stmt (api.sqlite3_reset stmt w)

  -- finalize, without the pointer that it sets to NULL
  abbrev pub finalize : Pointer → Members W → Members W
  finalize stmt = act (api.sqlite3_finalize stmt)

  abbrev prepared_to : (ℕ × Pointer) × W → Exec (Members W) Pointer
  prepared_to ((code, stmt), w) s =
      if code == sqlite_ok
      then (ok stmt, record s { world = w })
      else (err store_exception, record s { world = api.sqlite3_finalize stmt w })

  -- prepare(stmt_str)
  unfoldable pub prepare_statement : String → Exec (Members W) Pointer
  prepare_statement sql s = prepared_to (api.prepare_v2 s.connection sql s.world) s

  abbrev pub enter_statement : String → Pointer → Members W → Members W
  enter_statement sql stmt s = record s { statements = HashMap.assign sql stmt s.statements }

  abbrev cached_or_new : String → Option Pointer → Exec (Members W) Pointer
  cached_or_new sql (some stmt) = pure stmt
  cached_or_new sql none = do
    stmt ← prepare_statement sql
    modify (enter_statement sql stmt)
    pure stmt

  unfoldable pub get_statement : String → Exec (Members W) Pointer
  unfolding prepare_statement
  get_statement sql s = cached_or_new sql (HashMap.find sql s.statements) s

  abbrev stepped : Pointer → ℕ → ℕ × W → Exec (Members W) Unit
  stepped stmt expected_code (code, w) s =
      if code == expected_code
      then (ok tt, record s { world = w })
      else (err store_exception, reset stmt (record s { world = w }))

  -- execute, whose result no caller uses
  unfoldable pub execute : Pointer → ℕ → Exec (Members W) Unit
  execute stmt expected_code s = stepped stmt expected_code (api.step stmt s.world) s

  -- The statement that a handler sends through sqlite3_exec.
  abbrev pub execute_on : Pointer → Statement W
  execute_on connection command w =
      let (code, w') = api.exec connection command w in (ok (code == sqlite_ok), w')

  abbrev pub as_transaction : Handler → W → Transaction W
  as_transaction h w = record { connected = not (h.connection == 0); pending = h.pending; db = w }

  abbrev after_handler :
      ℕ → Handler → Members W → Result (Unit {0}) × Transaction W → Result (Unit {0}) × Members W
  after_handler t h s (result, x) = (
    result,
    record s {
      transactions = HashMap.assign t (record h { pending = x.pending }) s.transactions;
      world = x.db;
    },
  )

  abbrev drive_handler :
      (Statement W → Exec (Transaction W) Unit) → ℕ → Option Handler → Exec (Members W) Unit
  drive_handler f t none s = (err undefined_behaviour, s)
  drive_handler f t (some h) s =
      after_handler t h s (f (execute_on h.connection) (as_transaction h s.world))

  -- A function of the handler at a place.
  unfoldable pub drive : (Statement W → Exec (Transaction W) Unit) → ℕ → Exec (Members W) Unit
  drive f t s = drive_handler f t (HashMap.find t s.transactions) s

  -- create_transaction_handler
  unfoldable pub create_transaction_handler : Exec (Members W) ℕ
  create_transaction_handler s = (
    ok s.next_transaction,
    record s {
      transactions =
          HashMap.assign s.next_transaction (record { connection = s.connection; pending = false })
            s.transactions;
      next_transaction = suc s.next_transaction;
    },
  )
