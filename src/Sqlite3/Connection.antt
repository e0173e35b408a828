-- ===== src/Sqlite3/Connection.antt =====
-- libklio/sqlite3/sqlite3-store.cpp: opening and closing the database, and the statements that live
-- as long as it is open.
use libklio.Prelude.{ℕ, Option, none, some, String, [], ◌∷◌, ◌==◌, nat_eq, if◌then◌else◌}
use libklio.Exec.{Exec, ok, err, pure, throw, modify, ◌>>=◌, ◌>>◌, store_exception}
use libklio.HashMap
use libklio.HashMap.{HashMap}
use libklio.Store.{Store, run}
use libklio.Store.Buffers
use libklio.Transaction.{sqlite3_rollback}
use libklio.Sqlite3.{
  Api, Members, Pointer, Handler, no_statements, sqlite_ok, finalize, drive,
  create_transaction_handler,
}

-- A function of the members, as one of the store.
abbrev pub on_members : {W A : Type 0} → Exec (Members W) A → Exec (Store (Members W)) A
on_members f = run λ s. f s.db

module _ {W : Type 0} where
  abbrev connect_handler : ℕ → Pointer → Option Handler → Members W → Members W
  connect_handler t connection none s = s
  connect_handler t connection (some h) s = record s {
    transactions = HashMap.assign t (record h { connection = connection }) s.transactions;
  }

  abbrev connect_at : Option ℕ → Pointer → Members W → Members W
  connect_at none connection s = s
  connect_at (some t) connection s = connect_handler t connection (HashMap.find t s.transactions) s

  -- if (_transaction) { _transaction->db(connection); }
  unfoldable pub connect_transaction : Pointer → Members W → Members W
  connect_transaction connection s = connect_at s.transaction connection s

module _ {W : Type 0} (api : Api W) where
  abbrev closed : ℕ × W → Exec (Members W) Unit
  closed (code, w) s =
      if code == sqlite_ok
      then (ok tt, connect_transaction 0 (record s { connection = 0; world = w }))
      else (err store_exception, record s { world = w })

  unfoldable pub close_db : Exec (Members W) Unit
  unfolding connect_transaction
  close_db s = closed (api.close_v2 s.connection s.world) s

  -- `_transaction = create_transaction_handler()`, where there is none
  abbrev pub take_handler : Option ℕ → Exec (Members W) Unit
  take_handler (some t) s = (ok tt, connect_transaction s.connection s)
  take_handler none s =
      (create_transaction_handler api >>= λ t. modify λ s'. record s' { transaction = some t }) s

  abbrev pub refused : Members W → Exec (Members W) Unit
  refused s =
      if s.connection == 0
      then (do modify (connect_transaction 0); throw store_exception)
      else (do close_db; throw store_exception)

  abbrev pub opened : ℕ → Exec (Members W) Unit
  opened code s = (if code == sqlite_ok then take_handler s.transaction else refused s) s

  abbrev open_at : (ℕ × Pointer) × W → Exec (Members W) Unit
  open_at ((code, connection), w) s = opened code (record s { connection = connection; world = w })

  unfoldable pub open_db : Exec (Members W) Unit
  unfolding close_db connect_transaction create_transaction_handler
  open_db s = open_at (api.open_v2 s.path s.world) s

  -- open
  unfoldable pub open_store : Exec (Members W) Unit
  unfolding open_db
  open_store s = (if s.connection == 0 then open_db else pure tt) s

  unfoldable pub finalize_all : HashMap String Pointer → Members W → Members W
  finalize_all [] s = s
  finalize_all ((sql, stmt) ∷ rest) s = finalize_all rest (finalize api stmt s)

  unfoldable pub finalize_statements : Members W → Members W
  unfolding finalize_all
  finalize_statements s = record (finalize_all s.statements s) {
    prepared = no_statements;
    statements = [];
  }

  -- SQLite3Store::clear_buffers: the statements are dropped from the cache and stay alive.
  unfoldable pub clear_buffers : Store (Members W) → Store (Members W)
  unfolding Buffers.clear_buffers
  clear_buffers s =
      let s' = Buffers.clear_buffers s in record s' { db = record s'.db { statements = [] } }

  abbrev pub roll_back_at : Option ℕ → Exec (Members W) Unit
  roll_back_at none = pure tt
  roll_back_at (some t) = drive api sqlite3_rollback t

  -- close
  unfoldable pub close_store : Exec (Store (Members W)) Unit
  unfolding finalize_statements clear_buffers close_db drive
  close_store s =
      (if s.db.connection == 0 then pure tt else (do
        on_members (modify finalize_statements)
        on_members (λ m. roll_back_at m.transaction m)
        modify clear_buffers
        on_members close_db))
        s

  -- dispose
  unfoldable pub dispose : Exec (Store (Members W)) Unit
  unfolding close_store
  dispose =
      close_store
      >> on_members λ s. let (r, w) = api.remove s.path s.world in (r, record s { world = w })
