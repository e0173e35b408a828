-- ===== src/Transaction.antt =====
-- libklio/transaction.hpp, libklio/sqlite3/sqlite3-transaction.cpp,
-- libklio/postgresql/postgresql-transaction.cpp, libklio/redis/redis-transaction.cpp: the handlers
-- of the databases. What the log says is left out.
pub mod Agreement
pub mod Replies
use libklio.Prelude.{
  ℕ, Bool, true, false, String, List, [], ◌∷◌, ◌&&◌, not, ◌==◌, if◌then◌else◌, string_eq,
}
use libklio.Prelude.Int.{ℤ, pos, int_eq}
use libklio.Exec.{Exec, Result, ok, err, pure, throw, store_exception}

-- A handler: whether its database pointer is set, `_pending`, and the database.
pub record Transaction (D : Type 0) : Type 0 where
  pub connected : Bool
  pub pending : Bool
  pub db : D

-- A statement sent to the database: whether it succeeded, or an exception.
abbrev pub Statement : Type 0 → Type 0
Statement D = String → D → Result Bool × D

module _ {D : Type 0} where
  -- The handler after a statement: `_pending` is set to `flag` where the statement succeeded.
  abbrev pub settle : Bool → Transaction D → Result Bool × D → Result (Unit {0}) × Transaction D
  settle flag s (ok true, d) = (ok tt, record s { pending = flag; db = d })
  settle flag s (ok false, d) = (ok tt, record s { db = d })
  settle flag s (err e, d) = (err e, record s { db = d })

module _ {D : Type 0} (execute : Statement D) where
  unfoldable pub begin_with : String → Exec (Transaction D) Unit
  begin_with command s =
      if s.connected
      then (if s.pending then (ok tt, s) else settle true s (execute command s.db))
      else (err store_exception, s)

  unfoldable pub end_with : String → Exec (Transaction D) Unit
  end_with command s =
      if s.connected
      then (if s.pending then settle false s (execute command s.db) else (ok tt, s))
      else (ok tt, s)

-- SQLite3Transaction; `execute` is sqlite3_exec() == SQLITE_OK.
module _ {D : Type 0} (execute : Statement D) where
  unfoldable pub sqlite3_start : Exec (Transaction D) Unit
  unfolding begin_with
  sqlite3_start = begin_with execute "BEGIN"

  unfoldable pub sqlite3_commit : Exec (Transaction D) Unit
  unfolding end_with
  sqlite3_commit = end_with execute "COMMIT"

  unfoldable pub sqlite3_rollback : Exec (Transaction D) Unit
  unfolding end_with
  sqlite3_rollback = end_with execute "ROLLBACK"

-- PostgreSQLTransaction; `execute` is PQexec with the status PGRES_COMMAND_OK.
module _ {D : Type 0} (execute : Statement D) where
  unfoldable pub postgresql_start : Exec (Transaction D) Unit
  unfolding begin_with
  postgresql_start = begin_with execute "BEGIN"

  unfoldable pub postgresql_commit : Exec (Transaction D) Unit
  unfolding end_with
  postgresql_commit = end_with execute "COMMIT"

  unfoldable pub postgresql_rollback : Exec (Transaction D) Unit
  unfolding end_with
  postgresql_rollback = end_with execute "ROLLBACK"

-- An element of a reply of Redis.
pub record Element : Type 0 where
  pub integer : ℤ
  pub str : String

-- RedisTransaction::run, from the replies on
unfoldable pub all_accepted : List Element → Bool
all_accepted [] = true
all_accepted (reply ∷ rest) =
    let others = all_accepted rest in
    if reply.integer == pos 0 && not (reply.str == "OK") then false else others

abbrev pub checked : {D : Type 0} → Result (List Element) × D → Result Bool × D
checked (ok replies, d) = (ok (all_accepted replies), d)
checked (err e, d) = (err e, d)

-- `request` is what `_connection->run(command).elements()` does.
module _ {D : Type 0} (request : String → D → Result (List Element) × D) where
  unfoldable pub redis_run : Statement D
  unfolding all_accepted
  redis_run command d = checked (request command d)

  unfoldable pub redis_start : Exec (Transaction D) Unit
  unfolding begin_with redis_run
  redis_start = begin_with redis_run "MULTI"

  unfoldable pub redis_commit : Exec (Transaction D) Unit
  unfolding end_with redis_run
  redis_commit = end_with redis_run "EXEC"

  unfoldable pub redis_rollback : Exec (Transaction D) Unit
  unfolding end_with redis_run
  redis_rollback = end_with redis_run "DISCARD"
