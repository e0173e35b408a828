-- ===== src/Redis/Lifetime.antt =====
-- libklio/redis/redis-store.hpp and redis-store.cpp: the members of the store, opening and closing it, its
-- transaction handlers, and the functions that `Store` calls.
use libklio.Prelude.{
  ℕ, suc, Bool, true, false, String, Option, none, some, List, [], ◌∷◌, nat_eq, if◌then◌else◌,
}
use libklio.Exec.{Exec, Result, ok, err, pure, modify, ◌>>=◌, ◌>>◌, undefined_behaviour}
use libklio.HashMap
use libklio.HashMap.{HashMap}
use libklio.Time.{timestamp_less}
use libklio.Sensor.{Library}
use libklio.Store.{Store, Call, run}
use libklio.Store.Buffers
use libklio.Transaction.{Transaction, Element, redis_rollback}
use libklio.Redis.{Connection, after, send, run_select, redis_check_integrity}

-- redis3m: a connection, how one is made, and std::to_string.
pub record Client (C : Type 0) : Type 0 where
  pub connection : Connection C
  pub create_connection : String → ℕ → C → Result (Unit {0}) × C
  pub to_string : ℕ → String

-- A RedisTransaction: whether its pointer to the connection is set, and `_pending`.
pub record Handler : Type 0 where
  pub connected : Bool
  pub pending : Bool

-- The members of the class. `connected` says that `_connection` is set; `transactions` are the handlers
-- that were made, by their place; `world` is the server.
pub record Members (C : Type 0) : Type 0 where
  pub host : String
  pub port : ℕ
  pub index : ℕ
  pub connected : Bool
  pub transaction : Option ℕ
  pub transactions : HashMap ℕ Handler
  pub next_transaction : ℕ
  pub world : C

-- The constructor.
abbrev pub create_redis : {C : Type 0} → String → ℕ → ℕ → C → Members C
create_redis host port index world = record {
  host = host;
  port = port;
  index = index;
  connected = false;
  transaction = none;
  transactions = [];
  next_transaction = 0;
  world = world;
}

abbrev pub on_redis : {C A : Type 0} → Exec (Members C) A → Exec (Store (Members C)) A
on_redis f = run λ s. f s.db

module _ {C : Type 0} where
  abbrev pub world_after : {A : Type 0} → Members C → Result A × C → Result A × Members C
  world_after m (result, w) = (result, record m { world = w })

  abbrev pub store_of : Store (Members C) → Store C
  store_of s = record {
    auto_commit = s.auto_commit;
    auto_flush = s.auto_flush;
    flush_timeout = s.flush_timeout;
    last_flush = s.last_flush;
    min_bulk_size = s.min_bulk_size;
    max_bulk_size = s.max_bulk_size;
    sensors_buffer = s.sensors_buffer;
    reading_operations_buffer = s.reading_operations_buffer;
    external_ids_buffer = s.external_ids_buffer;
    db = s.db.world;
  }

  -- What `_connection` points to; a command through a null pointer has no meaning.
  abbrev pub pointed : Bool → Connection C → Connection C
  pointed true c = c
  pointed false c = record c { run = λ command w. (err undefined_behaviour, w) }

  unfoldable pub create_transaction_handler : Exec (Members C) ℕ
  create_transaction_handler s = (
    ok s.next_transaction,
    record s {
      transactions =
          HashMap.assign s.next_transaction (record { connected = s.connected; pending = false })
            s.transactions;
      next_transaction = suc s.next_transaction;
    },
  )

  unfoldable pub get_transaction_handler : Call (Members C) (Option ℕ)
  unfolding create_transaction_handler
  get_transaction_handler s =
      (if s.auto_commit then (create_transaction_handler >>= λ t. pure (some t)) else λ m.
      (ok m.transaction, m))
        s.db

module _ {C : Type 0} (client : Client C) (l : Library) where
  abbrev pub request : String → C → Result (List Element) × C
  request command w =
      after client.connection l (client.connection.run (command ∷ []) w)
        λ reply w'. (ok reply.elements, w')

  abbrev after_handler :
      ℕ → Handler → Members C → Result (Unit {0}) × Transaction C → Result (Unit {0}) × Members C
  after_handler t h m (result, x) = (
    result,
    record m {
      transactions = HashMap.assign t (record h { pending = x.pending }) m.transactions;
      world = x.db;
    },
  )

  abbrev drive_handler : Exec (Transaction C) Unit → ℕ → Option Handler → Exec (Members C) Unit
  drive_handler f t none m = (err undefined_behaviour, m)
  drive_handler f t (some h) m =
      after_handler t h m
        (f (record { connected = h.connected; pending = h.pending; db = m.world }))

  -- A function of the handler at a place.
  unfoldable pub drive : Exec (Transaction C) Unit → ℕ → Exec (Members C) Unit
  drive f t m = drive_handler f t (HashMap.find t m.transactions) m

  abbrev on_connection : {A : Type 0} → (Connection C → C → Result A × C) → Exec (Members C) A
  on_connection f m = world_after m (f (pointed m.connected client.connection) m.world)

  abbrev connect : Exec (Members C) Unit
  connect m = world_after m (client.create_connection m.host m.port m.world)

  abbrev select_index : Exec (Members C) Unit
  select_index m =
      world_after m
        (run_select (pointed m.connected client.connection) l (client.to_string m.index) m.world)

  -- open
  unfoldable pub open_store : Exec (Members C) Unit
  unfolding run_select create_transaction_handler
  open_store m =
      (if m.connected then pure tt else (do
        connect
        modify λ m'. record m' { connected = true }
        select_index
        t ← create_transaction_handler
        modify λ m'. record m' { transaction = some t }))
        m

  abbrev roll_back_at : Option ℕ → Exec (Members C) Unit
  roll_back_at none = pure tt
  roll_back_at (some t) = drive (redis_rollback request) t

  -- close; `_connection` stays as it is.
  unfoldable pub close_store : Exec (Store (Members C)) Unit
  unfolding drive redis_rollback Buffers.clear_buffers
  close_store = do
    on_redis λ m. (if m.connected then roll_back_at m.transaction else pure tt) m
    modify Buffers.clear_buffers

  -- check_integrity
  unfoldable pub check_integrity : Members C → Result (Unit {0})
  unfolding redis_check_integrity
  check_integrity m =
      if m.connected
      then redis_check_integrity client.connection l m.world
      else err undefined_behaviour

  unfoldable pub run_flushdb : Exec (Members C) Unit
  run_flushdb = on_connection λ c. send c l ("FLUSHDB" ∷ [])

  -- dispose
  unfoldable pub dispose : Exec (Store (Members C)) Unit
  unfolding run_flushdb close_store
  dispose = do on_redis λ m. (if m.connected then run_flushdb else pure tt) m; close_store
