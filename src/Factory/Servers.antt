-- ===== src/Factory/Servers.antt =====
-- libklio/store-factory.cpp: how stores of Redis and PostgreSQL are made.
use libklio.Prelude.{ℕ, Bool, true, String, if◌then◌else◌}
use libklio.Prelude.Int.{pos}
use libklio.Exec.{Result, pure, ◌>>◌}
use libklio.Time.{Timestamp}
use libklio.Sensor.{Library}
use libklio.Store.{Store, create}
use libklio.Store.Flush as Flush
use libklio.Redis.Lifetime as RedisLifetime
use libklio.Redis.Requests.{redis_records}
use libklio.Postgres as Postgres
use libklio.Postgres.Lifetime as PostgresLifetime
use libklio.Postgres.Backend.{postgresql_records}

abbrev default_redis_host : String
default_redis_host = "redis-server1"

abbrev default_redis_port : ℕ
default_redis_port = 6379

abbrev default_redis_db : ℕ
default_redis_db = 0

abbrev default_connection_info : String
default_connection_info =
    "host=postgresql-server1 port=5432 dbname=kliostore user=kliouser password=12test34"

-- Stores of Redis; initializing one does nothing.
module _ {C : Type 0} (client : RedisLifetime.Client C) (l : Library) where
  abbrev RedisStore : Type 0
  RedisStore = Store (RedisLifetime.Members C)

  unfoldable pub create_redis_store_with :
      String → ℕ → ℕ → Bool → Bool → Timestamp → C → Result (Unit {0}) × RedisStore
  unfolding create RedisLifetime.open_store redis_records Flush.prepare
  create_redis_store_with host port db auto_commit auto_flush flush_timeout world =
      (do
        RedisLifetime.on_redis (RedisLifetime.open_store client l)
        Flush.prepare (redis_records client l))
        (create auto_commit auto_flush flush_timeout 10 10000
          (RedisLifetime.create_redis host port db world))

  unfoldable pub create_redis_store : String → ℕ → ℕ → C → Result (Unit {0}) × RedisStore
  unfolding create_redis_store_with
  create_redis_store host port db = create_redis_store_with host port db true true (pos 600)

  unfoldable pub create_default_redis_store : C → Result (Unit {0}) × RedisStore
  unfolding create_redis_store
  create_default_redis_store =
      create_redis_store default_redis_host default_redis_port default_redis_db

-- Stores of PostgreSQL; `fuel` bounds the results that wait on a connection.
module _ {W : Type 0} (api : Postgres.Api W) (l : Library) (fuel : ℕ) where
  abbrev PostgresStore : Type 0
  PostgresStore = Store (Postgres.Members W)

  unfoldable pub create_postgresql_store_with :
      String → Bool → Bool → Bool → Timestamp → Bool → W → Result (Unit {0}) × PostgresStore
  unfolding create PostgresLifetime.open_store PostgresLifetime.initialize PostgresLifetime.prepare
      postgresql_records
  create_postgresql_store_with info prepared auto_commit auto_flush flush_timeout synchronous
        world =
      (do
        PostgresLifetime.on_postgres (PostgresLifetime.open_store api)
        PostgresLifetime.on_postgres (PostgresLifetime.initialize api)
        if prepared then PostgresLifetime.prepare api (postgresql_records api l fuel) else pure tt)
        (create auto_commit auto_flush flush_timeout 10 100000
          (Postgres.create_postgresql info synchronous world))

  unfoldable pub create_postgresql_store : String → Bool → W → Result (Unit {0}) × PostgresStore
  unfolding create_postgresql_store_with
  create_postgresql_store info prepared =
      create_postgresql_store_with info prepared true true (pos 600) true

  unfoldable pub create_default_postgresql_store : W → Result (Unit {0}) × PostgresStore
  unfolding create_postgresql_store
  create_default_postgresql_store = create_postgresql_store default_connection_info true
