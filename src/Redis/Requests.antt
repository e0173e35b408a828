-- ===== src/Redis/Requests.antt =====
-- libklio/redis/redis-store.cpp: the functions of the store that `Store` calls, and those that select
-- readings.
use libklio.Prelude.{ℕ, Bool, true, false, Option, none, some, [], ◌∷◌, nat_eq, length}
use libklio.Prelude.Int.{pos}
use libklio.Exec.{Exec, Result, ok, err, pure, ◌>>=◌, undefined_behaviour}
use libklio.HashMap
use libklio.Time.{Timestamp, Readings, Reading, timestamp_less, zero_double}
use libklio.Sensor.{Sensor, Library}
use libklio.Store.{Store, Call, Records, Backend, run}
use libklio.Store.Access.{get_all_readings}
use libklio.Store.Buffers
use libklio.Store.Flush
use libklio.Transaction.{redis_start, redis_commit, redis_rollback}
use libklio.Txt.{select}
use libklio.Redis.{
  Connection, after, existence, check_sensor_existence, run_hget_readings, redis_add_sensor_record,
  redis_remove_sensor_record, redis_update_sensor_record, redis_add_single_reading_record,
  redis_add_bulk_reading_records, redis_update_reading_records, redis_get_sensor_records,
  redis_get_all_reading_records, redis_get_reading_record,
}
use libklio.Redis.Lifetime.{
  Client, Handler, Members, pointed, store_of, world_after, get_transaction_handler, drive, request,
}

-- `*(readings->end())` has no meaning.
abbrev last_of : Readings → Result Reading
last_of [] = ok (pos 0, zero_double)
last_of (reading ∷ rest) = err undefined_behaviour

abbrev pending_of : Option Handler → Bool
pending_of none = false
pending_of (some h) = h.pending

module _ {C : Type 0} (client : Client C) (l : Library) where
  -- The loop is that of the text files.
  unfoldable pub redis_get_timeframe_reading_records :
      Connection C → Sensor → Timestamp → Timestamp → Store C → Result Readings × C
  unfolding existence run_hget_readings select
  redis_get_timeframe_reading_records c sensor begin end s =
      check_sensor_existence c l sensor true s λ w.
        after c l (run_hget_readings c l sensor w)
          λ readings w'. (ok (select begin end readings []), w')

  -- A function of the connection, in the store.
  abbrev on_pointed : {A : Type 0} → (Connection C → Store C → Result A × C) → Call (Members C) A
  on_pointed f s = world_after s.db (f (pointed s.db.connected client.connection) (store_of s))

  unfoldable pub redis_records : Records (Members C)
  unfolding get_transaction_handler drive redis_start redis_commit redis_rollback
      redis_add_sensor_record redis_remove_sensor_record redis_update_sensor_record
      redis_add_single_reading_record redis_add_bulk_reading_records redis_update_reading_records
      redis_get_sensor_records redis_get_all_reading_records
  redis_records = record {
    get_transaction_handler = get_transaction_handler;
    pending = λ t s. pending_of (HashMap.find t s.db.transactions);
    start = λ t s. drive client l (redis_start (request client l)) t s.db;
    commit = λ t s. drive client l (redis_commit (request client l)) t s.db;
    rollback = λ t s. drive client l (redis_rollback (request client l)) t s.db;
    add_sensor_record = λ sensor. on_pointed λ c. redis_add_sensor_record c l sensor;
    remove_sensor_record = λ sensor. on_pointed λ c. redis_remove_sensor_record c l sensor;
    update_sensor_record = λ sensor. on_pointed λ c. redis_update_sensor_record c l sensor;
    add_single_reading_record =
        λ sensor t v i. on_pointed λ c. redis_add_single_reading_record c l sensor t v i;
    add_bulk_reading_records =
        λ sensor r i. on_pointed λ c. redis_add_bulk_reading_records c l sensor r i;
    update_reading_records =
        λ sensor r i. on_pointed λ c. redis_update_reading_records c l sensor r i;
    get_sensor_records = on_pointed λ c. redis_get_sensor_records c l;
    get_all_reading_records = λ sensor. on_pointed λ c. redis_get_all_reading_records c l sensor;
  }

  unfoldable pub redis_get_num_readings_value : Sensor → Exec (Store (Members C)) ℕ
  unfolding get_all_readings redis_records
  redis_get_num_readings_value sensor = do
    readings ← get_all_readings redis_records sensor
    pure (length readings)

  unfoldable pub redis_get_last_reading_record : Sensor → Exec (Store (Members C)) Reading
  unfolding get_all_readings redis_records
  redis_get_last_reading_record sensor = do
    readings ← get_all_readings redis_records sensor
    λ s. (last_of readings, s)

  unfoldable pub redis_store : Backend (Members C)
  unfolding redis_records redis_get_timeframe_reading_records redis_get_last_reading_record
      redis_get_reading_record redis_get_num_readings_value Buffers.clear_buffers Flush.prepare
  redis_store = record {
    records = redis_records;
    prepare = Flush.prepare redis_records;
    clear_buffers = Buffers.clear_buffers;
    get_timeframe_reading_records = λ sensor begin end.
        run (on_pointed λ c. redis_get_timeframe_reading_records c sensor begin end);
    get_last_reading_record = redis_get_last_reading_record;
    get_reading_record = λ sensor t. run (on_pointed λ c. redis_get_reading_record c l sensor t);
    get_num_readings_value = redis_get_num_readings_value;
  }
