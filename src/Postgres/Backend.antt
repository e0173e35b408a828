-- ===== src/Postgres/Backend.antt =====
-- libklio/postgresql/postgresql-store.hpp: the functions of the store that `Store` calls.
use libklio.Prelude.{ℕ, Bool, false, Option, none, some, nat_eq}
use libklio.HashMap
use libklio.Time.{timestamp_less}
use libklio.Sensor.{Library}
use libklio.Store.{Records, Backend}
use libklio.Store.Buffers
use libklio.Transaction.{postgresql_start, postgresql_commit, postgresql_rollback}
use libklio.Postgres.{Api, Members, Handler}
use libklio.Postgres.Lifetime.{on_postgres, get_transaction_handler, drive, prepare}
use libklio.Postgres.Records.{
  add_sensor_record, remove_sensor_record, update_sensor_record, add_single_reading_record,
  add_bulk_reading_records, update_reading_records, get_sensor_records, get_all_reading_records,
  get_timeframe_reading_records, get_last_reading_record, get_reading_record,
  get_num_readings_value,
}

module _ {W : Type 0} (api : Api W) (l : Library) where
  abbrev pending_of : Option Handler → Bool
  pending_of none = false
  pending_of (some h) = h.pending

  unfoldable pub postgresql_records : ℕ → Records (Members W)
  unfolding get_transaction_handler drive add_sensor_record remove_sensor_record
      update_sensor_record add_single_reading_record add_bulk_reading_records update_reading_records
      get_sensor_records get_all_reading_records postgresql_start postgresql_commit
      postgresql_rollback
  postgresql_records fuel = record {
    get_transaction_handler = get_transaction_handler;
    pending = λ t s. pending_of (HashMap.find t s.db.transactions);
    start = λ t s. drive api postgresql_start t s.db;
    commit = λ t s. drive api postgresql_commit t s.db;
    rollback = λ t s. drive api postgresql_rollback t s.db;
    add_sensor_record = λ sensor s. add_sensor_record api l sensor s.db;
    remove_sensor_record = λ sensor s. remove_sensor_record api l sensor s.db;
    update_sensor_record = λ sensor s. update_sensor_record api l sensor s.db;
    add_single_reading_record = λ sensor t v i s. add_single_reading_record api l sensor t v i s.db;
    add_bulk_reading_records = λ sensor r i s. add_bulk_reading_records api l fuel sensor r i s.db;
    update_reading_records = λ sensor r i s. update_reading_records api l sensor r i s.db;
    get_sensor_records = λ s. get_sensor_records api l s.db;
    get_all_reading_records = λ sensor s. get_all_reading_records api l fuel sensor s.db;
  }

  unfoldable pub postgresql_store : ℕ → Backend (Members W)
  unfolding postgresql_records prepare Buffers.clear_buffers get_timeframe_reading_records
      get_last_reading_record get_reading_record get_num_readings_value
  postgresql_store fuel = record {
    records = postgresql_records fuel;
    prepare = prepare api (postgresql_records fuel);
    clear_buffers = Buffers.clear_buffers;
    get_timeframe_reading_records =
        λ sensor begin end. on_postgres (get_timeframe_reading_records api l fuel sensor begin end);
    get_last_reading_record = λ sensor. on_postgres (get_last_reading_record api l fuel sensor);
    get_reading_record = λ sensor t. on_postgres (get_reading_record api l fuel sensor t);
    get_num_readings_value = λ sensor. on_postgres (get_num_readings_value api l sensor);
  }
