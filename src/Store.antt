-- ===== src/Store.antt =====
-- libklio/store.hpp: the state of a store and the operations that a derived class gives.
pub mod Buffers
pub mod Transactions
pub mod Reliable
pub mod View
pub mod Flush
pub mod Commit
pub mod Sensors
pub mod Access
pub mod Sync
pub mod Steps
use libklio.Prelude.{ℕ, Bool, Option, none, some, String, List, []}
use libklio.Prelude.Int.{pos}
use libklio.Exec.{Exec, Result}
use libklio.HashMap.{HashMap}
use libklio.Time.{Timestamp, Double, Readings, Reading}
use libklio.Sensor.{Sensor, Uuid}

-- The operations of the write buffer: INSERT_OPERATION, UPDATE_OPERATION, DELETE_OPERATION.
pub data Operation : Type 0 where
  insert_operation update_operation delete_operation : Operation

-- The map from an operation to its readings. `set_buffers`, which alone makes one, enters the
-- first two keys and no other.
pub record Operations : Type 0 where
  pub inserts : Readings
  pub updates : Readings

abbrev pub no_operations : Operations
no_operations = record { inserts = []; updates = [] }

-- cached_operations->at(operation_type): `none` is std::out_of_range
abbrev pub at : Operation → Operations → Option Readings
at insert_operation ops = some ops.inserts
at update_operation ops = some ops.updates
at delete_operation ops = none

abbrev pub replace : Operation → Readings → Operations → Operations
replace insert_operation readings ops = record ops { inserts = readings }
replace update_operation readings ops = record ops { updates = readings }
replace delete_operation readings ops = ops

-- The members of a store; `db` holds what the derived class adds. A `Sensor::Ptr` may be null.
pub record Store (D : Type 0) : Type 0 where
  pub auto_commit : Bool
  pub auto_flush : Bool
  pub flush_timeout : Timestamp
  pub last_flush : Timestamp
  pub min_bulk_size : ℕ
  pub max_bulk_size : ℕ
  pub sensors_buffer : HashMap Uuid (Option Sensor)
  pub reading_operations_buffer : HashMap Uuid Operations
  pub external_ids_buffer : HashMap String Uuid
  pub db : D

-- The constructor of `Store`.
unfoldable pub create : {D : Type 0} → Bool → Bool → Timestamp → ℕ → ℕ → D → Store D
create auto_commit auto_flush flush_timeout min_bulk_size max_bulk_size db = record {
  auto_commit = auto_commit;
  auto_flush = auto_flush;
  flush_timeout = flush_timeout;
  last_flush = pos 0;
  min_bulk_size = min_bulk_size;
  max_bulk_size = max_bulk_size;
  sensors_buffer = [];
  reading_operations_buffer = [];
  external_ids_buffer = [];
  db = db;
}

-- A function of the derived class that reads the store and writes only its own members.
abbrev pub Call : Type 0 → Type 0 → Type 0
Call D A = Store D → Result A × D

abbrev pub run : {D A : Type 0} → Call D A → Exec (Store D) A
run call s = let (r, d) = call s in (r, record s { db = d })

-- A transaction handler is an object of the derived class; `get_transaction_handler` returns its
-- place, and `none` for Transaction::Null.
pub record Records (D : Type 0) : Type 0 where
  pub get_transaction_handler : Call D (Option ℕ)
  pub pending : ℕ → Store D → Bool
  pub start : ℕ → Call D Unit
  pub commit : ℕ → Call D Unit
  pub rollback : ℕ → Call D Unit
  pub add_sensor_record : Sensor → Call D Unit
  pub remove_sensor_record : Sensor → Call D Unit
  pub update_sensor_record : Sensor → Call D Unit
  pub add_single_reading_record : Sensor → Timestamp → Double → Bool → Call D Unit
  pub add_bulk_reading_records : Sensor → Readings → Bool → Call D Unit
  pub update_reading_records : Sensor → Readings → Bool → Call D Unit
  pub get_sensor_records : Call D (List Sensor)
  pub get_all_reading_records : Sensor → Call D Readings

-- The functions that may call back into the store, or that override one of its own.
pub record Backend (D : Type 0) : Type 0 where
  pub records : Records D
  pub prepare : Exec (Store D) Unit
  pub clear_buffers : Store D → Store D
  pub get_timeframe_reading_records : Sensor → Timestamp → Timestamp → Exec (Store D) Readings
  pub get_last_reading_record : Sensor → Exec (Store D) Reading
  pub get_reading_record : Sensor → Timestamp → Exec (Store D) Reading
  pub get_num_readings_value : Sensor → Exec (Store D) ℕ
