-- ===== src/Store/Flush.antt =====
-- libklio/store.cpp: writing the pending reading operations to the database.
pub mod Bulks
pub mod Writes
pub mod Flushed
pub mod Unseen
pub mod Indexed
use libklio.Prelude.{
  ℕ, zero, suc, ◌+◌, ◌-◌, ◌/◌, Bool, true, ◌&&◌, Option, none, some, [], ◌∷◌, ltb, leb, length,
  nat_eq, if◌then◌else◌,
}
use libklio.Prelude.Int.{◌-ℤ◌, leb_ℤ}
use libklio.Exec.{Exec, pure, throw, modify, ◌>>=◌, ◌>>◌, store_exception, undefined_behaviour}
use libklio.HashMap
use libklio.HashMap.{HashMap}
use libklio.OrdMap
use libklio.Time.{Readings, Timestamp, timestamp_less}
use libklio.Sensor.{Sensor, Uuid}
use libklio.Store.{Store, Records, Operations, run, insert_operation, update_operation}
use libklio.Store.Buffers.{write_buffered, set_all_buffers}
use libklio.Store.Transactions.{in_transaction}

-- while (reading != end && bulk->size() < _max_bulk_size) { bulk->insert(*reading); reading++; }
-- The result is the bulk and where the iterator stands.
pub fill : ℕ → Readings → Readings → Readings × Readings
fill max [] bulk = (bulk, [])
fill max ((t, v) ∷ rest) bulk =
    if ltb (length bulk) max then fill max rest (OrdMap.insert t v bulk) else (bulk, (t, v) ∷ rest)

-- (int) ceil(size / max): the quotient of two `unsigned int` as doubles rounds to no other integer.
-- A `max` of 0 has no defined result; it is 0 here.
pub bulk_count : ℕ → ℕ → ℕ
bulk_count size max = (size + max - 1) / max

module _ {D : Type 0} (r : Records D) where
  pub write_singles : Sensor → Bool → Readings → Exec (Store D) Unit
  write_singles sensor ignore_errors [] = pure tt
  write_singles sensor ignore_errors ((t, v) ∷ rest) = do
    run (r.add_single_reading_record sensor t v ignore_errors)
    write_singles sensor ignore_errors rest

  -- while (bulks-- > 0), from where the iterator stands
  pub write_bulks : Sensor → Bool → ℕ → ℕ → Readings → Exec (Store D) Unit
  unfolding fill
  write_bulks sensor ignore_errors max zero reading = pure tt
  write_bulks sensor ignore_errors max (suc bulks) reading =
      let (bulk, rest) = fill max reading [] in
      run (r.add_bulk_reading_records sensor bulk ignore_errors)
      >> write_bulks sensor ignore_errors max bulks rest

  pub write_inserts : Sensor → Bool → Readings → Exec (Store D) Unit
  unfolding write_singles write_bulks bulk_count
  write_inserts sensor ignore_errors readings s =
      (if leb (length readings) s.min_bulk_size
          then write_singles sensor ignore_errors readings
          else write_bulks sensor ignore_errors s.max_bulk_size
              (bulk_count (length readings) s.max_bulk_size) readings)
        s

  pub write_updates : Sensor → Bool → Readings → Exec (Store D) Unit
  write_updates sensor ignore_errors readings =
      if ltb 0 (length readings)
      then (do
        run (r.update_reading_records sensor readings ignore_errors)
        modify (write_buffered sensor.uuid update_operation []))
      else pure tt

  pub flush_operations : Sensor → Bool → Option Operations → Exec (Store D) Unit
  unfolding write_inserts write_updates
  flush_operations sensor ignore_errors none = throw store_exception
  flush_operations sensor ignore_errors (some ops) = do
    write_inserts sensor ignore_errors ops.inserts
    modify (write_buffered sensor.uuid insert_operation [])
    write_updates sensor ignore_errors ops.updates

  -- flush(sensor, ignore_errors)
  unfoldable pub flush_sensor : Sensor → Bool → Exec (Store D) Unit
  unfolding flush_operations
  flush_sensor sensor ignore_errors s =
      flush_operations sensor ignore_errors (HashMap.find sensor.uuid s.reading_operations_buffer) s

  pub flush_entries : Bool → HashMap Uuid (Option Sensor) → Exec (Store D) Unit
  unfolding flush_sensor
  flush_entries ignore_errors [] = pure tt
  flush_entries ignore_errors ((uuid, none) ∷ rest) = throw undefined_behaviour
  flush_entries ignore_errors ((uuid, some sensor) ∷ rest) = do
    flush_sensor sensor ignore_errors
    flush_entries ignore_errors rest

  unfoldable pub flush_all : Bool → Exec (Store D) Unit
  unfolding flush_entries
  flush_all ignore_errors s = flush_entries ignore_errors s.sensors_buffer s

  -- flush(ignore_errors); `flush()` passes _auto_flush
  unfoldable pub flush : Bool → Exec (Store D) Unit
  unfolding flush_all in_transaction
  flush ignore_errors = in_transaction r (flush_all ignore_errors)

  unfoldable pub flush_default : Exec (Store D) Unit
  unfolding flush
  flush_default s = flush s.auto_flush s

  -- `now` is what the clock shows when the function is called.
  unfoldable pub auto_flush : Timestamp → Exec (Store D) Unit
  unfolding flush_all in_transaction
  auto_flush now s =
      (if s.auto_flush && leb_ℤ s.flush_timeout (now -ℤ s.last_flush)
          then (do in_transaction r (flush_all true); modify (λ s'. record s' { last_flush = now }))
          else pure tt)
        s

  -- Store::prepare()
  unfoldable pub prepare : Exec (Store D) Unit
  prepare = do sensors ← run r.get_sensor_records; modify (set_all_buffers sensors)
