-- ===== src/Store/Flush/Indexed.antt =====
-- A flush keeps the buffers in agreement, whatever the database answers.
use libklio.Prelude.{
  ℕ, zero, suc, nat_eq, Bool, true, Option, none, some, [], ◌∷◌, leb, length, ◌&&◌,
}
use libklio.Prelude.Int.{◌-ℤ◌, leb_ℤ}
use libklio.Exec.{Exec, modify, store_exception}
use libklio.Exec.Preserves.{
  Preserves, Preserves-pure, Preserves-throw, Preserves-if, Preserves-bind, preserves_rules,
}
use libklio.HashMap
use libklio.HashMap.{HashMap}
use libklio.Time.{Readings, Timestamp}
use libklio.Sensor.{Sensor, Uuid}
use libklio.Store.{Store, Records, run, Operations}
use libklio.Store.Buffers.Index.{IsIndexed}
use libklio.Store.Buffers.Preserved.{same_keys-IsIndexed, run-IsIndexed, write_buffered-IsIndexed}
use libklio.Store.Transactions.{
  in_transaction, auto_start, auto_start_transaction, auto_commit_transaction,
}
use libklio.Store.Flush.{
  write_singles, write_bulks, write_inserts, write_updates, flush_operations, flush_sensor,
  flush_entries, flush_all, flush, auto_flush, fill, bulk_count,
}

ruleset indexed_rules = (preserves_rules, run-IsIndexed, write_buffered-IsIndexed)

module _ {D : Type 0} (r : Records D) where
  write_singles-IsIndexed :
      (sensor : Sensor) (ignore : Bool) (readings : Readings)
      → Preserves IsIndexed (write_singles r sensor ignore readings)
  unfolding write_singles
  write_singles-IsIndexed sensor ignore [] = search indexed_rules
  write_singles-IsIndexed sensor ignore ((t, v) ∷ rest) =
      Preserves-bind (run (r.add_single_reading_record sensor t v ignore)) _ (run-IsIndexed _)
        λ _. write_singles-IsIndexed sensor ignore rest

  write_bulks-IsIndexed :
      (sensor : Sensor) (ignore : Bool) (max bulks : ℕ) (reading : Readings)
      → Preserves IsIndexed (write_bulks r sensor ignore max bulks reading)
  unfolding write_bulks
  write_bulks-IsIndexed sensor ignore max zero reading = search indexed_rules
  write_bulks-IsIndexed sensor ignore max (suc bulks) reading =
      Preserves-bind (run (r.add_bulk_reading_records sensor (fill max reading []).0 ignore)) _
        (run-IsIndexed _) λ _. write_bulks-IsIndexed sensor ignore max bulks (fill max reading []).1

  write_inserts-IsIndexed :
      (sensor : Sensor) (ignore : Bool) (readings : Readings)
      → Preserves IsIndexed (write_inserts r sensor ignore readings)
  unfolding write_inserts
  write_inserts-IsIndexed sensor ignore readings = record {
    at = λ s h.
        (Preserves-if (leb (length readings) s.min_bulk_size) _ _
            (write_singles-IsIndexed sensor ignore readings)
            (write_bulks-IsIndexed sensor ignore s.max_bulk_size
              (bulk_count (length readings) s.max_bulk_size) readings)).at
          s h;
  }

  write_updates-IsIndexed :
      (sensor : Sensor) (ignore : Bool) (readings : Readings)
      → Preserves IsIndexed (write_updates r sensor ignore readings)
  unfolding write_updates
  write_updates-IsIndexed sensor ignore readings = search indexed_rules

  flush_operations-IsIndexed :
      (sensor : Sensor) (ignore : Bool) (found : Option Operations)
      → Preserves IsIndexed (flush_operations r sensor ignore found)
  unfolding flush_operations
  flush_operations-IsIndexed sensor ignore none = search indexed_rules
  flush_operations-IsIndexed sensor ignore (some ops) =
      search (indexed_rules, write_inserts-IsIndexed, write_updates-IsIndexed)

  pub flush_sensor-IsIndexed :
      (sensor : Sensor) (ignore : Bool) → Preserves IsIndexed (flush_sensor r sensor ignore)
  unfolding flush_sensor
  flush_sensor-IsIndexed sensor ignore = record {
    at = λ s.
        (flush_operations-IsIndexed sensor ignore
            (HashMap.find sensor.uuid s.reading_operations_buffer)).at
          s;
  }

  flush_entries-IsIndexed :
      (ignore : Bool) (entries : HashMap Uuid (Option Sensor))
      → Preserves IsIndexed (flush_entries r ignore entries)
  unfolding flush_entries
  flush_entries-IsIndexed ignore [] = search indexed_rules
  flush_entries-IsIndexed ignore ((u, none) ∷ rest) = search indexed_rules
  flush_entries-IsIndexed ignore ((u, some sensor) ∷ rest) =
      Preserves-bind (flush_sensor r sensor ignore) _ (flush_sensor-IsIndexed sensor ignore)
        λ _. flush_entries-IsIndexed ignore rest

  pub flush_all-IsIndexed : (ignore : Bool) → Preserves IsIndexed (flush_all r ignore)
  unfolding flush_all
  flush_all-IsIndexed ignore = record {
    at = λ s. (flush_entries-IsIndexed ignore s.sensors_buffer).at s;
  }

  auto_start-IsIndexed : (t : Option ℕ) → Preserves IsIndexed (auto_start r t)
  unfolding auto_start
  auto_start-IsIndexed none = record { at = λ s h. h }
  auto_start-IsIndexed (some t) = record {
    at = λ s h.
        (Preserves-if s.auto_commit _ _
            (Preserves-bind (run (r.start t)) _ (run-IsIndexed _) λ _. Preserves-pure (some t))
            (Preserves-if (r.pending t s) _ _ (Preserves-pure (some t))
              (Preserves-throw store_exception))).at
          s h;
  }

  auto_commit-IsIndexed : (t : Option ℕ) → Preserves IsIndexed (auto_commit_transaction r t)
  unfolding auto_commit_transaction
  auto_commit-IsIndexed none = record { at = λ s h. h }
  auto_commit-IsIndexed (some t) = record {
    at = λ s h.
        (Preserves-if s.auto_commit _ _ (run-IsIndexed (r.commit t)) (Preserves-pure tt)).at s h;
  }

  -- The frame of an operation keeps what its body keeps.
  pub in_transaction-IsIndexed :
      {A : Type 0} (body : Exec (Store D) A)
      → Preserves IsIndexed body
      → Preserves IsIndexed (in_transaction r body)
  unfolding in_transaction auto_start_transaction
  in_transaction-IsIndexed body h =
      Preserves-bind (auto_start_transaction r) _
        (Preserves-bind (run r.get_transaction_handler) (auto_start r) (run-IsIndexed _)
          auto_start-IsIndexed)
        λ t. Preserves-bind body _ h λ a.
          Preserves-bind (auto_commit_transaction r t) _ (auto_commit-IsIndexed t)
            λ _. Preserves-pure a

  pub flush-IsIndexed : (ignore : Bool) → Preserves IsIndexed (flush r ignore)
  unfolding flush
  flush-IsIndexed ignore =
      in_transaction-IsIndexed (flush_all r ignore) (flush_all-IsIndexed ignore)

  last_flush-IsIndexed :
      (now : Timestamp)
      → Preserves IsIndexed (modify {S = Store D} (λ s. record s { last_flush = now }))
  last_flush-IsIndexed now = record {
    at = λ s h. same_keys-IsIndexed s s.reading_operations_buffer s.db (λ u ops e. (ops, e)) h now;
  }

  pub auto_flush-IsIndexed : (now : Timestamp) → Preserves IsIndexed (auto_flush r now)
  unfolding auto_flush
  auto_flush-IsIndexed now = record {
    at = λ s h.
        (Preserves-if (s.auto_flush && leb_ℤ s.flush_timeout (now -ℤ s.last_flush)) _ _
            (Preserves-bind (in_transaction r (flush_all r true)) _
              (in_transaction-IsIndexed (flush_all r true) (flush_all-IsIndexed true))
              λ _. last_flush-IsIndexed now)
            (Preserves-pure tt)).at
          s h;
  }
