-- ===== src/Store/Access/Indexed.antt =====
-- Reading and writing readings keeps the buffers in agreement, and so do manual transactions.
use libklio.Prelude.{ℕ, true, Option, none, some, [], ◌∷◌, nat_eq}
use libklio.Exec.{store_exception, undefined_behaviour}
use libklio.Exec.Preserves.{
  Preserves, Preserves-pure, Preserves-throw, Preserves-if, Preserves-bind,
}
use libklio.OrdMap
use libklio.Time.{Timestamp, Double, Readings, timestamp_less}
use libklio.Sensor.{Sensor}
use libklio.Store.{Records, Backend, Call, Operation, insert_operation, update_operation}
use libklio.Store.Buffers.{get_buffered_readings}
use libklio.Store.Buffers.Index.{IsIndexed}
use libklio.Store.Buffers.Preserved.{
  run-IsIndexed, write_buffered-IsIndexed, get_buffered_readings-IsIndexed,
}
use libklio.Store.Transactions.{start_transaction, check_out_commit_off, through}
use libklio.Store.Flush.Indexed.{auto_flush-IsIndexed, flush_sensor-IsIndexed, flush_all-IsIndexed}
use libklio.Store.Access.{
  add_reading, buffer_readings, add_readings, update_readings, get_all_readings,
}
use libklio.Store.Commit.{commit_transaction}

module _ {D : Type 0} where
  check_out-IsIndexed : Preserves IsIndexed (check_out_commit_off {D = D})
  unfolding check_out_commit_off
  check_out-IsIndexed = record {
    at = λ s h.
        (Preserves-if {P = IsIndexed} s.auto_commit _ _ (Preserves-throw store_exception)
            (Preserves-pure tt)).at
          s h;
  }

  through-IsIndexed : (t : Option ℕ) (call : ℕ → Call D Unit) → Preserves IsIndexed (through t call)
  through-IsIndexed none call = Preserves-throw undefined_behaviour
  through-IsIndexed (some t) call = run-IsIndexed (call t)

module _ {D : Type 0} (r : Records D) where
  pub add_reading-IsIndexed :
      (sensor : Sensor) (t : Timestamp) (v : Double) (now : Timestamp)
      → Preserves IsIndexed (add_reading r sensor t v now)
  unfolding add_reading
  add_reading-IsIndexed sensor t v now =
      Preserves-bind (get_buffered_readings sensor.uuid insert_operation) _
        (get_buffered_readings-IsIndexed sensor.uuid insert_operation)
        λ cached.
          Preserves-bind _ _
            (write_buffered-IsIndexed sensor.uuid insert_operation (OrdMap.insert t v cached))
            λ _. auto_flush-IsIndexed r now

  buffer_readings-IsIndexed :
      (sensor : Sensor) (readings : Readings) (o : Operation) (now : Timestamp)
      → Preserves IsIndexed (buffer_readings r sensor readings o now)
  unfolding buffer_readings
  buffer_readings-IsIndexed sensor [] o now = Preserves-pure tt
  buffer_readings-IsIndexed sensor (x ∷ rest) o now =
      Preserves-bind (get_buffered_readings sensor.uuid o) _
        (get_buffered_readings-IsIndexed sensor.uuid o)
        λ cached.
          Preserves-bind _ _
            (write_buffered-IsIndexed sensor.uuid o (OrdMap.insert_all (x ∷ rest) cached))
            λ _. auto_flush-IsIndexed r now

  pub add_readings-IsIndexed :
      (sensor : Sensor) (readings : Readings) (now : Timestamp)
      → Preserves IsIndexed (add_readings r sensor readings now)
  unfolding add_readings
  add_readings-IsIndexed sensor readings now =
      buffer_readings-IsIndexed sensor readings insert_operation now

  pub update_readings-IsIndexed :
      (sensor : Sensor) (readings : Readings) (now : Timestamp)
      → Preserves IsIndexed (update_readings r sensor readings now)
  unfolding update_readings
  update_readings-IsIndexed sensor readings now =
      buffer_readings-IsIndexed sensor readings update_operation now

  pub get_all_readings-IsIndexed :
      (sensor : Sensor) → Preserves IsIndexed (get_all_readings r sensor)
  unfolding get_all_readings
  get_all_readings-IsIndexed sensor =
      Preserves-bind _ _ (flush_sensor-IsIndexed r sensor true)
        λ _. run-IsIndexed (r.get_all_reading_records sensor)

  pub start_transaction-IsIndexed : Preserves IsIndexed (start_transaction r)
  unfolding start_transaction
  start_transaction-IsIndexed = Preserves-bind _ _ check_out-IsIndexed λ _.
      Preserves-bind _ _ (run-IsIndexed r.get_transaction_handler) λ t. through-IsIndexed t r.start

module _ {D : Type 0} (b : Backend D) where
  pub commit_transaction-IsIndexed : Preserves IsIndexed (commit_transaction b)
  unfolding commit_transaction
  commit_transaction-IsIndexed = Preserves-bind _ _ check_out-IsIndexed λ _.
      Preserves-bind _ _
        (record { at = λ s h. (flush_all-IsIndexed b.records s.auto_flush).at s h })
        λ _.
          Preserves-bind _ _ (run-IsIndexed b.records.get_transaction_handler)
            λ t. through-IsIndexed t b.records.commit
