-- ===== src/Rocks/Requests.antt =====
-- The operations of RocksDB's store on its records, in any order and with any outcome.
use libklio.Prelude.{ℕ, Bool, false, Option, List, [], ◌∷◌, string_eq, arith}
use libklio.Exec.{Exec, pure, modify, ◌>>=◌}
use libklio.Exec.Preserves.{Preserves-pure, Preserves-bind}
use libklio.HashMap.{find-nil}
use libklio.Time.{Timestamp, Double, Readings}
use libklio.Sensor.{Sensor, Library}
use libklio.Rocks.{Api, Members}
use libklio.Rocks.Records.{
  add_sensor_record, remove_sensor_record, update_sensor_record, get_sensor_records,
  get_all_reading_records, get_timeframe_reading_records, get_last_reading_record,
  add_single_reading_record, add_bulk_reading_records, update_reading_records,
}
use libklio.Rocks.Live.{IsOpening, IsLive}
use libklio.Rocks.Live.Operations.{
  Keeps, put_value-IsLive, write_batch-IsLive, add_sensor-IsLive, put_sensor-IsLive,
  remove_sensor-IsLive, open_readings-IsLive, written-IsLive, read_directory-IsLive,
}

-- A call of one of the store's virtual functions; `forget` is what `clear_buffers` does to the members.
pub data Request : Type 0 where
  add_sensor remove_sensor update_sensor all last : Sensor → Request
  single : Sensor → Timestamp → Double → Bool → Request
  bulk update : Sensor → Readings → Bool → Request
  timeframe : Sensor → Timestamp → Timestamp → Request
  sensors forget : Request

abbrev done : {W A : Type 0} → Exec (Members W) A → Exec (Members W) Unit
done f = f >>= λ a. pure tt

module _ {W : Type 0} (api : Api W) (l : Library) where
  abbrev pub handle : Request → Exec (Members W) Unit
  handle (add_sensor sensor) = add_sensor_record api l sensor
  handle (remove_sensor sensor) = remove_sensor_record api l sensor
  handle (update_sensor sensor) = update_sensor_record api l sensor
  handle (all sensor) = done (get_all_reading_records api l sensor)
  handle (last sensor) = done (get_last_reading_record api l sensor)
  handle (single sensor t v ignore) = add_single_reading_record api l sensor t v ignore
  handle (bulk sensor readings ignore) = add_bulk_reading_records api l sensor readings ignore
  handle (update sensor readings ignore) = update_reading_records api l sensor readings ignore
  handle (timeframe sensor begin end) = done (get_timeframe_reading_records api l sensor begin end)
  handle sensors = done (get_sensor_records api l)
  handle forget = modify λ s. record s { db_buffer = [] }

  -- The members after the requests, whether they throw or not.
  unfoldable pub serve : List Request → Members W → Members W
  serve [] s = s
  serve (r ∷ rest) s = serve rest (handle r s).1

module _ {W : Type 0} (api : Api W) (l : Library) (is_open : ℕ → W → Bool)
    (spec : IsOpening api is_open) where
  done-IsLive :
      {A : Type 0} (f : Exec (Members W) A)
      → Keeps api l is_open spec f
      → Keeps api l is_open spec (done f)
  done-IsLive f h = Preserves-bind f _ h λ a. Preserves-pure tt

  handle-IsLive : (r : Request) → Keeps api l is_open spec (handle api l r)
  unfolding update_sensor_record get_all_reading_records get_timeframe_reading_records
      get_last_reading_record add_single_reading_record add_bulk_reading_records
      update_reading_records get_sensor_records
  handle-IsLive (add_sensor sensor) = add_sensor-IsLive api l is_open spec sensor
  handle-IsLive (remove_sensor sensor) = remove_sensor-IsLive api l is_open spec sensor
  handle-IsLive (update_sensor sensor) = put_sensor-IsLive api l is_open spec false sensor
  handle-IsLive (all sensor) = done-IsLive _ (
      Preserves-bind _ _ (open_readings-IsLive api l is_open spec sensor)
        λ db. record { at = λ s h. h })
  handle-IsLive (last sensor) = done-IsLive _ (
      Preserves-bind _ _ (open_readings-IsLive api l is_open spec sensor)
        λ db. record { at = λ s h. h })
  handle-IsLive (single sensor t v ignore) =
      Preserves-bind _ _ (open_readings-IsLive api l is_open spec sensor) λ db.
        written-IsLive api l is_open spec _ ignore (put_value-IsLive api l is_open spec db _ _)
  handle-IsLive (bulk sensor readings ignore) =
      Preserves-bind _ _ (open_readings-IsLive api l is_open spec sensor) λ db.
        written-IsLive api l is_open spec _ ignore (write_batch-IsLive api l is_open spec db _)
  handle-IsLive (update sensor readings ignore) =
      Preserves-bind _ _ (open_readings-IsLive api l is_open spec sensor) λ db.
        written-IsLive api l is_open spec _ ignore (write_batch-IsLive api l is_open spec db _)
  handle-IsLive (timeframe sensor begin end) = done-IsLive _ (
      Preserves-bind _ _ (open_readings-IsLive api l is_open spec sensor)
        λ db. record { at = λ s h. h })
  handle-IsLive sensors =
      done-IsLive _
        (Preserves-bind _ _ (record { at = λ s h. h }) (read_directory-IsLive api l is_open spec))
  handle-IsLive forget = record {
    at = λ s h. record {
      live = λ path db found. absurd (ground (arith, found, find-nil {V = Option ℕ} path));
      own = λ p q db found found'. absurd (ground (arith, found, find-nil {V = Option ℕ} p));
    };
  }

  -- After any operations on the records, whatever RocksDB answers: the databases in the buffer are open,
  -- and none of them stands at two paths; so none is closed while it is in the buffer.
  pub serve-IsLive :
      (requests : List Request) (s : Members W)
      → IsLive is_open s
      → IsLive is_open (serve api l requests s)
  unfolding serve
  serve-IsLive [] s h = h
  serve-IsLive (r ∷ rest) s h = serve-IsLive rest (handle api l r s).1 ((handle-IsLive r).at s h)
