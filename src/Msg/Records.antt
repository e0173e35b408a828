-- ===== src/Msg/Records.antt =====
-- libklio/msg/msg-store.cpp: the records, which are requests to the server.
use libklio.Prelude.{
  ℕ, Bool, false, ◌&&◌, Option, none, some, String, List, [], ◌∷◌, length, if◌then◌else◌,
}
use libklio.Prelude.Int.{ℤ, pos, leb_ℤ}
use libklio.Exec.{
  Exec, Result, ok, err, pure, throw, modify, ◌>>=◌, ◌>>◌, store_exception, undefined_behaviour,
  environment_exception,
}
use libklio.OrdMap
use libklio.Time.{Timestamp, Double, Readings, Reading, timestamp_less}
use libklio.Sensor.{Sensor, Library, uuid_short, create_sensor_without_device}
use libklio.Store.{Store, Records, run}
use libklio.Store.Buffers.{set_buffers, clear_buffers}
use libklio.Store.Flush.{flush_default}
use libklio.Store.Access.{get_all_readings}
use libklio.Txt.{find_reading}
use libklio.Msg.{
  Web, Members, Failure, Attempt, Body, answered, failed, standard, and_then, answer, with_handlers,
  in_try, in_plain_try, call, fetch_device, measurements, config, heartbeat,
}
use libklio.Msg.Uuid.{format_uuid_string}

abbrev pub on_msg : {W A : Type 0} → Exec (Members W) A → Exec (Store (Members W)) A
on_msg f = run λ s. f s.db

module _ {J W : Type 0} (web : Web J W) (l : Library) where
  -- An exception of klio inside a `try` block.
  abbrev klio_result : {S A : Type 0} → Result A → Attempt S A
  klio_result (ok a) s = (answered a, s)
  klio_result (err e) s = (failed standard, s)

  abbrev text_of : {S : Type 0} → J → String → Attempt S String
  text_of j name s = (web.as_string (web.member j name), s)

  unfoldable pub parse_sensor : {S : Type 0} → String → J → Attempt S Sensor
  unfolding create_sensor_without_device
  parse_sensor uuid_str jsensor = and_then (text_of jsensor "externalid") λ external_id.
      and_then (text_of jsensor "function") λ name.
        and_then (text_of jsensor "description") λ description.
          and_then (text_of jsensor "unit") λ unit. klio_result (
            create_sensor_without_device l uuid_str external_id name description unit
              "Europe/Berlin")

  abbrev parse_meter : {S : Type 0} → J → Attempt S Sensor
  parse_meter jsensor =
      and_then (text_of jsensor "meter") λ meter. parse_sensor (format_uuid_string meter) jsensor

  unfoldable pub parse_sensors : {S : Type 0} → List J → Attempt S (List Sensor)
  unfolding parse_sensor format_uuid_string
  parse_sensors [] = answer []
  parse_sensors (j ∷ rest) =
      and_then (parse_meter j)
        λ sensor. and_then (parse_sensors rest) λ sensors. answer (sensor ∷ sensors)

  unfoldable pub get_sensor_records : Exec (Members W) (List Sensor)
  unfolding parse_sensors
  get_sensor_records =
      in_try
        (and_then (fetch_device web) λ j. parse_sensors (web.elements (web.member j "sensors")))

  abbrev enter_sensor : Sensor → Attempt (Store (Members W)) Unit
  enter_sensor sensor s = (answered tt, set_buffers sensor s)

  unfoldable pub enter_sensors : List J → Attempt (Store (Members W)) Unit
  unfolding parse_sensor format_uuid_string set_buffers
  enter_sensors [] = answer tt
  enter_sensors (j ∷ rest) =
      and_then (parse_meter j) λ sensor. and_then (enter_sensor sensor) λ a. enter_sensors rest

  abbrev lift : {A : Type 0} → Attempt (Members W) A → Attempt (Store (Members W)) A
  lift f s = let (r, m) = f s.db in (r, record s { db = m })

  abbrev set_description : String → Attempt (Store (Members W)) Unit
  set_description text s = (answered tt, record s { db = record s.db { description = text } })

  abbrev set_type : String → Attempt (Store (Members W)) Unit
  set_type text s = (answered tt, record s { db = record s.db { type = text } })

  -- prepare, which overrides the one of `Store`
  unfoldable pub prepare : Exec (Store (Members W)) Unit
  unfolding enter_sensors
  prepare = in_try (
      and_then (lift (fetch_device web)) λ j. and_then (text_of j "description") λ description.
        and_then (set_description description) λ a. and_then (text_of j "type") λ type.
          and_then (set_type type) λ b. enter_sensors (web.elements (web.member j "sensors")))

  abbrev sensor_config : Sensor → Members W → Body
  sensor_config sensor s = config (
      ("device", s.id)
      ∷ ("externalid", sensor.external_id)
      ∷ ("function", sensor.name)
      ∷ ("description", sensor.description)
      ∷ ("unit", sensor.unit)
      ∷ [])

  abbrev post_sensor : Sensor → (Members W → Body) → Attempt (Members W) Unit
  post_sensor sensor body =
      call web λ s. web.post (web.sensor_url s.url (uuid_short l sensor)) s.key (body s)

  unfoldable pub update_sensor_record : Sensor → Exec (Members W) Unit
  unfolding uuid_short
  update_sensor_record sensor = in_try (post_sensor sensor (sensor_config sensor))

  unfoldable pub add_sensor_record : Sensor → Exec (Members W) Unit
  unfolding update_sensor_record
  add_sensor_record sensor = update_sensor_record sensor

  unfoldable pub remove_sensor_record : Sensor → Exec (Members W) Unit
  unfolding uuid_short
  remove_sensor_record sensor =
      in_try (call web λ s. web.remove (web.sensor_url s.url (uuid_short l sensor)) s.key)

  -- The measurements are posted; any exception is handed to handle_reading_insertion_error.
  abbrev post_readings : Sensor → Readings → Bool → Exec (Members W) Unit
  post_readings sensor readings ignore_errors s =
      with_handlers (λ f. if ignore_errors then pure tt else throw store_exception)
        (post_sensor sensor (λ m. measurements readings) s)

  unfoldable pub add_single_reading_record :
      Sensor → Timestamp → Double → Bool → Exec (Members W) Unit
  unfolding uuid_short
  add_single_reading_record sensor timestamp value ignore_errors =
      post_readings sensor ((timestamp, value) ∷ []) ignore_errors

  unfoldable pub add_bulk_reading_records : Sensor → Readings → Bool → Exec (Members W) Unit
  unfolding uuid_short
  add_bulk_reading_records sensor readings ignore_errors =
      post_readings sensor readings ignore_errors

  unfoldable pub update_reading_records : Sensor → Readings → Bool → Exec (Members W) Unit
  unfolding add_bulk_reading_records
  update_reading_records sensor readings ignore_errors =
      add_bulk_reading_records sensor readings ignore_errors

  abbrev fetch_readings : Sensor → Attempt (Members W) (List (ℤ × Double))
  fetch_readings sensor = call web λ s. web.readings s.url (uuid_short l sensor) s.key sensor.unit

  unfoldable pub get_all_reading_records : Sensor → Exec (Members W) Readings
  unfolding uuid_short OrdMap.insert_all
  get_all_reading_records sensor =
      in_plain_try (and_then (fetch_readings sensor) λ all. answer (OrdMap.insert_all all []))

  unfoldable pub get_num_readings_value : Sensor → Exec (Members W) ℕ
  unfolding uuid_short
  get_num_readings_value sensor =
      in_plain_try (and_then (fetch_readings sensor) λ all. answer (length all))

  unfoldable pub get_last_reading_record : Sensor → Exec (Members W) Reading
  unfolding uuid_short
  get_last_reading_record sensor =
      in_plain_try (call web λ s. web.last_reading s.url (uuid_short l sensor) s.key sensor.unit)

  -- The handlers are those of `Store`: there are none.
  unfoldable pub msg_records : Records (Members W)
  unfolding add_sensor_record remove_sensor_record update_sensor_record add_single_reading_record
      add_bulk_reading_records update_reading_records get_sensor_records get_all_reading_records
  msg_records = record {
    get_transaction_handler = λ s. (ok none, s.db);
    pending = λ t s. false;
    start = λ t s. (ok tt, s.db);
    commit = λ t s. (ok tt, s.db);
    rollback = λ t s. (ok tt, s.db);
    add_sensor_record = λ sensor s. add_sensor_record sensor s.db;
    remove_sensor_record = λ sensor s. remove_sensor_record sensor s.db;
    update_sensor_record = λ sensor s. update_sensor_record sensor s.db;
    add_single_reading_record = λ sensor t v i s. add_single_reading_record sensor t v i s.db;
    add_bulk_reading_records = λ sensor r i s. add_bulk_reading_records sensor r i s.db;
    update_reading_records = λ sensor r i s. update_reading_records sensor r i s.db;
    get_sensor_records = λ s. get_sensor_records s.db;
    get_all_reading_records = λ sensor s. get_all_reading_records sensor s.db;
  }

  -- `selected` is a null pointer: a reading that is inserted through it has no meaning, and where there
  -- is none the null pointer is returned.
  unfoldable pub select_into_null : Timestamp → Timestamp → Readings → Result (Option Readings)
  select_into_null begin end [] = ok none
  select_into_null begin end ((t, v) ∷ rest) =
      let later = select_into_null begin end rest in
      if leb_ℤ begin t && leb_ℤ t end then err undefined_behaviour else later

  unfoldable pub get_timeframe_reading_records :
      Sensor → Timestamp → Timestamp → Exec (Store (Members W)) (Option Readings)
  unfolding get_all_readings msg_records select_into_null
  get_timeframe_reading_records sensor begin end = do
    readings ← get_all_readings msg_records sensor
    λ s. (select_into_null begin end readings, s)

  unfoldable pub get_reading_record : Sensor → Timestamp → Exec (Store (Members W)) Reading
  unfolding get_all_readings msg_records find_reading
  get_reading_record sensor timestamp = do
    readings ← get_all_readings msg_records sensor
    pure (find_reading timestamp readings)

  -- flush; `now` is what the clock shows
  unfoldable pub flush : Timestamp → Exec (Store (Members W)) Unit
  unfolding heartbeat flush_default msg_records
  flush now = do on_msg (heartbeat web now); flush_default msg_records

  -- close
  unfoldable pub close_store : Store (Members W) → Store (Members W)
  unfolding clear_buffers
  close_store s = clear_buffers s

  abbrev ignored : Failure → Exec (Store (Members W)) Unit
  ignored standard = throw environment_exception
  ignored f = pure tt

  -- dispose
  unfoldable pub dispose : Exec (Store (Members W)) Unit
  unfolding close_store
  dispose = do
    λ s. with_handlers ignored (lift (call web λ m. web.remove (web.device_url m.url m.id) m.key) s)
    modify close_store

  -- The pair that an element of a list of readings stands for: `as_double` is none where the value is
  -- not convertible to a number or is not a number.
  unfoldable pub create_reading_pair : (J → Option Double) → (J → ℤ) → J → J → Reading
  create_reading_pair as_double as_int64 time value = elim (as_double value) [
    | none ↦ (pos 0, 0)
    | some v ↦ (as_int64 time, v)
  ]
