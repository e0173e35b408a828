-- ===== src/Redis.antt =====
-- libklio/redis/redis-store.cpp: a store in Redis. The connection of redis3m, which sends a command
-- and returns a reply or throws, and the texts of numbers are parameters.
pub mod Lifetime
pub mod Reopened
pub mod Requests
pub mod RoundTrip
use Prim.Native.String.{◌++◌}
use libklio.Prelude.{
  ℕ, Bool, true, false, String, Option, none, some, List, [], ◌∷◌, ◌==◌, nat_eq, string_eq, length,
  if◌then◌else◌,
}
use libklio.Prelude.Int.{pos}
use libklio.Exec.{
  Exec, Result, ok, err, pure, throw, ◌>>=◌, store_exception, undefined_behaviour, std_exception,
  is_exception,
}
use libklio.HashMap
use libklio.OrdMap
use libklio.Time.{Timestamp, Double, Readings, Reading, timestamp_less, zero_double}
use libklio.Sensor.{Sensor, Library, uuid_string, create_sensor_without_device}
use libklio.Store.{Store}
use libklio.Transaction.{Element}

pub record Reply : Type 0 where
  pub str : String
  pub elements : List Element

pub record Connection (C : Type 0) : Type 0 where
  pub run : List String → C → Result Reply × C
  pub is_valid : C → Bool
  pub lexical_time : Timestamp → String
  pub lexical_double : Double → String
  pub to_string : Timestamp → String
  pub atol : String → Timestamp
  pub atof : String → Double

abbrev pub sensors_key : String
sensors_key = "libklio:sensors"

module _ {C : Type 0} (c : Connection C) (l : Library) where
  abbrev pub compose_sensor_key : Sensor → String
  compose_sensor_key sensor = "libklio:sensor:" ++ uuid_string l sensor

  abbrev pub compose_readings_key : Sensor → String
  compose_readings_key sensor = compose_sensor_key sensor ++ ":readings"

  abbrev pub after : {A B : Type 0} → Result A × C → (A → C → Result B × C) → Result B × C
  after (ok a, d) next = next a d
  after (err e, d) next = (err e, d)

  -- A command whose reply is dropped.
  abbrev pub send : List String → C → Result (Unit {0}) × C
  send command d = after (c.run command d) λ reply d'. (ok tt, d')

  -- check_sensor_existence, without the key that it returns
  unfoldable pub existence : Sensor → Bool → Store C → Result (Unit {0})
  existence sensor should_exist s =
      if HashMap.contains sensor.uuid s.sensors_buffer
      then (if should_exist then ok tt else err store_exception)
      else (if should_exist then err store_exception else ok tt)

  abbrev pub check_sensor_existence :
      {A : Type 0} → Sensor → Bool → Store C → (C → Result A × C) → Result A × C
  check_sensor_existence sensor should_exist s next =
      after (existence sensor should_exist s, s.db) λ a d. next d

  abbrev pub sensor_fields : Sensor → List String
  sensor_fields sensor =
      "uuid"
      ∷ uuid_string l sensor
      ∷ "external_id"
      ∷ sensor.external_id
      ∷ "name"
      ∷ sensor.name
      ∷ "description"
      ∷ sensor.description
      ∷ "unit"
      ∷ sensor.unit
      ∷ "timezone"
      ∷ sensor.timezone
      ∷ []

  abbrev pub field_names : List String
  field_names = "uuid" ∷ "external_id" ∷ "name" ∷ "description" ∷ "unit" ∷ "timezone" ∷ []

  abbrev pub run_hmset_sensor : String → Sensor → C → Result (Unit {0}) × C
  run_hmset_sensor key sensor = send ("HMSET" ∷ key ∷ sensor_fields sensor)

  unfoldable pub redis_add_sensor_record : Sensor → Store C → Result (Unit {0}) × C
  unfolding existence
  redis_add_sensor_record sensor s = check_sensor_existence sensor false s λ d.
      after (run_hmset_sensor (compose_sensor_key sensor) sensor d)
        λ a. send ("SADD" ∷ sensors_key ∷ compose_sensor_key sensor ∷ [])

  unfoldable pub redis_remove_sensor_record : Sensor → Store C → Result (Unit {0}) × C
  unfolding existence
  redis_remove_sensor_record sensor s = check_sensor_existence sensor true s λ d.
      after (send ("HDEL" ∷ compose_sensor_key sensor ∷ field_names) d) λ a d1.
        after (send ("DEL" ∷ compose_readings_key sensor ∷ []) d1)
          λ b. send ("SREM" ∷ sensors_key ∷ compose_sensor_key sensor ∷ [])

  unfoldable pub redis_update_sensor_record : Sensor → Store C → Result (Unit {0}) × C
  unfolding existence
  redis_update_sensor_record sensor s =
      check_sensor_existence sensor true s (run_hmset_sensor (compose_sensor_key sensor) sensor)

  -- The six replies; `replies.at` throws where there are fewer.
  abbrev sensor_of_replies : List Element → Result Sensor
  sensor_of_replies (a ∷ b ∷ n ∷ d ∷ u ∷ t ∷ rest) =
      create_sensor_without_device l a.str b.str n.str d.str u.str t.str
  sensor_of_replies replies = err std_exception

  abbrev run_hmget_sensor : String → C → Result Sensor × C
  run_hmget_sensor key d =
      after (c.run ("HMGET" ∷ key ∷ field_names) d)
        λ reply d'. (sensor_of_replies reply.elements, d')

  unfoldable pub read_sensors : List Element → C → Result (List Sensor) × C
  unfolding create_sensor_without_device
  read_sensors [] d = (ok [], d)
  read_sensors (key ∷ rest) d =
      after (run_hmget_sensor key.str d)
        λ sensor d1. after (read_sensors rest d1) λ sensors d2. (ok (sensor ∷ sensors), d2)

  unfoldable pub redis_get_sensor_records : Store C → Result (List Sensor) × C
  unfolding read_sensors
  redis_get_sensor_records s =
      after (c.run ("SMEMBERS" ∷ sensors_key ∷ []) s.db) λ reply. read_sensors reply.elements

  -- The loop takes two replies at each turn, without a test between them.
  unfoldable pub read_pairs : List Element → Readings → Result Readings
  read_pairs [] readings = ok readings
  read_pairs (t ∷ []) readings = err undefined_behaviour
  read_pairs (t ∷ v ∷ rest) readings =
      read_pairs rest (OrdMap.insert (c.atol t.str) (c.atof v.str) readings)

  unfoldable pub run_hget_readings : Sensor → C → Result Readings × C
  unfolding read_pairs
  run_hget_readings sensor d =
      after (c.run ("HGETALL" ∷ compose_readings_key sensor ∷ []) d)
        λ reply d'. (read_pairs reply.elements [], d')

  unfoldable pub redis_get_all_reading_records : Sensor → Store C → Result Readings × C
  unfolding existence run_hget_readings
  redis_get_all_reading_records sensor s =
      check_sensor_existence sensor true s (run_hget_readings sensor)

  -- handle_reading_insertion_error, after any exception of a command
  abbrev caught : Bool → Result (Unit {0}) × C → Result (Unit {0}) × C
  caught ignore_errors (ok a, d) = (ok a, d)
  caught ignore_errors (err e, d) =
      (if is_exception e then (if ignore_errors then ok tt else err store_exception) else err e, d)

  unfoldable pub reading_fields : Readings → List String
  reading_fields [] = []
  reading_fields ((t, v) ∷ rest) = c.lexical_time t ∷ c.lexical_double v ∷ reading_fields rest

  abbrev run_hmset_readings : Sensor → Readings → C → Result (Unit {0}) × C
  run_hmset_readings sensor readings =
      send ("HMSET" ∷ compose_readings_key sensor ∷ reading_fields readings)

  unfoldable pub redis_add_single_reading_record :
      Sensor → Timestamp → Double → Bool → Store C → Result (Unit {0}) × C
  unfolding existence reading_fields
  redis_add_single_reading_record sensor timestamp value ignore_errors s =
      check_sensor_existence sensor true s
        λ d. caught ignore_errors (run_hmset_readings sensor ((timestamp, value) ∷ []) d)

  unfoldable pub redis_add_bulk_reading_records :
      Sensor → Readings → Bool → Store C → Result (Unit {0}) × C
  unfolding existence reading_fields
  redis_add_bulk_reading_records sensor readings ignore_errors s =
      check_sensor_existence sensor true s
        λ d. caught ignore_errors (run_hmset_readings sensor readings d)

  unfoldable pub redis_update_reading_records :
      Sensor → Readings → Bool → Store C → Result (Unit {0}) × C
  unfolding redis_add_bulk_reading_records
  redis_update_reading_records = redis_add_bulk_reading_records

  -- `value.length() > 0`
  abbrev reading_of : Timestamp → String → Reading
  reading_of timestamp value =
      if value == "" then (pos 0, zero_double) else (timestamp, c.atof value)

  unfoldable pub redis_get_reading_record : Sensor → Timestamp → Store C → Result Reading × C
  unfolding existence
  redis_get_reading_record sensor timestamp s = check_sensor_existence sensor true s λ d.
      after (c.run ("HGET" ∷ compose_readings_key sensor ∷ c.to_string timestamp ∷ []) d)
        λ reply d'. (ok (reading_of timestamp reply.str), d')

  -- run_select: any status but "OK" is an exception.
  unfoldable pub run_select : String → C → Result (Unit {0}) × C
  run_select index d =
      after (c.run ("SELECT" ∷ index ∷ []) d)
        λ status d'. (if status.str == "OK" then ok tt else err store_exception, d')

  unfoldable pub redis_check_integrity : C → Result (Unit {0})
  redis_check_integrity d = if c.is_valid d then ok tt else err store_exception
