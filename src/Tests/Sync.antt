-- ===== src/Tests/Sync.antt =====
-- An instance for Store/Sync.
use libklio.Prelude.{◌≡◌, ◌⊎◌, refl, [], ◌∷◌, ◌==◌, string_eq, nat_eq}
use libklio.Exec.{ok}
use libklio.HashMap
use libklio.Sensor.{Sensor, Library, is_valid_timezone}
use libklio.Store.{Records}
use libklio.Store.Sync.{sync_sensor_record}
use libklio.Store.Sync.Known.{Same, sync_sensor_record-known}
use libklio.Tests.Memory.{Db, memory, write, kitchen, small}

abbrev berlin : Library
berlin = record {
  to_string = λ uuid. "7";
  read_uuid = λ text. 7;
  erase_all_copy = λ text part. text;
  iequals = λ a b. a == b;
  region_list = "Europe/Berlin" ∷ [];
}

-- The kitchen in another store, where it has another uuid and another name.
abbrev other_kitchen : Sensor
other_kitchen = record kitchen { uuid = 8; name = "old kitchen" }

-- A database that empties the readings of a sensor whose record it updates.
abbrev emptying : Records Db
emptying = record memory { update_sensor_record = λ x s. (ok tt, write x.uuid [] s.db) }

sync_sensor_record-known_example :
    (Same kitchen other_kitchen
      × (sync_sensor_record berlin emptying other_kitchen small
          ≡ (ok (record other_kitchen { uuid = 7 }), small)))
    ⊎ ((Same kitchen other_kitchen → ⊥)
        × (sync_sensor_record berlin emptying other_kitchen small
            ≡ (ok (record other_kitchen { uuid = 7 }), record small { db = write 7 [] small.db })))
unfolding HashMap.find is_valid_timezone
sync_sensor_record-known_example =
    sync_sensor_record-known berlin emptying other_kitchen kitchen 7 small (write 7 [] small.db)
      refl refl refl refl
