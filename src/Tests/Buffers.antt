-- ===== src/Tests/Buffers.antt =====
-- Instances for Store/Buffers and Store/Steps.
use libklio.Prelude.{◌≡◌, ◌⊎◌, true, some, [], ◌∷◌, arith, nat_eq, string_eq, ◌==◌, if◌then◌else◌}
use libklio.Prelude.Int.{pos}
use libklio.Exec.{ok}
use libklio.HashMap
use libklio.HashMap.{find-nil}
use libklio.Sensor.{Sensor}
use libklio.Store.{Store, create}
use libklio.Store.Buffers.{set_buffers}
use libklio.Store.Buffers.Index.{IsIndexed, KeepsId}
use libklio.Store.Buffers.Lookups.{pending-set_buffers, inherited, pending_of, without_owner}
use libklio.Store.Sensors.{add_sensor, get_sensors_by_external_id}
use libklio.Store.Access.{add_reading}
use libklio.Store.Steps.{
  Step, Reach, Reach-IsIndexed, get_sensors_by_external_id-Reach, create-IsIndexed,
}
use libklio.Tests.Memory.{Db, memory, memory_backend, kitchen, small}

abbrev empty : Store Db
empty = create true true (pos 600) 1 2 []

-- A new store to which one sensor is added.
empty-KeepsId : KeepsId empty kitchen
unfolding HashMap.find create
empty-KeepsId y found = ground arith

-- The sensor is added, and then a reading of it.
abbrev busy : Store Db
busy = (add_reading memory kitchen (pos 10) 4 (pos 700) (add_sensor memory kitchen empty).1).1

busy-Reach : Reach memory_backend empty busy
busy-Reach =
    Reach.steps (Reach.steps Reach.starts (Step.adds kitchen empty-KeepsId))
      (Step.adds_reading kitchen (pos 10) 4 (pos 700))

Reach-IsIndexed_example : IsIndexed busy
Reach-IsIndexed_example =
    Reach-IsIndexed memory_backend (create-IsIndexed true true (pos 600) 1 2 []) busy-Reach

get_sensors_by_external_id-Reach_example :
    (get_sensors_by_external_id "k1" busy ≡ (ok [], busy))
    ⊎ ((x : Sensor) × (get_sensors_by_external_id "k1" busy ≡ (ok (some x ∷ []), busy))
        × (x.external_id ≡ "k1"))
get_sensors_by_external_id-Reach_example =
    get_sensors_by_external_id-Reach memory_backend true true (pos 600) 1 2 [] busy "k1" busy-Reach

-- The sensor has its external id already: its pending readings are dropped.
pending-set_buffers_example :
    HashMap.find 7 (set_buffers kitchen small).reading_operations_buffer ≡ (
      if kitchen.uuid == 7
      then some (
          inherited 7
            (HashMap.find "k1" small.external_ids_buffer)
            (HashMap.find 7 small.reading_operations_buffer)
            (pending_of small.reading_operations_buffer
              (HashMap.find "k1" small.external_ids_buffer)))
      else without_owner
          (HashMap.find "k1" small.external_ids_buffer)
          7
          (HashMap.find 7 small.reading_operations_buffer))
pending-set_buffers_example = pending-set_buffers kitchen small 7
