-- ===== src/Tests/Access.antt =====
-- Tests and instances for Store/Access and Store/Flush.
use libklio.Prelude.{◌≡◌, refl, true, some, [], ◌∷◌, nat_eq, if◌then◌else◌}
use libklio.Prelude.Int.{pos}
use libklio.Exec.{ok}
use libklio.HashMap
use libklio.OrdMap
use libklio.OrdMap.Laws.{or_else, same}
use libklio.Time.{timestamp_less}
use libklio.Store.Reliable.{take_new, rounded}
use libklio.Store.Buffers.{write_buffered}
use libklio.Store.View.{view, rounded_ops}
use libklio.Store.{Store, no_operations}
use libklio.Sensor.{Uuid}
use libklio.OrdMap.Union.{first}
use libklio.Store.Access.{add_reading, add_readings, update_readings, get_all_readings}
use libklio.Store.Access.Seen.{get_all_readings-eq-view}
use libklio.Store.Access.Lookup.{
  add_reading-find, add_readings-find, update_readings-find, Shows, earlier, overlay,
}
use libklio.Rocks.{Members}
use libklio.Tests.Memory as Memory
use libklio.Tests.Memory.{memory, kitchen, pending, readings_at}
use libklio.Tests.Shelves.{
  Shelf, records, model, reliable, transactional, opened, small, small-IsReady, small-IsWellFormed,
}

small_knows : HashMap.contains 7 small.sensors_buffer ≡ true
unfolding HashMap.find
small_knows = refl

-- A read of all readings, over a database that keeps the first of two readings: the stored reading at 10
-- stays, and the update at 20 wins.
read_test : (get_all_readings memory kitchen Memory.small).0 ≡ ok ((pos 10, 9) ∷ (pos 20, 5) ∷ [])
unfolding get_all_readings HashMap.find HashMap.assign OrdMap.insert OrdMap.assign OrdMap.insert_all
    OrdMap.assign_all timestamp_less readings_at write_buffered
read_test = refl

add_reading-find_example :
    Shows model take_new kitchen small
      (λ j.
        if same (pos 30) j
        then some (
            or_else
              (earlier take_new (rounded_ops model.round pending) (model.stored opened 7) j)
              (model.round 4))
        else OrdMap.find j (view model take_new small 7))
      (add_reading records kitchen (pos 30) 4 (pos 700) small)
unfolding small-IsReady
add_reading-find_example =
    add_reading-find records model take_new transactional reliable kitchen small small-IsReady
      small_knows small-IsWellFormed refl (pos 30) 4 (pos 700)

add_readings-find_example :
    Shows model take_new kitchen small
      (λ j.
        overlay
          (earlier take_new (rounded_ops model.round pending) (model.stored opened 7) j)
          (OrdMap.find j (rounded model.round ((pos 10, 4) ∷ (pos 30, 4) ∷ [])))
          (OrdMap.find j (view model take_new small 7)))
      (add_readings records kitchen ((pos 10, 4) ∷ (pos 30, 4) ∷ []) (pos 700) small)
unfolding small-IsReady timestamp_less
add_readings-find_example =
    add_readings-find records model take_new transactional reliable kitchen small small-IsReady
      small_knows small-IsWellFormed refl (pos 10, 4) ((pos 30, 4) ∷ []) (pos 700) (refl, tt)

-- The update at 20 meets one that is pending, the update at 10 a stored reading.
update_readings-find_example :
    Shows model take_new kitchen small
      (λ j. first (OrdMap.find j (rounded model.round pending.updates)) (
        first
          (OrdMap.find j (rounded model.round ((pos 10, 4) ∷ (pos 20, 4) ∷ [])))
          (OrdMap.find j (view model take_new small 7))))
      (update_readings records kitchen ((pos 10, 4) ∷ (pos 20, 4) ∷ []) (pos 700) small)
unfolding small-IsReady timestamp_less
update_readings-find_example =
    update_readings-find records model take_new transactional reliable kitchen small small-IsReady
      small_knows small-IsWellFormed refl (pos 10, 4) ((pos 20, 4) ∷ []) (pos 700) (refl, tt)

get_all_readings-eq-view_example :
    (s' : Store (Members Shelf)) × (get_all_readings records kitchen small
      ≡ (ok (view model take_new small 7), s'))
    × ((u : Uuid) → view model take_new s' u ≡ view model take_new small u)
    × (HashMap.find 7 s'.reading_operations_buffer ≡ some no_operations)
get_all_readings-eq-view_example =
    get_all_readings-eq-view records model take_new transactional reliable kitchen small
      small-IsReady
