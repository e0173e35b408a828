-- ===== src/Redis/Reopened.antt =====
-- A store of Redis whose database could not be selected, and what a second `open` does.
use libklio.Prelude.{◌≡◌, refl, true, false, none}
use libklio.Exec.{Error, ok, err}
use libklio.Redis.{run_select}
use libklio.Redis.Lifetime.{Client, Members, open_store}
use libklio.Sensor.{Library}

module _ {C : Type 0} (client : Client C) (l : Library) where
  -- Where the server is reached but the selection of the database throws, `open` throws the same and the
  -- connection stays in the store, so that a second `open` returns without an exception: it sends
  -- nothing, and the store still has no transaction handler of its own.
  pub open_store-unselected :
      (m : Members C) (w1 w2 : C) (e : Error)
      → m.connected ≡ false
      → m.transaction ≡ none
      → client.create_connection m.host m.port m.world ≡ (ok tt, w1)
      → run_select client.connection l (client.to_string m.index) w1 ≡ (err e, w2)
      → (m' : Members C) × (open_store client l m ≡ (err e, m'))
        × (open_store client l m' ≡ (ok tt, m'))
        × (m'.transaction ≡ none)
        × (m'.world ≡ w2)
  unfolding open_store
  open_store-unselected m w1 w2 e closed fresh reached refused = (
    record m { connected = true; world = w2 },
    rw (closed, reached, refused) refl,
    refl,
    fresh,
    refl,
  )
