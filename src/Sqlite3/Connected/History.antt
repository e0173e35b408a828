-- ===== src/Sqlite3/Connected/History.antt =====
-- The events in the life of a store of SQLite, and what they keep.
use libklio.Prelude.{ℕ, Option, none, some, String, List, [], ◌∷◌, ◌==◌, nat_eq}
use libklio.Exec.{Exec, pure, modify, ◌>>=◌}
use libklio.Exec.Preserves.{Preserves, Preserves-pure, Preserves-if, Preserves-bind}
use libklio.HashMap.{HashMap}
use libklio.Store.{Store}
use libklio.Transaction.{sqlite3_start, sqlite3_commit, sqlite3_rollback}
use libklio.Sqlite3.{Api, Members, Pointer, create_transaction_handler, drive, finalize}
use libklio.Sqlite3.Connection.{
  close_db, open_store, finalize_all, finalize_statements, clear_buffers, close_store, roll_back_at,
  on_members,
}
use libklio.Sqlite3.Connected.{
  IsConnected, close_db-IsConnected, create-IsConnected, drive-IsConnected, open_store-IsConnected,
}

module _ {W : Type 0} (api : Api W) where
  finalize_all-IsConnected :
      (all : HashMap String Pointer) (s : Members W)
      → IsConnected s
      → IsConnected (finalize_all api all s)
  unfolding finalize_all
  finalize_all-IsConnected [] s h = h
  finalize_all-IsConnected ((sql, stmt) ∷ rest) s h =
      finalize_all-IsConnected rest (finalize api stmt s)
        record { placed = h.placed; connected = h.connected }

  on_members-IsConnected :
      {A : Type 0} (f : Exec (Members W) A)
      → Preserves IsConnected f
      → Preserves (λ s. IsConnected s.db) (on_members f)
  on_members-IsConnected f h = record { at = λ s p. h.at s.db p }

  finalize_statements-IsConnected : Preserves IsConnected (modify (finalize_statements api))
  unfolding finalize_statements
  finalize_statements-IsConnected = record {
    at = λ s h.
        let h' = finalize_all-IsConnected s.statements s h in
        record { placed = h'.placed; connected = h'.connected };
  }

  roll_back-IsConnected : (o : Option ℕ) → Preserves IsConnected (roll_back_at api o)
  roll_back-IsConnected none = Preserves-pure tt
  roll_back-IsConnected (some t) = drive-IsConnected api sqlite3_rollback t

  close_store-IsConnected : Preserves (λ s. IsConnected s.db) (close_store api)
  unfolding close_store clear_buffers
  close_store-IsConnected = record {
    at = λ s h.
        (Preserves-if (s.db.connection == 0) _ _ (Preserves-pure tt) (
            Preserves-bind _ _ (on_members-IsConnected _ finalize_statements-IsConnected) λ _.
              Preserves-bind _ _
                (on_members-IsConnected (λ m. roll_back_at api m.transaction m)
                  (record { at = λ m k. (roll_back-IsConnected m.transaction).at m k }))
                λ _.
                  Preserves-bind (modify (clear_buffers api)) _
                    (record { at = λ s' k. record { placed = k.placed; connected = k.connected } })
                    λ _. on_members-IsConnected (close_db api) (close_db-IsConnected api))).at
          s h;
  }

-- What happens to a store: it is opened or closed, a handler is made, or a handler is driven.
pub data Event : Type 0 where
  opens closes makes : Event
  starts commits rolls_back : ℕ → Event

module _ {W : Type 0} (api : Api W) where
  abbrev pub happen : Event → Exec (Store (Members W)) Unit
  happen opens = on_members (open_store api)
  happen closes = close_store api
  happen makes = on_members (create_transaction_handler api) >>= λ t. pure tt
  happen (starts t) = on_members (drive api sqlite3_start t)
  happen (commits t) = on_members (drive api sqlite3_commit t)
  happen (rolls_back t) = on_members (drive api sqlite3_rollback t)

  -- The store after the events, whether they throw or not.
  unfoldable pub history : List Event → Store (Members W) → Store (Members W)
  history [] s = s
  history (e ∷ rest) s = history rest (happen e s).1

  happen-IsConnected : (e : Event) → Preserves (λ s. IsConnected s.db) (happen e)
  happen-IsConnected opens = on_members-IsConnected api _ (open_store-IsConnected api)
  happen-IsConnected closes = close_store-IsConnected api
  happen-IsConnected makes =
      Preserves-bind _ _ (on_members-IsConnected api _ (create-IsConnected api))
        λ t. Preserves-pure tt
  happen-IsConnected (starts t) =
      on_members-IsConnected api _ (drive-IsConnected api sqlite3_start t)
  happen-IsConnected (commits t) =
      on_members-IsConnected api _ (drive-IsConnected api sqlite3_commit t)
  happen-IsConnected (rolls_back t) =
      on_members-IsConnected api _ (drive-IsConnected api sqlite3_rollback t)

  -- However a store is opened and closed and its handlers are driven, and whatever SQLite answers: the
  -- pointer of the store's own handler is the connection of the store, or NULL.
  pub history-IsConnected :
      (events : List Event) (s : Store (Members W))
      → IsConnected s.db
      → IsConnected (history events s).db
  unfolding history
  history-IsConnected [] s h = h
  history-IsConnected (e ∷ rest) s h =
      history-IsConnected rest (happen e s).1 ((happen-IsConnected e).at s h)
