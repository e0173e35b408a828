-- ===== src/Sqlite3/Connected.antt =====
-- The handler of the store and the connection: the handler's pointer is the open connection, and NULL
-- where the database is closed.
pub mod History
use libklio.Prelude.{
  ◌≡◌, refl, ◌∙◌, subst, Bool-cases, inl, inr, Option-cases, ◌||◌, ◌<◌, ℕ, zero, suc, ◌+◌, Bool,
  true, false, Option, none, some, String, List, [], ◌∷◌, ◌==◌, ==_iff, ==_refl, arith, nat_eq,
  if◌then◌else◌,
}
use libklio.Exec.{Exec, Result, ok, err, pure, throw, modify, ◌>>=◌, ◌>>◌, store_exception}
use libklio.Exec.Preserves.{
  Preserves, Preserves-pure, Preserves-throw, Preserves-if, Preserves-bind,
}
use libklio.HashMap
use libklio.HashMap.{HashMap, find-assign, find-assign_self}
use libklio.Store.{Store}
use libklio.Transaction.{Statement, Transaction, sqlite3_start, sqlite3_commit, sqlite3_rollback}
use libklio.Sqlite3.{
  Api, Members, Pointer, Handler, create_transaction_handler, drive, execute_on, as_transaction,
  finalize,
}
use libklio.Sqlite3.Connection.{
  connect_transaction, close_db, open_db, open_store, take_handler, refused, opened, finalize_all,
  finalize_statements, clear_buffers, close_store, roll_back_at, on_members,
}

module _ {W : Type 0} where
  -- The handler at a place of `transactions` points to the open connection, or is NULL.
  abbrev pub PointsTo : Members W → ℕ → Type 0
  PointsTo s t =
      (h : Handler) × (HashMap.find t s.transactions ≡ some h)
      × ((h.connection == s.connection || h.connection == 0) ≡ true)

  pub record IsConnected (s : Members W) : Type 0 where
    pub placed : (t : ℕ) → s.transaction ≡ some t → t < s.next_transaction
    pub connected : (t : ℕ) → s.transaction ≡ some t → PointsTo s t

  -- The handler is given the pointer to the connection.
  connect-IsConnected :
      (s : Members W)
      → ((t : ℕ) → s.transaction ≡ some t → t < s.next_transaction)
      → ((t : ℕ)
          → s.transaction ≡ some t
          → (h : Handler) × (HashMap.find t s.transactions ≡ some h))
      → IsConnected (connect_transaction s.connection s)
  unfolding connect_transaction
  connect-IsConnected s placed found = elim (Option-cases s.transaction) [
    | inl empty ↦ rw empty record {
      placed = λ t e. ground (arith, e, empty);
      connected = λ t e. absurd (ground (arith, e, empty));
    }
    | inr (t, here) ↦
        let (h, e) = found t here in
        rw (here, e)
          record {
            placed = λ t' e'. placed t' (here ∙ e');
            connected = λ t' e'. (
              record { connection = s.connection; pending = h.pending },
              ground (
                arith,
                e',
                find-assign t' t (record { connection = s.connection; pending = h.pending })
                    s.transactions,
              ),
              ground arith,
            );
          }
  ]

  found_of :
      (s : Members W)
      → IsConnected s
      → (t : ℕ) → s.transaction ≡ some t
      → (h : Handler) × (HashMap.find t s.transactions ≡ some h)
  found_of s h t e = let (handler, found, same) = h.connected t e in (handler, found)

module _ {W : Type 0} (api : Api W) where
  pub close_db-IsConnected : Preserves IsConnected (close_db api)
  unfolding close_db
  close_db-IsConnected = record {
    at = λ s h.
        let (code, w) = api.close_v2 s.connection s.world in
        elim (Bool-cases (code == 0)) [
          | inl fine ↦
              rw fine (
                connect-IsConnected (record s { connection = 0; world = w }) h.placed
                  (found_of s h))
          | inr refused ↦ rw refused record { placed = h.placed; connected = h.connected }
        ];
  }

  pub create-IsConnected : Preserves IsConnected (create_transaction_handler api)
  unfolding create_transaction_handler
  create-IsConnected = record {
    at = λ s h. record {
      placed = λ t e. ground (arith, h.placed t e);
      connected = λ t e.
          let (handler, found, same) = h.connected t e in
          (
            handler,
            ground (
              arith,
              found,
              h.placed t e,
              find-assign t s.next_transaction
                  (record { connection = s.connection; pending = false }) s.transactions,
            ),
            same,
          );
    };
  }

  pub drive-IsConnected :
      (f : Statement W → Exec (Transaction W) Unit) (t : ℕ) → Preserves IsConnected (drive api f t)
  unfolding drive
  drive-IsConnected f t = record {
    at = λ s h. elim (Option-cases (HashMap.find t s.transactions)) [
      | inl missing ↦ rw missing h
      | inr (handler, here) ↦
          let out =
            (f (execute_on api handler.connection) (as_transaction api handler s.world)).1 in
          rw here record {
            placed = h.placed;
            connected = λ t' e.
                let (handler', found, same) = h.connected t' e in
                let new = record handler { pending = out.pending } in
                elim (Bool-cases (t == t')) [
                  | inl it ↦ (
                    new,
                    ground (arith, it, find-assign t' t new s.transactions),
                    ground (arith, it, here, found, same),
                  )
                  | inr other ↦ (
                    handler',
                    ground (arith, other, found, find-assign t' t new s.transactions),
                    same,
                  )
                ];
          }
    ];
  }

  open-IsConnected :
      (s : Members W) (c : Pointer) (w : W)
      → s.connection ≡ 0
      → IsConnected s
      → IsConnected (record s { connection = c; world = w })
  open-IsConnected s c w closed h = record {
    placed = h.placed;
    connected = λ t e.
        let (handler, found, same) = h.connected t e in
        (handler, found, ground (arith, same, closed));
  }

  take_handler-IsConnected :
      (o : Option ℕ) (s : Members W)
      → s.transaction ≡ o
      → IsConnected s
      → IsConnected (take_handler api o s).1
  unfolding create_transaction_handler
  take_handler-IsConnected (some t) s e h = connect-IsConnected s h.placed (found_of s h)
  take_handler-IsConnected none s e h =
      let new : Handler = record { connection = s.connection; pending = false } in
      record {
        placed = λ t e'. ground (arith, e');
        connected = λ t e'. (
          new,
          ground (arith, e', find-assign t s.next_transaction new s.transactions),
          ground arith,
        );
      }

  refused-IsConnected : (s : Members W) → IsConnected s → IsConnected (refused api s s).1
  unfolding close_db
  refused-IsConnected s h = elim (Bool-cases (s.connection == 0)) [
    | inl null ↦ rw null (
        subst (λ c. IsConnected (connect_transaction c s)) ((==_iff s.connection 0).0 null)
          (connect-IsConnected s h.placed (found_of s h)))
    | inr some_connection ↦ rw some_connection (
        (Preserves-bind (close_db api) _ close_db-IsConnected
            λ _. Preserves-throw store_exception).at
          s h)
  ]

  opened-IsConnected :
      (code : ℕ) (s : Members W) → IsConnected s → IsConnected (opened api code s).1
  opened-IsConnected code s h = elim (Bool-cases (code == 0)) [
    | inl fine ↦ rw fine (take_handler-IsConnected s.transaction s refl h)
    | inr wrong ↦ rw wrong (refused-IsConnected s h)
  ]

  pub open_store-IsConnected : Preserves IsConnected (open_store api)
  unfolding open_store open_db
  open_store-IsConnected = record {
    at = λ s h. elim (Bool-cases (s.connection == 0)) [
      | inl closed ↦ rw closed (
          opened-IsConnected (api.open_v2 s.path s.world).0.0 _ (
            open-IsConnected s (api.open_v2 s.path s.world).0.1 (api.open_v2 s.path s.world).1
              ((==_iff s.connection 0).0 closed) h))
      | inr is_open ↦ rw is_open h
    ];
  }
