-- ===== src/Transaction/Agreement.antt =====
-- A handler knows of the transaction that its database has open.
use libklio.Prelude.{
  ◌≡◌, refl, ◌∙◌, sym, Bool, true, false, String, List, [], ◌∷◌, arith, if◌then◌else◌,
}
use libklio.Exec.{Exec, Result, ok, err, store_exception}
use libklio.Transaction.{
  Transaction, Statement, settle, begin_with, end_with, sqlite3_start, sqlite3_commit,
  sqlite3_rollback,
}

-- What SQLite documents of these statements: `opened` tells whether a transaction is open. A statement
-- that fails opens none; it may roll back the one that is open, as after a full disk.
pub record IsDocumented {D : Type 0} (execute : Statement D) (opened : D → Bool) : Type 0 where
  pub begins : (d : D) → (execute "BEGIN" d).0 ≡ ok true → opened (execute "BEGIN" d).1 ≡ true
  pub commits : (d : D) → (execute "COMMIT" d).0 ≡ ok true → opened (execute "COMMIT" d).1 ≡ false
  pub rolls_back :
      (d : D) → (execute "ROLLBACK" d).0 ≡ ok true → opened (execute "ROLLBACK" d).1 ≡ false
  pub fails :
      (command : String) (d : D)
      → (execute command d).0 ≡ ok false
      → opened (execute command d).1 ≡ true
      → opened d ≡ true
  pub never_throws : (command : String) (d : D) → (b : Bool) × ((execute command d).0 ≡ ok b)

-- The calls of a handler, in the order in which they are made.
pub data Call : Type 0 where
  start commit rollback : Call

module _ {D : Type 0} (execute : Statement D) where
  unfoldable pub handle : Call → Exec (Transaction D) Unit
  unfolding sqlite3_start sqlite3_commit sqlite3_rollback
  handle start = sqlite3_start execute
  handle commit = sqlite3_commit execute
  handle rollback = sqlite3_rollback execute

  -- The handler after the calls, whether they throw or not.
  unfoldable pub handle_all : List Call → Transaction D → Transaction D
  unfolding handle
  handle_all [] s = s
  handle_all (call ∷ rest) s = handle_all rest (handle call s).1

module _ {D : Type 0} (opened : D → Bool) where
  -- An open transaction is pending for the handler.
  abbrev pub Knows : Transaction D → Type 0
  Knows s = opened s.db ≡ true → s.pending ≡ true

  settle-Knows :
      (flag : Bool) (s : Transaction D) (out : Result Bool × D)
      → Knows s
      → ((b : Bool) × (out.0 ≡ ok b))
      → (out.0 ≡ ok true → opened out.1 ≡ flag)
      → (out.0 ≡ ok false → opened out.1 ≡ true → opened s.db ≡ true)
      → Knows (settle flag s out).1
  settle-Knows flag s (ok true, d) h b done failed = λ still_open. sym (done refl) ∙ still_open
  settle-Knows flag s (ok false, d) h b done failed = λ still_open. h (failed refl still_open)
  settle-Knows flag s (err e, d) h (b, thrown) done failed = absurd (ground arith)

  if-Known :
      (b : Bool) (taken other : Result (Unit {0}) × Transaction D)
      → Knows taken.1
      → Knows other.1
      → Knows (if b then taken else other).1
  if-Known true taken other h k = h
  if-Known false taken other h k = k

module _ {D : Type 0} (execute : Statement D) (opened : D → Bool)
    (documented : IsDocumented execute opened) where
  begin_with-Knows :
      (s : Transaction D) → Knows opened s → Knows opened (begin_with execute "BEGIN" s).1
  unfolding begin_with
  begin_with-Knows s h =
      if-Known opened s.connected _ (err store_exception, s)
        (if-Known opened s.pending (ok tt, s) _ h
          (settle-Knows opened true s (execute "BEGIN" s.db) h
            (documented.never_throws "BEGIN" s.db) (documented.begins s.db)
            (documented.fails "BEGIN" s.db)))
        h

  end_with-Knows :
      (command : String) (s : Transaction D)
      → ((execute command s.db).0 ≡ ok true → opened (execute command s.db).1 ≡ false)
      → Knows opened s
      → Knows opened (end_with execute command s).1
  unfolding end_with
  end_with-Knows command s ends h =
      if-Known opened s.connected _ (ok tt, s)
        (if-Known opened s.pending _ (ok tt, s)
          (settle-Knows opened false s (execute command s.db) h
            (documented.never_throws command s.db) ends (documented.fails command s.db))
          h)
        h

  handle-Knows :
      (call : Call) (s : Transaction D) → Knows opened s → Knows opened (handle execute call s).1
  unfolding handle
  handle-Knows start s h = unfold sqlite3_start in begin_with-Knows s h
  handle-Knows commit s h =
      unfold sqlite3_commit in end_with-Knows "COMMIT" s (documented.commits s.db) h
  handle-Knows rollback s h =
      unfold sqlite3_rollback in end_with-Knows "ROLLBACK" s (documented.rolls_back s.db) h

  -- Where SQLite does what it documents, and a failed statement may roll back by itself: if a handler
  -- has an open transaction pending, it does so after every sequence of its calls, also after statements
  -- that failed, so no transaction is left open unknown to the handler.
  pub handle_all-Knows :
      (calls : List Call) (s : Transaction D)
      → Knows opened s
      → Knows opened (handle_all execute calls s)
  unfolding handle_all
  handle_all-Knows [] s h = h
  handle_all-Knows (call ∷ rest) s h =
      handle_all-Knows rest (handle execute call s).1 (handle-Knows call s h)
