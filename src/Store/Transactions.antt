-- ===== src/Store/Transactions.antt =====
-- libklio/store.cpp: manual transactions, and those that a store starts and commits by itself.
pub mod Committed
pub mod Frame
use libklio.Prelude.{ℕ, Option, none, some, if◌then◌else◌}
use libklio.Exec.{Exec, pure, throw, ◌>>=◌, ◌>>◌, store_exception, undefined_behaviour}
use libklio.Store.{Store, Records, Call, run}

module _ {D : Type 0} where
  unfoldable pub check_out_commit_off : Exec (Store D) Unit
  check_out_commit_off s = (if s.auto_commit then throw store_exception else pure tt) s

  -- A call through the pointer that `get_transaction_handler` returned.
  abbrev pub through : Option ℕ → (ℕ → Call D Unit) → Exec (Store D) Unit
  through none call = throw undefined_behaviour
  through (some t) call = run (call t)

module _ {D : Type 0} (r : Records D) where
  unfoldable pub start_transaction : Exec (Store D) Unit
  unfolding check_out_commit_off
  start_transaction = do check_out_commit_off; t ← run r.get_transaction_handler; through t r.start

  unfoldable pub auto_start : Option ℕ → Exec (Store D) (Option ℕ)
  auto_start none s = pure none s
  auto_start (some t) s =
      (if s.auto_commit
          then (run (r.start t) >>= λ _. pure (some t))
          else if r.pending t s
          then pure (some t)
          else throw store_exception)
        s

  unfoldable pub auto_start_transaction : Exec (Store D) (Option ℕ)
  unfolding auto_start
  auto_start_transaction = run r.get_transaction_handler >>= auto_start

  unfoldable pub auto_commit_transaction : Option ℕ → Exec (Store D) Unit
  auto_commit_transaction none s = pure tt s
  auto_commit_transaction (some t) s = (if s.auto_commit then run (r.commit t) else pure tt) s

  -- The frame of every operation that writes records.
  unfoldable pub in_transaction : {A : Type 0} → Exec (Store D) A → Exec (Store D) A
  unfolding auto_start_transaction auto_commit_transaction
  in_transaction body = do t ← auto_start_transaction; a ← body; auto_commit_transaction t; pure a
