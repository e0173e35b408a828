-- ===== src/Store/Transactions/Committed.antt =====
-- The course of an operation in a transaction, where every call succeeds.
use libklio.Prelude.{ℕ, ◌≡◌, true, some}
use libklio.Exec.{Exec, ok}
use libklio.Store.{Store, Records}
use libklio.Store.Transactions.{in_transaction, auto_start, auto_commit_transaction}

module _ {D : Type 0} (r : Records D) where
  auto_start-some :
      (s : Store D) (t : ℕ) {d : D}
      → s.auto_commit ≡ true
      → r.start t s ≡ (ok tt, d)
      → auto_start r (some t) s ≡ (ok (some t), record s { db = d })
  unfolding auto_start
  auto_start-some s t ac e = simp (ac, e)

  auto_commit-some :
      (s : Store D) (t : ℕ) {d : D}
      → s.auto_commit ≡ true
      → r.commit t s ≡ (ok tt, d)
      → auto_commit_transaction r (some t) s ≡ (ok tt, record s { db = d })
  unfolding auto_commit_transaction
  auto_commit-some s t ac e = simp (ac, e)

  -- Where the store commits by itself and each call succeeds, an operation starts a transaction, runs
  -- its body and commits, in this order.
  pub in_transaction_commits :
      {A : Type 0} (body : Exec (Store D) A) (s s' : Store D) (t : ℕ) (a : A) {d1 d2 d3 : D}
      → s.auto_commit ≡ true
      → r.get_transaction_handler s ≡ (ok (some t), d1)
      → r.start t (record s { db = d1 }) ≡ (ok tt, d2)
      → body (record s { db = d2 }) ≡ (ok a, s')
      → s'.auto_commit ≡ true
      → r.commit t s' ≡ (ok tt, d3)
      → in_transaction r body s ≡ (ok a, record s' { db = d3 })
  unfolding in_transaction
  in_transaction_commits body s s' t a {d1} {d2} {d3} ac handler started ran ac' committed = rw (
    handler,
    auto_start-some (record s { db = d1 }) t ac started,
    ran,
    auto_commit-some s' t ac' committed,
  )
