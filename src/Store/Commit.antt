-- ===== src/Store/Commit.antt =====
-- libklio/store.cpp: the end of a manual transaction.
use libklio.Exec.{Exec, modify, ◌>>=◌, ◌>>◌}
use libklio.Store.{Store, Backend, run}
use libklio.Store.Transactions.{check_out_commit_off, through}
use libklio.Store.Flush.{flush_all}

module _ {D : Type 0} (b : Backend D) where
  unfoldable pub commit_transaction : Exec (Store D) Unit
  unfolding check_out_commit_off flush_all
  commit_transaction = do
    check_out_commit_off
    λ s. flush_all b.records s.auto_flush s
    t ← run b.records.get_transaction_handler
    through t b.records.commit

  unfoldable pub rollback_transaction : Exec (Store D) Unit
  unfolding check_out_commit_off
  rollback_transaction = do
    check_out_commit_off
    t ← run b.records.get_transaction_handler
    through t b.records.rollback
    modify b.clear_buffers
    b.prepare
