-- ===== src/Network/Connection/Insert.antt =====
-- INSERT, from the transaction it begins to the transaction it commits.
use stingdb.Base.{ℕ, ◌+◌, ◌^◌, ◌<◌, ◌≡◌, refl, Bool}
use stingdb.Base.Effect.{done, thrown, insert_target_not_found}
use stingdb.Storage.Disk.{Device}
use stingdb.Transaction.TransactionManager.{snapshot_isolation}
use stingdb.Execution.Instance.{Instance}
use stingdb.Execution.Listed.{IsUnlisted, get_table_named-IsUnlisted}
use stingdb.Execution.Ledger.{Ledger, IsOpen, begin_transaction-Ledger, commit_transaction-Ledger}
use stingdb.Execution.Stored.{HasTable, get_table_named-HasTable}
use stingdb.Execution.TupleBatch.{set_num_rows}
use stingdb.Execution.Executor.{dummy_values}
use stingdb.Execution.InsertExecutor.{insert_init, insert_into, insert_next}
use stingdb.Execution.InsertExecutor.Inserted.{added}
use stingdb.Execution.InsertExecutor.Statement.{insert_batch-HasTable}
use stingdb.Network.Connection.{users, run_insert, row_inserted, begin_snapshot}

module _ {D : Type 0} (next : ℕ) (s : Instance D) (ledger : Ledger next s.txns)
    (small : next + 1 < 2 ^ 64) (asserts : Bool) (io : Device D) (fuel : ℕ) where
  pub run_insert-HasTable :
      (table rows : ℕ)
      → HasTable users table rows s
      → (t : Instance D) × (run_insert asserts io fuel s ≡ done row_inserted t)
        × HasTable users table (added 1 rows) t
        × Ledger (next + 1) t.txns
  unfolding run_insert begin_snapshot insert_init insert_next insert_into dummy_values set_num_rows
  run_insert-HasTable table rows has =
      let (m1, e1, ledger1, open1) =
        begin_transaction-Ledger next s.txns ledger snapshot_isolation small in
      let (t2, e2, has2, ledger2, open2) =
        insert_batch-HasTable users table rows (next + 1) next (record s { txns = m1 }) ledger1
          open1 asserts io fuel 1 has in
      let (m3, e3, ledger3) = commit_transaction-Ledger (next + 1) t2.txns ledger2 next open2 in
      (
        record t2 { txns = m3 },
        rw (e1, get_table_named-HasTable users table rows s has, e2, e3) refl,
        has2,
        ledger3,
      )

  -- Without the table the transaction is begun and stays open.
  pub run_insert-IsUnlisted :
      (none_yet : IsUnlisted users 259 s.catalog)
      → (t : Instance D) × (run_insert asserts io fuel s ≡ thrown insert_target_not_found t)
        × (t.pool ≡ s.pool)
        × (t.catalog ≡ s.catalog)
        × Ledger (next + 1) t.txns
        × IsOpen next t.txns
  unfolding run_insert begin_snapshot insert_init dummy_values
  run_insert-IsUnlisted none_yet =
      let (m1, e1, ledger1, open1) =
        begin_transaction-Ledger next s.txns ledger snapshot_isolation small in
      (
        record s { txns = m1 },
        rw (e1, get_table_named-IsUnlisted users 259 s.catalog none_yet) refl,
        refl,
        refl,
        ledger1,
        open1,
      )
