-- ===== src/Execution/InsertExecutor.antt =====
-- src/execution/insert_executor.h. `asserts`, `io` and `fuel` are those of the buffer pool, and `txn`
-- is the transaction of the context, which may be null.
pub mod Inserted
pub mod Statement
pub mod Logged
use stingdb.Base.{
  ℕ, zero, suc, Bool, true, false, List, Option, none, some, ◌==◌, if◌then◌else◌, replicate,
}
use stingdb.Base.Effect.{
  Eff, Outcome, done, thrown, fault, insert_target_not_found, pure, throw, crash, bind, ◌>>=◌, ◌>>◌,
  get_state, put_state, within,
}
use stingdb.Storage.Page.{invalid_page_id}
use stingdb.Storage.SlottedPage.{Rid, init, insert_tuple, get_lsn, set_lsn}
use stingdb.Storage.Disk.{Device}
use stingdb.Storage.BufferPool.{new_page, fetch_page, unpin_page}
use stingdb.Transaction.LogManager
use stingdb.Transaction.LogManager.{tuple_record}
use stingdb.Catalog.Schema.{Name}
use stingdb.Catalog.CatalogManager.{TableInfo, get_table_named}
use stingdb.Execution.Instance.{
  Instance, on_pool, on_catalog, on_txns, on_page, table_at, set_first_page, txn_at,
  extend_write_set, append_log,
}
use stingdb.Execution.TupleBatch.{TupleBatch, empty_batch}
use stingdb.Execution.Executor.{ExecutionOperator, on_server}

pub record InsertExecutor (C : Type 0) : Type 0 where
  pub child : C
  pub table_info : Option ℕ

module _ {D : Type 0} where
  -- Logs the insertion of a row and stamps its page; nothing without a transaction.
  unfoldable pub log_insert : Option ℕ → Option ℕ → Rid → List ℕ → Eff (Instance D) (Unit {0})
  log_insert none raw_page rid tuple = pure tt
  log_insert (some txn) raw_page rid tuple = do
    t ← on_txns (txn_at txn)
    page_lsn ← on_page raw_page get_lsn
    lsn ← on_txns (append_log (tuple_record t.txn_id page_lsn LogManager.insert rid tuple))
    on_txns (extend_write_set txn lsn)
    on_page raw_page (set_lsn lsn)

  -- The loop over the rows of the batch, from the call that had result `inserted` on.
  unfoldable pub insert_rows : Option ℕ → Option ℕ → List ℕ → ℕ → Eff (Instance D) (Unit {0})
  insert_rows txn raw_page tuple zero = pure tt
  insert_rows txn raw_page tuple (suc rows) = do
    inserted ← on_page raw_page (insert_tuple tuple)
    elim inserted [
      | none ↦ pure tt
      | some rid ↦ (do log_insert txn raw_page rid tuple; insert_rows txn raw_page tuple rows)
    ]

  -- The table's new first page: `NewPage` leaves the number alone where it fails.
  unfoldable pub start_table : ℕ → Option (ℕ × ℕ) → Eff (Instance D) (ℕ × Option ℕ)
  start_table table none = do
    on_catalog (set_first_page table invalid_page_id)
    on_page none init
    pure (invalid_page_id, none)
  start_table table (some (page_id, f)) = do
    on_catalog (set_first_page table page_id)
    on_page (some f) init
    pure (page_id, some f)

module _ {D : Type 0} (asserts : Bool) (io : Device D) (fuel : ℕ) where
  -- The page number and the page to write to.
  unfoldable pub open_table : ℕ → TableInfo → Eff (Instance D) (ℕ × Option ℕ)
  unfolding start_table
  open_table table info =
      if info.first_page_id == invalid_page_id
      then (do made ← on_pool (new_page io fuel); start_table table made)
      else (do
        raw_page ← on_pool (fetch_page io fuel info.first_page_id)
        pure (info.first_page_id, raw_page))

  -- The body of the `if`, with the number of rows of the batch.
  unfoldable pub insert_batch : Option ℕ → ℕ → ℕ → Eff (Instance D) (Unit {0})
  unfolding open_table insert_rows
  insert_batch txn table num_rows = do
    info ← on_catalog (table_at table)
    (page_id, raw_page) ← open_table table info
    insert_rows txn raw_page (replicate info.schema.tuple_fixed_size 0) num_rows
    unpinned ← on_pool (unpin_page asserts page_id true)
    pure tt

  module _ {C : Type 0} (child : ExecutionOperator (Instance D) C) (table_name : Name) where
    -- A call on the child.
    abbrev pub on_child :
        {A : Type 0} → Eff (C × Instance D) A → Eff (InsertExecutor C × Instance D) A
    on_child m s = within s (λ t. (record (s.0) { child = t.0 }, t.1)) (m (s.0.child, s.1))

    unfoldable pub insert_init : Eff (InsertExecutor C × Instance D) (Unit {0})
    insert_init = do
      on_child child.init
      found ← on_server (on_catalog (get_table_named table_name))
      s ← get_state
      put_state (record (s.0) { table_info = found }, s.1)
      elim found [ none ↦ throw insert_target_not_found | some _ ↦ pure tt ]

    unfoldable pub insert_into :
        Option ℕ → Option ℕ → TupleBatch → Eff (InsertExecutor C × Instance D) (Bool × TupleBatch)
    unfolding insert_batch
    insert_into txn none batch_out = pure (false, batch_out)
    insert_into txn (some table) batch_out = do
      (found, input_batch) ← on_child (child.next empty_batch)
      if found
          then (do on_server (insert_batch txn table input_batch.num_rows); pure (false, batch_out))
          else pure (false, batch_out)

    unfoldable pub insert_next :
        Option ℕ → TupleBatch → Eff (InsertExecutor C × Instance D) (Bool × TupleBatch)
    unfolding insert_into
    insert_next txn batch_out s = insert_into txn s.0.table_info batch_out s

    -- As an operator, so that executors compose.
    abbrev pub insert_executor : Option ℕ → ExecutionOperator (Instance D) (InsertExecutor C)
    insert_executor txn = record { init = insert_init; next = insert_next txn }
