-- ===== src/Execution/Instance.antt =====
-- src/system/instance.h and src/execution/executor_context.h: the managers of a server, and calls of
-- one of them. The log manager is a part of the transaction manager, which holds the pointer to it.
use native.Mathlib.Decide.{ℕ_discrete}
use stingdb.Base.{ℕ, [], Option, none, some}
use stingdb.Base.Effect.{Eff, done, fault, within}
use stingdb.Base.Table.{find, insert}
use stingdb.Storage.Page.{Page}
use stingdb.Storage.Disk.{DiskManager}
use stingdb.Storage.BufferPool
use stingdb.Storage.BufferPool.{BufferPool, on_frame}
use stingdb.Transaction.EpochManager
use stingdb.Transaction.LogManager
use stingdb.Transaction.LogManager.{LogRecord, append_log_record}
use stingdb.Transaction.TransactionManager.{Transaction, TransactionManager, append_write_set}
use stingdb.Catalog.CatalogManager
use stingdb.Catalog.CatalogManager.{CatalogManager, TableInfo, update_first_page_id}

pub record Instance (D : Type 0) : Type 0 where
  pub pool : BufferPool D
  pub txns : TransactionManager
  pub catalog : CatalogManager

-- The transaction manager of a new instance.
abbrev pub new_transactions : TransactionManager
new_transactions = record {
  next_txn_id = 1;
  log_manager = LogManager.create;
  epoch_manager = EpochManager.create;
  txn_map = [];
}

-- The constructor, on the buffer pool.
abbrev pub create : {D : Type 0} → BufferPool D → Instance D
create pool = record { pool = pool; txns = new_transactions; catalog = CatalogManager.create }

module _ {D A : Type 0} where
  abbrev pub on_pool : Eff (BufferPool D) A → Eff (Instance D) A
  on_pool m s = within s (λ p. record s { pool = p }) (m s.pool)

  abbrev pub on_catalog : Eff CatalogManager A → Eff (Instance D) A
  on_catalog m s = within s (λ c. record s { catalog = c }) (m s.catalog)

  abbrev pub on_txns : Eff TransactionManager A → Eff (Instance D) A
  on_txns m s = within s (λ t. record s { txns = t }) (m s.txns)

  -- On the page that `raw` points to; a null pointer is undefined.
  abbrev pub on_page : Option ℕ → Eff Page A → Eff (Instance D) A
  on_page none m s = fault
  on_page (some f) m s = on_pool (on_frame f m) s

-- What a `TableInfo*` points to, and a write through it.
unfoldable pub table_at : ℕ → Eff CatalogManager TableInfo
table_at id m = elim (find ℕ_discrete id m.tables) [ none ↦ fault | some t ↦ done t m ]

unfoldable pub set_first_page : ℕ → ℕ → Eff CatalogManager (Unit {0})
set_first_page id page_id m = elim (find ℕ_discrete id m.tables) [
  | none ↦ fault
  | some t ↦
      done tt (record m { tables = insert ℕ_discrete id (update_first_page_id page_id t) m.tables })
]

-- What a `Transaction*` points to, and `AppendWriteSet` through it.
unfoldable pub txn_at : ℕ → Eff TransactionManager Transaction
txn_at id m = elim (find ℕ_discrete id m.txn_map) [ none ↦ fault | some t ↦ done t m ]

unfoldable pub extend_write_set : ℕ → ℕ → Eff TransactionManager (Unit {0})
extend_write_set id lsn m = elim (find ℕ_discrete id m.txn_map) [
  | none ↦ fault
  | some t ↦
      done tt (record m { txn_map = insert ℕ_discrete id (append_write_set lsn t) m.txn_map })
]

-- `GetLogManager()->AppendLogRecord`
unfoldable pub append_log : LogRecord → Eff TransactionManager ℕ
append_log r m =
    let (lsn, log) = append_log_record r m.log_manager in done lsn (record m { log_manager = log })

-- The instance that src/main.cpp makes over its disk manager, with a pool of 4096 frames.
unfoldable pub start : {D : Type 0} → DiskManager D → Instance D
start disk = create (BufferPool.create 4096 disk)
