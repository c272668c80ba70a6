-- ===== src/Tests/Logging.antt =====
-- Insertions by the first transaction of a new server.
use stingdb.Base.{ℕ, ◌≡◌, refl, inl, true, some, arith, [], ◌∷◌}
use stingdb.Base.Bytes.{Bytes}
use stingdb.Base.Effect.{done}
use stingdb.Storage.Page.{blank}
use stingdb.Storage.SlottedPage.{Rid}
use stingdb.Storage.BufferPool
use stingdb.Storage.Disk.{DiskManager}
use stingdb.Transaction.TransactionManager.{TransactionManager, snapshot_isolation}
use stingdb.Catalog.CatalogManager
use stingdb.Catalog.CatalogManager.{CatalogManager}
use stingdb.Catalog.Schema.{create_schema, set_offsets, create_column}
use stingdb.Storage.Page.{invalid_page_id}
use stingdb.Execution.Listed.{IsUnlisted, IsListed, bind_statement-IsUnlisted}
use stingdb.Execution.Stored.{HasTable}
use stingdb.Execution.Blank.{create-IsBlank}
use stingdb.Execution.InsertExecutor.{insert_batch}
use stingdb.Execution.InsertExecutor.Statement.{insert_batch-HasTable}
use stingdb.Network.Connection.{users, user_columns}
use stingdb.Execution.Instance.{Instance, new_transactions}
use stingdb.Execution.Ledger.{Ledger, IsOpen, begin_transaction-Ledger}
use stingdb.Execution.Rows.{init-HasRows, HasRows}
use stingdb.Execution.Working.{Working}
use stingdb.Execution.InsertExecutor.{log_insert}
use stingdb.Execution.InsertExecutor.Logged.{IsLogged, log_insert-IsLogged}
use stingdb.Network.Connection.Shown.{create-Shows}
use stingdb.Tests.OnePage.{one_page, one-Held}
use stingdb.Tests.Device.{Drive, drive}

-- The bytes of a page that was just formatted.
page_bytes : Bytes
page_bytes = (init-HasRows blank).0.bytes

page_bytes-HasRows : HasRows page_bytes 0
unfolding page_bytes
page_bytes-HasRows = (init-HasRows blank).2

abbrev a_disk : DiskManager Drive
a_disk = (one_page 3 page_bytes 1).disk

new-Ledger : Ledger 1 new_transactions
new-Ledger = (create-Shows 1 a_disk (omega arith)).1

begun_txns : TransactionManager
begun_txns =
    (begin_transaction-Ledger 1 new_transactions new-Ledger snapshot_isolation (omega arith)).0

begun-Ledger : Ledger 2 begun_txns
unfolding begun_txns
begun-Ledger =
    (begin_transaction-Ledger 1 new_transactions new-Ledger snapshot_isolation (omega arith)).2

begun-IsOpen : IsOpen 1 begun_txns
unfolding begun_txns
begun-IsOpen =
    (begin_transaction-Ledger 1 new_transactions new-Ledger snapshot_isolation (omega arith)).3

abbrev at_work : Instance Drive
at_work = record {
  pool = one_page 3 page_bytes 1;
  txns = begun_txns;
  catalog = CatalogManager.create;
}

at_work-Working : Working 3 0 1 0 2 1 at_work
at_work-Working = record {
  bytes = page_bytes;
  held = one-Held 3 page_bytes 1;
  stored = page_bytes-HasRows;
  ledger = begun-Ledger;
  is_open = begun-IsOpen;
}

abbrev a_row : Rid
a_row = record { page_id = 3; slot_num = 0 }

log_insert-IsLogged_example :
    (t : Instance Drive) × (log_insert (some 1) (some 0) a_row (7 ∷ []) at_work ≡ done tt t)
    × IsLogged 3 0 1 0 2 1 at_work at_work-Working a_row (7 ∷ []) t
log_insert-IsLogged_example = log_insert-IsLogged 3 0 1 0 2 1 at_work at_work-Working a_row (7 ∷ [])

-- The table was just made; its pool is new.
users_sized : (create_schema user_columns).tuple_fixed_size ≡ 259
unfolding create_schema set_offsets create_column
users_sized = refl

none_yet : IsUnlisted users 259 CatalogManager.create
none_yet = (create-Shows 1 a_disk (omega arith)).0.0

users_table : ℕ
users_table =
    (bind_statement-IsUnlisted users 259 CatalogManager.create none_yet user_columns users_sized).0

users_catalog : CatalogManager
users_catalog =
    (bind_statement-IsUnlisted users 259 CatalogManager.create none_yet user_columns users_sized).1

users-IsListed : IsListed users 259 users_table invalid_page_id users_catalog
unfolding users_table users_catalog
users-IsListed =
    (bind_statement-IsUnlisted users 259 CatalogManager.create none_yet user_columns users_sized).3

abbrev with_table : Instance Drive
with_table = record {
  pool = BufferPool.create 2 a_disk;
  txns = begun_txns;
  catalog = users_catalog;
}

with_table-HasTable : HasTable users users_table 0 with_table
with_table-HasTable = inl (record {
  listed = users-IsListed;
  blank = create-IsBlank 1 a_disk (omega arith);
  no_rows = refl;
})

insert_batch-HasTable_example :
    (t : Instance Drive) × (insert_batch true drive 300 (some 1) users_table 40 with_table
      ≡ done tt t)
    × HasTable users users_table 31 t
    × Ledger 2 t.txns
    × IsOpen 1 t.txns
insert_batch-HasTable_example =
    insert_batch-HasTable users users_table 0 2 1 with_table begun-Ledger begun-IsOpen true drive
      300 40 with_table-HasTable
