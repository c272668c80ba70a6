-- ===== src/Network/Connection/Answer.antt =====
-- The texts of the answers in src/network/connection.h, and the messages of the exceptions that
-- src/storage/disk/disk_manager.cpp, src/catalog/schema.h, src/catalog/catalog_manager.h, src/sql/binder.h
-- and the executors throw.
pub mod Read
pub mod Whole
use stingdb.Base.{ℕ, List, [], ◌∷◌, ◌++◌}
use stingdb.Base.Text.{codes, decimal}
use stingdb.Base.Effect.{
  Error, open_failed, ring_failed, read_failed, queue_full, out_of_range, out_of_memory,
  table_exists, table_not_found, insert_target_not_found, column_not_found, unsupported_statement,
}
use stingdb.Network.Connection.{
  Response, table_created, row_inserted, unsupported, rows_selected, transaction_started, failed,
  users,
}

-- What the exceptions of the standard library say, and the column that was looked for: no query looks
-- one up.
pub record Texts : Type 0 where
  pub out_of_range_what : List ℕ
  pub bad_alloc_what : List ℕ
  pub column : List ℕ

-- `e.what()`
unfoldable pub what : Texts → Error → List ℕ
what texts open_failed = codes "DiskManager: failed to open db file"
what texts ring_failed = codes "DiskManager: failed to initialize io_uring"
what texts read_failed = codes "DiskManager: failed to read page"
what texts queue_full = codes "DiskManager: io_uring submission queue is full"
what texts out_of_range = texts.out_of_range_what
what texts out_of_memory = texts.bad_alloc_what
what texts table_exists = codes "Table already exists: " ++ users
what texts table_not_found = codes "Table not found: " ++ users
what texts insert_target_not_found = codes "Table not found for INSERT: " ++ users
what texts column_not_found = codes "Column '" ++ (texts.column ++ codes "' not found.")
what texts unsupported_statement = codes "Unsupported statement type for binding"

-- The string `response`.
unfoldable pub response_text : Texts → Response → List ℕ
unfolding what
response_text texts table_created = codes "Success: Table 'users' created." ++ b'\n' ∷ []
response_text texts row_inserted = codes "Success: 1 row inserted into 'users'." ++ b'\n' ∷ []
response_text texts (rows_selected count) =
    codes "Success: " ++ (decimal count ++ (codes " rows selected from 'users'." ++ b'\n' ∷ []))
response_text texts (transaction_started id) =
    codes "Success: Transaction " ++ (decimal id ++ (codes " started." ++ b'\n' ∷ []))
response_text texts unsupported =
    codes "Error: Unsupported statement. Try CREATE TABLE or BEGIN." ++ b'\n' ∷ []
response_text texts (failed e) = codes "Error: " ++ (what texts e ++ b'\n' ∷ [])
