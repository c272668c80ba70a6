-- ===== src/Network/Connection/Server.antt =====
-- What a connection promises: a table that may be there with its number of rows, and the number of the
-- next transaction.
use stingdb.Base.{ℕ, ◌+◌, List, [], ◌∷◌, Option, none, some, if◌then◌else◌}
use stingdb.Base.Effect.{table_not_found, insert_target_not_found, table_exists}
use stingdb.Execution.InsertExecutor.Inserted.{added}
use stingdb.Network.Connection.{
  Response, table_created, row_inserted, unsupported, rows_selected, transaction_started, failed,
  starts_with, create_table_text, insert_text, select_text, begin_text,
}

pub data Statement : Type 0 where
  create_table insert select begin other : Statement

-- A query is known by how it begins.
abbrev pub statement_of : List ℕ → Statement
statement_of query =
    if starts_with create_table_text query
    then create_table
    else if starts_with insert_text query
    then insert
    else if starts_with select_text query
    then select
    else if starts_with begin_text query
    then begin
    else other

pub record Server : Type 0 where
  pub table : Option ℕ
  pub next_txn : ℕ

abbrev pub new_server : Server
new_server = record { table = none; next_txn = 1 }

-- A statement on rows takes a transaction number, with or without the table.
abbrev pub reply : Statement → Server → Response × Server
reply create_table s = elim s.table [
  | none ↦ (table_created, record s { table = some 0 })
  | some rows ↦ (failed table_exists, s)
]
reply insert s = elim s.table [
  | none ↦ (failed insert_target_not_found, record s { next_txn = s.next_txn + 1 })
  | some rows ↦ (row_inserted, record { table = some (added 1 rows); next_txn = s.next_txn + 1 })
]
reply select s = elim s.table [
  | none ↦ (failed table_not_found, record s { next_txn = s.next_txn + 1 })
  | some rows ↦ (rows_selected rows, record s { next_txn = s.next_txn + 1 })
]
reply begin s = (transaction_started s.next_txn, record s { next_txn = s.next_txn + 1 })
reply other s = (unsupported, s)

unfoldable pub replies : List (List ℕ) → Server → List Response × Server
replies [] s = ([], s)
replies (query ∷ queries) s =
    let (response, t) = reply (statement_of query) s in
    let (responses, u) = replies queries t in (response ∷ responses, u)
