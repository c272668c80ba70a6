-- ===== src/Network/Connection.antt =====
-- src/network/connection.h: the answer to a query. Reading the query from the socket and writing the
-- answer to it is left to the library that calls back. A response stands for its text.
pub mod Insert
pub mod Server
pub mod Shown
pub mod Served
pub mod Failed
pub mod Select
pub mod Answer
use stingdb.Base.{
  ℕ, zero, suc, ◌+◌, Bool, true, false, List, [], ◌∷◌, Option, none, some, ◌==◌, ◌&&◌,
  if◌then◌else◌,
}
use stingdb.Base.Effect.{
  Error, Eff, Outcome, done, thrown, fault, pure, bind, ◌>>=◌, ◌>>◌, get_state, put_state, within,
}
use stingdb.Storage.Disk.{Device}
use stingdb.Transaction.TransactionManager.{
  snapshot_isolation, begin_transaction, commit_transaction, TransactionManager,
}
use stingdb.Catalog.Schema.{Name, Column, integer, varchar, create_column}
use stingdb.Catalog.CatalogManager.{create_statement, bind_statement}
use stingdb.Execution.Instance.{Instance, on_catalog, on_txns}
use stingdb.Execution.TupleBatch.{TupleBatch, empty_batch}
use stingdb.Execution.Executor.{ExecutionOperator, dummy_values}
use stingdb.Execution.InsertExecutor.{InsertExecutor, insert_init, insert_next}
use stingdb.Execution.SeqScanExecutor.{SeqScanExecutor, new_scan, scan_init, scan_next}

-- The texts that the queries are compared with, and the name of the only table.
abbrev pub create_table_text : List ℕ
create_table_text =
    b'C' ∷ b'R' ∷ b'E' ∷ b'A' ∷ b'T' ∷ b'E' ∷ b' ' ∷ b'T' ∷ b'A' ∷ b'B' ∷ b'L' ∷ b'E' ∷ []

abbrev pub insert_text : List ℕ
insert_text = b'I' ∷ b'N' ∷ b'S' ∷ b'E' ∷ b'R' ∷ b'T' ∷ []

abbrev pub select_text : List ℕ
select_text = b'S' ∷ b'E' ∷ b'L' ∷ b'E' ∷ b'C' ∷ b'T' ∷ []

abbrev pub begin_text : List ℕ
begin_text = b'B' ∷ b'E' ∷ b'G' ∷ b'I' ∷ b'N' ∷ []

abbrev pub users : Name
users = b'u' ∷ b's' ∷ b'e' ∷ b'r' ∷ b's' ∷ []

-- `query.length() >= n && query.substr(0, n) == text`
unfoldable pub starts_with : List ℕ → List ℕ → Bool
starts_with [] query = true
starts_with (c ∷ text) [] = false
starts_with (c ∷ text) (d ∷ query) = (c == d) && starts_with text query

-- The columns of `CREATE TABLE`, whatever the query says of them.
abbrev pub user_columns : List Column
user_columns =
    create_column (b'i' ∷ b'd' ∷ []) integer 4
    ∷ create_column (b'n' ∷ b'a' ∷ b'm' ∷ b'e' ∷ []) varchar 255
    ∷ []

pub data Response : Type 0 where
  table_created row_inserted unsupported : Response
  rows_selected : ℕ → Response
  transaction_started : ℕ → Response
  failed : Error → Response

module _ {D : Type 0} where
  -- An executor on the stack of the call: its own state begins at `e` and is dropped.
  abbrev pub run_local : {C A : Type 0} → C → Eff (C × Instance D) A → Eff (Instance D) A
  run_local e m s = within s (λ t. t.1) (m (e, s))

  unfoldable pub begin_snapshot : Eff (Instance D) ℕ
  begin_snapshot = on_txns λ m. let (id, m') = begin_transaction snapshot_isolation m in done id m'

  unfoldable pub run_create : Eff (Instance D) Response
  run_create = do
    on_catalog (bind_statement (create_statement users user_columns))
    pure table_created

  -- The `catch`: what was done before the throw stays done.
  abbrev pub answered : Outcome (Instance D) Response → Outcome (Instance D) Response
  answered (done r s) = done r s
  answered (thrown e s) = done (failed e) s
  answered fault = fault

module _ {D : Type 0} (asserts : Bool) (io : Device D) (fuel : ℕ) where
  unfoldable pub run_insert : Eff (Instance D) Response
  unfolding begin_snapshot
  run_insert = do
    txn ← begin_snapshot
    ended ←
        run_local (record { child = false; table_info = none })
          (do
            insert_init asserts io fuel dummy_values users
            insert_next asserts io fuel dummy_values users (some txn) empty_batch)
    on_txns (commit_transaction txn)
    pure row_inserted

  -- `while (scan_exec.Next(&out)) { count++; }`
  unfoldable pub scan_all : ℕ → ℕ → TupleBatch → Eff (SeqScanExecutor × Instance D) ℕ
  scan_all zero count out s = fault
  scan_all (suc rounds) count out s = bind (scan_next asserts io fuel out s) λ found t.
      let rest = scan_all rounds (count + 1) found.1 t in if found.0 then rest else done count t

  -- A page has fewer than 2 ^ 16 slots, which bounds the rounds.
  unfoldable pub run_select : Eff (Instance D) Response
  unfolding begin_snapshot scan_all
  run_select = do
    txn ← begin_snapshot
    count ← run_local new_scan (do scan_init asserts io fuel users; scan_all 65537 0 empty_batch)
    on_txns (commit_transaction txn)
    pure (rows_selected count)

  unfoldable pub run_begin : Eff (Instance D) Response
  unfolding begin_snapshot
  run_begin = do txn ← begin_snapshot; pure (transaction_started txn)

  unfoldable pub run_query : List ℕ → Eff (Instance D) Response
  unfolding run_create run_insert run_select run_begin
  run_query query =
      if starts_with create_table_text query
      then run_create
      else if starts_with insert_text query
      then run_insert
      else if starts_with select_text query
      then run_select
      else if starts_with begin_text query
      then run_begin
      else pure unsupported

  unfoldable pub handle_query : List ℕ → Eff (Instance D) Response
  unfolding run_query
  handle_query query s = answered (run_query query s)

  -- The queries of a connection, one after the other.
  unfoldable pub handle_all : List (List ℕ) → Eff (Instance D) (List Response)
  unfolding handle_query
  handle_all [] = pure []
  handle_all (query ∷ queries) = do
    response ← handle_query query
    responses ← handle_all queries
    pure (response ∷ responses)
