-- ===== src/Network/Connection/Shown.antt =====
-- What an instance shows of a server, before and after each statement.
use stingdb.Base.{
  ℕ, suc, ◌+◌, ◌^◌, ◌<◌, ◌≡◌, refl, sym, subst, inl, inr, Bool, Option, none, some, arith,
}
use stingdb.Base.Effect.{Outcome, done}
use stingdb.Base.Table.{find}
use stingdb.Transaction.LogManager
use stingdb.Storage.Page.{invalid_page_id}
use stingdb.Storage.Disk.{Device, DiskManager}
use stingdb.Storage.BufferPool
use stingdb.Storage.BufferPool.{BufferPool}
use stingdb.Transaction.TransactionManager.{snapshot_isolation, TransactionManager}
use stingdb.Catalog.Schema.{create_schema, set_offsets, create_column}
use stingdb.Catalog.CatalogManager
use stingdb.Execution.Instance.{Instance, create}
use stingdb.Execution.Listed.{IsUnlisted, bind_statement-IsListed, bind_statement-IsUnlisted}
use stingdb.Execution.Blank.{IsBlank, create-IsBlank}
use stingdb.Execution.Ledger.{Ledger, begin_transaction-Ledger}
use stingdb.Execution.Stored.{HasTable}
use stingdb.Network.Connection.{
  users, user_columns, Response, run_create, run_insert, run_select, run_begin, begin_snapshot,
  answered,
}
use stingdb.Network.Connection.Insert.{run_insert-HasTable, run_insert-IsUnlisted}
use stingdb.Network.Connection.Select.{run_select-HasTable, run_select-IsUnlisted}
use stingdb.Network.Connection.Server.{
  Server, create_table, insert, select, begin, reply, new_server,
}

abbrev pub ShowsTable : {D : Type 0} → Option ℕ → Instance D → Type 0
ShowsTable none s = IsUnlisted users 259 s.catalog × IsBlank s.pool
ShowsTable (some rows) s = (table : ℕ) × HasTable users table rows s

abbrev pub Shows : {D : Type 0} → Server → Instance D → Type 0
Shows server s = ShowsTable server.table s × Ledger server.next_txn s.txns

pub create-Shows :
    {D : Type 0} (size : ℕ) (disk : DiskManager D)
    → disk.next_page_id < 0xffff_ffff
    → Shows new_server (create (BufferPool.create (suc size) disk))
unfolding find CatalogManager.create LogManager.create
create-Shows size disk small = (
  (record { no_name = refl; no_table = refl }, create-IsBlank size disk small),
  record { at_next = refl; unused = λ id le. refl; numbered = omega arith },
)

module _ {D : Type 0} (asserts : Bool) (io : Device D) (fuel : ℕ) where
  -- A call that answers as the server does.
  abbrev pub Answers : Outcome (Instance D) Response → Response × Server → Type 0
  Answers out (response, server) =
      (t : Instance D) × (answered out ≡ done response t) × Shows server t

  pub run_create-reply :
      (table : Option ℕ) (next : ℕ) (s : Instance D)
      → Shows (record { table = table; next_txn = next }) s
      → Answers (run_create s) (reply create_table (record { table = table; next_txn = next }))
  unfolding run_create create_schema set_offsets create_column
  run_create-reply none next s ((none_yet, blank), ledger) =
      let (table, c, e, listed) =
        bind_statement-IsUnlisted users 259 s.catalog none_yet user_columns refl in
      (
        record s { catalog = c },
        rw e refl,
        ((table, inl (record { listed = listed; blank = blank; no_rows = refl })), ledger),
      )
  run_create-reply (some rows) next s ((table, inl h), ledger) = (
    s,
    rw (bind_statement-IsListed users 259 table invalid_page_id s.catalog h.listed user_columns)
        refl,
    ((table, inl h), ledger),
  )
  run_create-reply (some rows) next s ((table, inr (q, f, h)), ledger) = (
    s,
    rw (bind_statement-IsListed users 259 table q s.catalog h.listed user_columns) refl,
    ((table, inr (q, f, h)), ledger),
  )

  -- The pool and the catalog are as they were where there is no table.
  still_none :
      (s t : Instance D)
      → t.pool ≡ s.pool
      → t.catalog ≡ s.catalog
      → ShowsTable none s
      → ShowsTable none t
  still_none s t same_pool same_catalog (none_yet, blank) = (
    subst (IsUnlisted users 259) (sym same_catalog) none_yet,
    subst IsBlank (sym same_pool) blank,
  )

  pub run_insert-reply :
      (table : Option ℕ) (next : ℕ) (s : Instance D)
      → Shows (record { table = table; next_txn = next }) s
      → next + 1 < 2 ^ 64
      → Answers
          (run_insert asserts io fuel s)
          (reply insert (record { table = table; next_txn = next }))
  run_insert-reply none next s (nothing, ledger) small =
      let (t, e, same_pool, same_catalog, ledger', _) =
        run_insert-IsUnlisted next s ledger small asserts io fuel (nothing.0) in
      (t, rw e refl, (still_none s t same_pool same_catalog nothing, ledger'))
  run_insert-reply (some rows) next s ((table, has), ledger) small =
      let (t, e, has', ledger') =
        run_insert-HasTable next s ledger small asserts io fuel table rows has in
      (t, rw e refl, ((table, has'), ledger'))

  pub run_select-reply :
      (table : Option ℕ) (next : ℕ) (s : Instance D)
      → Shows (record { table = table; next_txn = next }) s
      → next + 1 < 2 ^ 64
      → Answers
          (run_select asserts io fuel s)
          (reply select (record { table = table; next_txn = next }))
  run_select-reply none next s (nothing, ledger) small =
      let (t, e, same_pool, same_catalog, ledger', _) =
        run_select-IsUnlisted next s ledger small asserts io fuel (nothing.0) in
      (t, rw e refl, (still_none s t same_pool same_catalog nothing, ledger'))
  run_select-reply (some rows) next s ((table, has), ledger) small =
      let (t, e, has', ledger') =
        run_select-HasTable next s ledger small asserts io fuel table rows has in
      (t, rw e refl, ((table, has'), ledger'))

  -- A transaction more is no change to the table.
  same_table :
      (table : Option ℕ) (s : Instance D) (m : TransactionManager)
      → ShowsTable table s
      → ShowsTable table (record s { txns = m })
  same_table none s m shows = shows
  same_table (some rows) s m shows = shows

  pub run_begin-reply :
      (server : Server) (s : Instance D)
      → Shows server s
      → server.next_txn + 1 < 2 ^ 64
      → Answers (run_begin asserts io fuel s) (reply begin server)
  unfolding run_begin begin_snapshot
  run_begin-reply server s (shows, ledger) small =
      let (m, e, ledger', _) =
        begin_transaction-Ledger server.next_txn s.txns ledger snapshot_isolation small in
      (record s { txns = m }, rw e refl, (same_table server.table s m shows, ledger'))
