-- ===== src/Execution/InsertExecutor/Statement.antt =====
-- The insertion of a batch of rows into a table.
use stingdb.Base.{ℕ, ◌≡◌, refl, sym, subst, inl, inr, Bool, true, some, arith}
use stingdb.Base.Effect.{Outcome, done}
use stingdb.Storage.Disk.{Device}
use stingdb.Storage.BufferPool.{BufferPool, unpin_page}
use stingdb.Catalog.Schema.{Name}
use stingdb.Execution.Instance.{Instance}
use stingdb.Storage.BufferPool.Held.{unpin_page-Held}
use stingdb.Execution.Listed.{table_at-IsListed, IsListed}
use stingdb.Execution.Ledger.{Ledger, IsOpen}
use stingdb.Execution.Rows.{row}
use stingdb.Execution.Stored.{HasTable, IsOpened, open_table-IsNew, open_table-IsStored}
use stingdb.Execution.InsertExecutor.{insert_batch, insert_rows, open_table}
use stingdb.Execution.InsertExecutor.Inserted.{added, insert_rows-Working}

module _ {D : Type 0} (n : Name) (table rows next id : ℕ) (s : Instance D)
    (ledger : Ledger next s.txns) (is_open : IsOpen id s.txns) (asserts : Bool) (io : Device D)
    (fuel num_rows : ℕ) where
  -- What the batch leaves behind.
  abbrev pub HasBatch : Outcome (Instance D) (Unit {0}) → Type 0
  HasBatch out =
      (t : Instance D) × (out ≡ done tt t)
      × HasTable n table (added num_rows rows) t
      × Ledger next t.txns
      × IsOpen id t.txns

  insert_batch-parts :
      (page : ℕ) (listed : IsListed n 259 table page s.catalog) (q f : ℕ) (s1 s2 : Instance D)
      (pool : BufferPool D)
      → open_table asserts io fuel table listed.info s ≡ done (q, some f) s1
      → insert_rows (some id) (some f) row num_rows s1 ≡ done tt s2
      → unpin_page asserts q true s2.pool ≡ done true pool
      → insert_batch asserts io fuel (some id) table num_rows s
        ≡ done tt (record s2 { pool = pool })
  unfolding insert_batch
  insert_batch-parts page listed q f s1 s2 pool e1 e2 e3 =
      rw (table_at-IsListed n 259 table page s.catalog listed, e1, listed.sized, e2, e3) refl

  insert_batch-IsOpened :
      (page : ℕ) (listed : IsListed n 259 table page s.catalog)
      → IsOpened n table rows next id s ledger is_open asserts io fuel
          (open_table asserts io fuel table listed.info s)
      → HasBatch (insert_batch asserts io fuel (some id) table num_rows s)
  insert_batch-IsOpened page listed (q, f, s1, e1, w1, listed1, real) =
      let (s2, e2, w2, same) = insert_rows-Working q f 1 next id num_rows rows s1 w1 in
      let (pool3, e3, held3) =
        unpin_page-Held q f 0 w2.bytes s2.pool w2.held (omega arith) asserts true in
      (
        record s2 { pool = pool3 },
        insert_batch-parts page listed q f s1 s2 pool3 e1 e2 e3,
        inr (
          q,
          f,
          record {
            bytes = w2.bytes;
            listed = subst (IsListed n 259 table q) (sym same) listed1;
            held = held3;
            stored = w2.stored;
            real = real;
          },
        ),
        w2.ledger,
        w2.is_open,
      )

  -- On a table with rows of 259 bytes that lie in a page of the pool, or that has no page and no rows yet
  -- in a new pool, a batch of any number of rows adds as many as fit up to 31 and drops the others. The
  -- transaction stays active, and the next number and the table are as before.
  pub insert_batch-HasTable :
      HasTable n table rows s → HasBatch (insert_batch asserts io fuel (some id) table num_rows s)
  insert_batch-HasTable (inl h) =
      insert_batch-IsOpened _ h.listed
        (open_table-IsNew n table rows next id s ledger is_open asserts io fuel h)
  insert_batch-HasTable (inr (q, f, h)) =
      insert_batch-IsOpened q h.listed
        (open_table-IsStored n table rows next id s ledger is_open asserts io fuel q f h)
