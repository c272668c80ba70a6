-- ===== src/Execution/InsertExecutor/Logged.antt =====
-- The number of an insertion in the log, in its transaction and on its page.
use native.Mathlib.Decide.{ℕ_discrete}
use stingdb.Base.{ℕ, ◌+◌, ◌%◌, ◌^◌, ◌≡◌, ◌≢◌, refl, sym, ◌∙◌, ap, some, List, arith, subst}
use stingdb.Base.Bytes.{decode, load}
use stingdb.Base.Effect.{Outcome, done, thrown, fault}
use stingdb.Base.Table.{find, insert, find-insert_self, find-insert_ne}
use stingdb.Storage.Page.{Page, copy_from}
use stingdb.Storage.BufferPool.Held.{on_frame-Held}
use stingdb.Storage.SlottedPage.{Rid, get_lsn, set_lsn}
use stingdb.Transaction.LogManager
use stingdb.Transaction.LogManager.{LogRecord, LogManager, tuple_record, append_log_record}
use stingdb.Transaction.TransactionManager.{Transaction, TransactionManager, append_write_set}
use stingdb.Execution.Instance.{Instance, txn_at, extend_write_set, append_log}
use stingdb.Execution.Ledger.{lsn-append_log_record, next_lsn-append_log_record}
use stingdb.Execution.Rows.{HasRows, set_lsn-HasRows, get_lsn-done}
use stingdb.Execution.Working.{Working, page, page-HasRows, on_frame-Working}
use stingdb.Execution.InsertExecutor.{log_insert}

-- The LSN is in the bytes.
same_lsn :
    (p q : Page) (lsn : ℕ) → q.bytes ≡ p.bytes → get_lsn p ≡ done lsn p → get_lsn q ≡ done lsn q
unfolding get_lsn copy_from
same_lsn p q lsn same h =
    ap (λ (k : ℕ). done k q) (ap (λ b. decode (load b 0 8)) same ∙ ap answer h)
  where
    answer : Outcome Page ℕ → ℕ
    answer (done k t) = k
    answer (thrown e t) = 0
    answer fault = 0

module _ {D : Type 0} (q f n rows next id : ℕ) (s : Instance D) (w : Working q f n rows next id s)
    (rid : Rid) (tuple : List ℕ) where
  -- What the log entry of an insertion leaves behind.
  pub record IsLogged (t : Instance D) : Type 0 where
    pub on_page : get_lsn (t.pool.frames f) ≡ done s.txns.log_manager.next_lsn (t.pool.frames f)
    pub txn : Transaction
    pub before : find ℕ_discrete id s.txns.txn_map ≡ some txn
    pub in_write_set :
        find ℕ_discrete id t.txns.txn_map ≡ some (append_write_set s.txns.log_manager.next_lsn txn)
    pub others :
        (j : ℕ) → j ≢ id → find ℕ_discrete j t.txns.txn_map ≡ find ℕ_discrete j s.txns.txn_map
    pub page_lsn : ℕ
    pub was_on_page : get_lsn (s.pool.frames f) ≡ done page_lsn (s.pool.frames f)
    pub in_log :
        t.txns.log_manager
        ≡ (append_log_record
            (tuple_record txn.txn_id page_lsn LogManager.insert rid tuple)
            s.txns.log_manager).1
    pub numbered : t.txns.log_manager.next_lsn ≡ (s.txns.log_manager.next_lsn + 1) % 2 ^ 64
    pub rows_kept : HasRows (t.pool.frames f).bytes rows
    pub catalog_kept : t.catalog ≡ s.catalog

  -- `AppendWriteSet` through the pointer.
  extended :
      (m : TransactionManager) (lsn : ℕ) (txn : Transaction)
      → find ℕ_discrete id m.txn_map ≡ some txn
      → extend_write_set id lsn m
        ≡ done tt (record m { txn_map = insert ℕ_discrete id (append_write_set lsn txn) m.txn_map })
  unfolding extend_write_set
  extended m lsn txn there = rw (there, extend_write_set) refl

  found :
      (txn : Transaction)
      → find ℕ_discrete id s.txns.txn_map ≡ some txn
      → txn_at id s.txns ≡ done txn s.txns
  unfolding txn_at
  found txn there = rw (there, txn_at) refl

  -- The insertion of a row into a page of the pool, by a transaction that has not ended, is logged under
  -- the next number of the log: the log is then what appending the insertion's record leaves, with the
  -- transaction's number, the page's LSN so far, the row's place and its bytes, and its next number is
  -- one more, modulo 2 ^ 64. The page carries the record's number as its LSN, and it is the last in the
  -- transaction's write set. The page's rows, the catalog and the other transactions stay as they are.
  pub log_insert-IsLogged :
      (t : Instance D) × (log_insert (some id) (some f) rid tuple s ≡ done tt t) × IsLogged t
  unfolding log_insert append_log
  log_insert-IsLogged =
      let (txn, there, now) = w.is_open in
      let (page_lsn, read) = get_lsn-done (page w) in
      let (pool1, e2, w1) =
        on_frame-Working w get_lsn page_lsn (page w) rows read (page-HasRows w) refl refl in
      let r : LogRecord = tuple_record txn.txn_id page_lsn LogManager.insert rid tuple in
      let logged : ℕ × LogManager = append_log_record r s.txns.log_manager in
      let m : TransactionManager = record (s.txns) { log_manager = logged.1 } in
      let (number, _) = lsn-append_log_record r s.txns.log_manager in
      let (p, set, has, same_id, same_pins, read_back) =
        set_lsn-HasRows (page w1) rows (page-HasRows w1) logged.0
          (omega (arith, number, w.ledger.numbered)) in
      let (pool2, e5, held) =
        on_frame-Held q f n w1.bytes pool1 w1.held (set_lsn logged.0) tt p set same_id same_pins in
      (
        record s {
          pool = pool2;
          txns = record m {
            txn_map = insert ℕ_discrete id (append_write_set logged.0 txn) s.txns.txn_map;
          };
        },
        rw (found txn there, e2, extended m logged.0 txn there, e5) refl,
        record {
          on_page =
              subst (λ k. get_lsn (pool2.frames f) ≡ done k (pool2.frames f)) number
                (same_lsn p (pool2.frames f) logged.0 held.holds read_back);
          txn = txn;
          before = there;
          in_write_set =
              find-insert_self ℕ_discrete id (append_write_set logged.0 txn) s.txns.txn_map
              ∙ ap (λ (k : ℕ). some (append_write_set k txn)) number;
          others = λ j ne.
              find-insert_ne ℕ_discrete id j (append_write_set logged.0 txn) s.txns.txn_map ne;
          page_lsn = page_lsn;
          was_on_page = read;
          in_log = refl;
          numbered = next_lsn-append_log_record r s.txns.log_manager;
          rows_kept = subst (λ b. HasRows b rows) (sym held.holds) has;
          catalog_kept = refl;
        },
      )
