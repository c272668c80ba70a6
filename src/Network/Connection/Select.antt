-- ===== src/Network/Connection/Select.antt =====
-- SELECT, from the transaction it begins to the transaction it commits.
use stingdb.Base.{
  ℕ, ◌+◌, ◌^◌, ◌<◌, ◌≡◌, ◌≢◌, refl, sym, ◌∙◌, ap, subst, inl, inr, Bool, some, arith, zero, suc,
}
use stingdb.Base.Effect.{done, thrown, table_not_found}
use stingdb.Storage.Page.{invalid_page_id}
use stingdb.Storage.Disk.{Device}
use stingdb.Transaction.TransactionManager.{
  snapshot_isolation, begin_transaction, commit_transaction, TransactionManager,
}
use stingdb.Catalog.CatalogManager.{TableInfo, get_table_named}
use stingdb.Execution.Instance.{Instance, table_at}
use stingdb.Execution.Listed.{IsListed, IsUnlisted, table_at-IsListed, get_table_named-IsUnlisted}
use stingdb.Execution.Ledger.{Ledger, IsOpen, begin_transaction-Ledger, commit_transaction-Ledger}
use stingdb.Execution.Rows.{HasRows-le}
use stingdb.Execution.Working.{Working}
use stingdb.Execution.Stored.{HasTable, get_table_named-HasTable}
use stingdb.Execution.TupleBatch.{TupleBatch, empty_batch}
use stingdb.Execution.SeqScanExecutor.{SeqScanExecutor, scan_init, scan_table, scan_next}
use stingdb.Execution.SeqScanExecutor.Scanned.{at_slot, scan_next_more, scan_next_end}
use stingdb.Network.Connection.{users, scan_all, run_select, rows_selected, begin_snapshot}

-- The loop counts the rows that are left and ends: one round more than there are rows is enough.
module _ {D : Type 0} (q f rows next id : ℕ) (asserts : Bool) (io : Device D) (fuel table : ℕ)
    (real : q ≢ invalid_page_id) (out : TupleBatch) (total : ℕ) where
  scan_all-Working :
      (rounds left slot count : ℕ) (s : Instance D)
      → left < rounds
      → slot + left ≡ rows
      → count + left ≡ total
      → Working q f 0 rows next id s
      → (t : Instance D) × (e : SeqScanExecutor) × (scan_all asserts io fuel rounds count out
            (at_slot table q slot, s)
          ≡ done total (e, t))
        × Working q f 0 rows next id t
        × (t.catalog ≡ s.catalog)
  unfolding scan_all
  scan_all-Working zero left slot count s enough sum all w = absurd (omega (arith, enough))
  scan_all-Working (suc rounds) zero slot count s enough sum all w =
      let (t, e, w', same) =
        scan_next_end q f rows next id asserts io fuel table slot s w real out
          (omega (arith, sum)) in
      (
        t,
        at_slot table q slot,
        rw e (ap (λ (k : ℕ). done k (at_slot table q slot, t)) (omega (arith, all))),
        w',
        same,
      )
  scan_all-Working (suc rounds) (suc left) slot count s enough sum all w =
      let (t, e, w1, same1) =
        scan_next_more q f rows next id asserts io fuel table slot s w real out
          (omega (arith, sum)) in
      let (u, x, rest, w2, same2) =
        scan_all-Working rounds left (slot + 1) (count + 1) t (omega (arith, enough))
          (omega (arith, sum)) (omega (arith, all)) w1 in
      (u, x, rw (e, rest) refl, w2, same2 ∙ same1)

-- A table without a page has no row.
scan_all-IsNew :
    {D : Type 0} (asserts : Bool) (io : Device D) (fuel table rounds : ℕ) (s : Instance D)
    → scan_all asserts io fuel (suc rounds) 0 empty_batch (at_slot table invalid_page_id 0, s)
      ≡ done 0 (at_slot table invalid_page_id 0, s)
unfolding scan_all scan_next
scan_all-IsNew asserts io fuel table rounds s = refl

module _ {D : Type 0} (next : ℕ) (s : Instance D) (ledger : Ledger next s.txns)
    (small : next + 1 < 2 ^ 64) (asserts : Bool) (io : Device D) (fuel : ℕ) where
  run_select-parts :
      (m1 m3 : TransactionManager) (table : ℕ) (info : TableInfo) (c : ℕ) (x : SeqScanExecutor)
      (t : Instance D)
      → begin_transaction snapshot_isolation s.txns ≡ (next, m1)
      → get_table_named users s.catalog ≡ done (some table) s.catalog
      → table_at table s.catalog ≡ done info s.catalog
      → scan_all asserts io fuel 65537 0 empty_batch
          (at_slot table info.first_page_id 0, record s { txns = m1 })
        ≡ done c (x, t)
      → commit_transaction next t.txns ≡ done tt m3
      → run_select asserts io fuel s ≡ done (rows_selected c) (record t { txns = m3 })
  unfolding run_select begin_snapshot scan_init scan_table
  run_select-parts m1 m3 table info c x t e1 e2 e3 e4 e5 = rw (e1, e2, e3, e4, e5) refl

  -- The rows are counted, and stay.
  pub run_select-HasTable :
      (table rows : ℕ)
      → HasTable users table rows s
      → (t : Instance D) × (run_select asserts io fuel s ≡ done (rows_selected rows) t)
        × HasTable users table rows t
        × Ledger (next + 1) t.txns
  run_select-HasTable table rows (inl h) =
      let (m1, e1, ledger1, open1) =
        begin_transaction-Ledger next s.txns ledger snapshot_isolation small in
      let (m3, e3, ledger3) = commit_transaction-Ledger (next + 1) m1 ledger1 next open1 in
      (
        record s { txns = m3 },
        run_select-parts m1 m3 table h.listed.info 0 _ (record s { txns = m1 }) e1
              (get_table_named-HasTable users table rows s (inl h))
              (table_at-IsListed users 259 table invalid_page_id s.catalog h.listed)
              (ap
                  (λ (k : ℕ).
                    scan_all asserts io fuel 65537 0 empty_batch
                      (at_slot table k 0, record s { txns = m1 }))
                  h.listed.at_page
                ∙ scan_all-IsNew asserts io fuel table 65536 (record s { txns = m1 }))
              e3
            ∙ ap (λ (k : ℕ). done (rows_selected k) (record s { txns = m3 })) (sym h.no_rows),
        inl h,
        ledger3,
      )
  run_select-HasTable table rows (inr (q, f, h)) =
      let (m1, e1, ledger1, open1) =
        begin_transaction-Ledger next s.txns ledger snapshot_isolation small in
      let (t2, x, e2, w2, same) =
        scan_all-Working q f rows (next + 1) next asserts io fuel table h.real empty_batch rows
          65537 rows 0 0 (record s { txns = m1 }) (omega (arith, HasRows-le h.bytes rows h.stored))
          (omega arith) (omega arith)
          (record {
            bytes = h.bytes;
            held = h.held;
            stored = h.stored;
            ledger = ledger1;
            is_open = open1;
          }) in
      let (m3, e3, ledger3) =
        commit_transaction-Ledger (next + 1) t2.txns w2.ledger next w2.is_open in
      (
        record t2 { txns = m3 },
        run_select-parts m1 m3 table h.listed.info rows x t2 e1
            (get_table_named-HasTable users table rows s (inr (q, f, h)))
            (table_at-IsListed users 259 table q s.catalog h.listed)
            (ap
                (λ (k : ℕ).
                  scan_all asserts io fuel 65537 0 empty_batch
                    (at_slot table k 0, record s { txns = m1 }))
                h.listed.at_page
              ∙ e2)
            e3,
        inr (
          q,
          f,
          record {
            bytes = w2.bytes;
            listed = subst (IsListed users 259 table q) (sym same) h.listed;
            held = w2.held;
            stored = w2.stored;
            real = h.real;
          },
        ),
        ledger3,
      )

  -- Without the table the transaction is begun and stays open.
  pub run_select-IsUnlisted :
      (none_yet : IsUnlisted users 259 s.catalog)
      → (t : Instance D) × (run_select asserts io fuel s ≡ thrown table_not_found t)
        × (t.pool ≡ s.pool)
        × (t.catalog ≡ s.catalog)
        × Ledger (next + 1) t.txns
        × IsOpen next t.txns
  unfolding run_select begin_snapshot scan_init scan_table
  run_select-IsUnlisted none_yet =
      let (m1, e1, ledger1, open1) =
        begin_transaction-Ledger next s.txns ledger snapshot_isolation small in
      (
        record s { txns = m1 },
        rw (e1, get_table_named-IsUnlisted users 259 s.catalog none_yet) refl,
        refl,
        refl,
        ledger1,
        open1,
      )
