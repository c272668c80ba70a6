-- ===== src/Execution/InsertExecutor/Inserted.antt =====
-- The insertion of rows into a table whose page is in the pool.
use stingdb.Base.{
  ℕ, ◌+◌, min, zero, suc, arith, subst, ◌∙◌, ◌≡◌, refl, inl, inr, none, some, ltb, Bool-cases,
  ltb→lt, ltb→le,
}
use stingdb.Base.Effect.{Outcome, done}
use stingdb.Storage.SlottedPage.{Rid, insert_tuple, get_lsn, set_lsn}
use stingdb.Transaction.LogManager
use stingdb.Transaction.LogManager.{tuple_record}
use stingdb.Execution.Instance.{Instance}
use stingdb.Execution.Ledger.{txn_at-IsOpen, append_log-Ledger, extend_write_set-Ledger}
use stingdb.Execution.Rows.{
  row, capacity, HasRows-le, insert_tuple-HasRows, insert_tuple-full, set_lsn-HasRows, get_lsn-done,
}
use stingdb.Execution.Working.{Working, page, page-HasRows, on_frame-Working}
use stingdb.Execution.InsertExecutor.{log_insert, insert_rows}

-- The rows of a page after `more` were offered to it.
abbrev pub added : ℕ → ℕ → ℕ
added more rows = min (rows + more) capacity

module _ {D : Type 0} (q f n rows next id : ℕ) (s : Instance D)
    (w : Working q f n rows next id s) where
  log_insert-Working :
      (rid : Rid)
      → (t : Instance D) × (log_insert (some id) (some f) rid row s ≡ done tt t)
        × Working q f n rows next id t
        × (t.catalog ≡ s.catalog)
  unfolding log_insert
  log_insert-Working rid =
      let (txn, e1) = txn_at-IsOpen id s.txns w.is_open in
      let (page_lsn, read) = get_lsn-done (page w) in
      let (pool1, e2, w1) =
        on_frame-Working w get_lsn page_lsn (page w) rows read (page-HasRows w) refl refl in
      let (lsn, txns1, e3, small, ledger1, open1) =
        append_log-Ledger next s.txns w.ledger id w.is_open
          (tuple_record txn.txn_id page_lsn LogManager.insert rid row) in
      let (txns2, e4, ledger2, open2) = extend_write_set-Ledger next txns1 ledger1 id lsn open1 in
      let s2 : Instance D = record s { pool = pool1; txns = txns2 } in
      let w2 : Working q f n rows next id s2 = record {
        bytes = w1.bytes;
        held = w1.held;
        stored = w1.stored;
        ledger = ledger2;
        is_open = open2;
      } in
      let (p, set, has, same_id, same_pins, _) =
        set_lsn-HasRows (page w2) rows (page-HasRows w2) lsn small in
      let (pool3, e5, w3) = on_frame-Working w2 (set_lsn lsn) tt p rows set has same_id same_pins in
      (record s2 { pool = pool3 }, rw (e1, e2, e3, e4, e5) refl, w3, refl)

module _ {D : Type 0} (q f n next id : ℕ) where
  -- What the rows that fit leave behind.
  abbrev pub HasMore : ℕ → Instance D → Outcome (Instance D) (Unit {0}) → Type 0
  HasMore rows s out =
      (t : Instance D) × (out ≡ done tt t) × Working q f n rows next id t × (t.catalog ≡ s.catalog)

  -- The rows go to the page and to the log, as long as there is room.
  pub insert_rows-Working :
      (num_rows rows : ℕ) (s : Instance D)
      → Working q f n rows next id s
      → HasMore (added num_rows rows) s (insert_rows (some id) (some f) row num_rows s)
  unfolding insert_rows
  insert_rows-Working zero rows s w =
      subst (λ k. HasMore k s (done tt s)) (omega (arith, HasRows-le w.bytes rows w.stored))
        (s, refl, w, refl)
  insert_rows-Working (suc num_rows) rows s w = elim (Bool-cases (ltb rows capacity)) [
    | inl room ↦
        let (p, put, has, same_id, same_pins) =
          insert_tuple-HasRows (page w) rows (page-HasRows w) (ltb→lt rows capacity room) in
        let (pool, e1, w1) =
          on_frame-Working w (insert_tuple row) _ p (rows + 1) put has same_id same_pins in
        let (t, e2, w2, same) =
          log_insert-Working q f n (rows + 1) next id (record s { pool = pool }) w1
            (record { page_id = (page w).page_id; slot_num = rows }) in
        let (u, e3, w3, same') = insert_rows-Working num_rows (rows + 1) t w2 in
        (
          u,
          rw (e1, e2, e3) refl,
          subst (λ k. Working q f n k next id u) (omega arith) w3,
          same' ∙ same,
        )
    | inr full ↦
        let (pool, e1, w1) =
          on_frame-Working w (insert_tuple row) none (page w) rows
            (insert_tuple-full (page w) rows (page-HasRows w) (ltb→le rows capacity full))
            (page-HasRows w) refl refl in
        (
          record s { pool = pool },
          rw e1 refl,
          subst (λ k. Working q f n k next id (record s { pool = pool }))
              (omega (arith, ltb→le rows capacity full, HasRows-le w.bytes rows w.stored)) w1,
          refl,
        )
  ]
