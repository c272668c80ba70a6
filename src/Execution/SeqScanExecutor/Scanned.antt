-- ===== src/Execution/SeqScanExecutor/Scanned.antt =====
-- A scan of a table whose page is in the pool.
use stingdb.Base.{
  ℕ, ◌+◌, ◌≤◌, ◌<◌, ◌≡◌, ◌≢◌, refl, ◌∙◌, ap, inl, inr, Bool, true, false, some, ltb, arith,
  Bool-cases, ltb→lt, ltb→le, ne→==, lt→leb, le→leb, lt→ltb, le→ltb,
}
use stingdb.Base.Effect.{Eff, done, within}
use stingdb.Storage.Page.{Page, invalid_page_id}
use stingdb.Storage.Disk.{Device}
use stingdb.Storage.SlottedPage.{get_tuple_count, get_tuple}
use stingdb.Storage.BufferPool.{unpin_page, on_frame}
use stingdb.Execution.Instance.{Instance}
use stingdb.Storage.BufferPool.Held.{fetch_page-Held, unpin_page-Held}
use stingdb.Execution.Rows.{HasRows-le, get_tuple_count-HasRows, get_tuple-HasRows}
use stingdb.Execution.Working.{Working, page, page-HasRows, on_frame-Working}
use stingdb.Execution.TupleBatch.{TupleBatch}
use stingdb.Execution.SeqScanExecutor.{SeqScanExecutor, scan_page, scan_slot, scan_next}

-- The scan of a table that reads slot `slot` of page `q` next.
abbrev pub at_slot : ℕ → ℕ → ℕ → SeqScanExecutor
at_slot table q slot = record { table_info = some table; current_page_id = q; current_slot = slot }

module _ {D : Type 0} (q f rows next id : ℕ) (asserts : Bool) (io : Device D) (fuel : ℕ) where
  -- A page that was only read.
  read_only :
      (n : ℕ) (s : Instance D) (w : Working q f n rows next id s) {A : Type 0} (m : Eff Page A)
      (a : A)
      → m (page w) ≡ done a (page w)
      → (t : Instance D) × (within s (λ p. record s { pool = p }) (on_frame f m s.pool) ≡ done a t)
        × Working q f n rows next id t
        × (t.catalog ≡ s.catalog)
  read_only n s w m a e =
      let (pool, call, w') = on_frame-Working w m a (page w) rows e (page-HasRows w) refl refl in
      (record s { pool = pool }, rw call refl, w', refl)

  unpinned :
      (s : Instance D) (w : Working q f 1 rows next id s)
      → (t : Instance D) × (within s
            (λ p. record s { pool = p })
            (unpin_page asserts q false s.pool)
          ≡ done true t)
        × Working q f 0 rows next id t
        × (t.catalog ≡ s.catalog)
  unpinned s w =
      let (pool, call, held) =
        unpin_page-Held q f 0 w.bytes s.pool w.held (omega arith) asserts false in
      (
        record s { pool = pool },
        rw call refl,
        record {
          bytes = w.bytes;
          held = held;
          stored = w.stored;
          ledger = w.ledger;
          is_open = w.is_open;
        },
        refl,
      )

  -- A look at a slot finds a row or the end, and gives the pin back.
  pub scan_page-Working :
      (slot : ℕ) (s : Instance D)
      → Working q f 0 rows next id s
      → (t : Instance D) × (scan_page asserts io fuel q slot s ≡ done (ltb slot rows) t)
        × Working q f 0 rows next id t
        × (t.catalog ≡ s.catalog)
  unfolding scan_page scan_slot
  scan_page-Working slot s w =
      let (pool1, e1, held1) = fetch_page-Held q f 0 w.bytes s.pool w.held io fuel (omega arith) in
      let w1 : Working q f 1 rows next id (record s { pool = pool1 }) = record {
        bytes = w.bytes;
        held = held1;
        stored = w.stored;
        ledger = w.ledger;
        is_open = w.is_open;
      } in
      let (s2, e2, w2, same2) =
        read_only 1 (record s { pool = pool1 }) w1 get_tuple_count rows
          (get_tuple_count-HasRows (page w1) rows (page-HasRows w1)) in
      let (tuple, read) =
        get_tuple-HasRows (page w2) rows (page-HasRows w2)
          (record { page_id = q; slot_num = slot }) in
      let (s3, e3, w3, same3) =
        read_only 1 s2 w2 (get_tuple (record { page_id = q; slot_num = slot })) tuple read in
      elim (Bool-cases (ltb slot rows)) [
        | inl more ↦
            let (t, e4, w4, same4) = unpinned s3 w3 in
            (
              t,
              rw (e1, e2, lt→leb rows slot (ltb→lt slot rows more), e3, e4, more) refl,
              w4,
              same4 ∙ same3 ∙ same2,
            )
        | inr end ↦
            let (t, e4, w4, same4) = unpinned s2 w2 in
            (
              t,
              rw (e1, e2, le→leb rows slot (ltb→le slot rows end), e4, end) refl,
              w4,
              same4 ∙ same2,
            )
      ]

  -- A call of `next`: it moves on over a row, and stays at the end.
  module _ (table slot : ℕ) (s : Instance D) (w : Working q f 0 rows next id s)
      (real : q ≢ invalid_page_id) (out : TupleBatch) where
    pub scan_next_more :
        slot < rows
        → (t : Instance D) × (scan_next asserts io fuel out (at_slot table q slot, s)
            ≡ done (true, out) (at_slot table q (slot + 1), t))
          × Working q f 0 rows next id t
          × (t.catalog ≡ s.catalog)
    unfolding scan_next
    scan_next_more more =
        let (t, e, w', same) = scan_page-Working slot s w in
        (
          t,
          rw (ne→== q invalid_page_id real, e, lt→ltb slot rows more)
              (ap (λ (k : ℕ). done (true, out) (at_slot table q k, t))
                (omega (arith, HasRows-le w.bytes rows w.stored))),
          w',
          same,
        )

    pub scan_next_end :
        rows ≤ slot
        → (t : Instance D) × (scan_next asserts io fuel out (at_slot table q slot, s)
            ≡ done (false, out) (at_slot table q slot, t))
          × Working q f 0 rows next id t
          × (t.catalog ≡ s.catalog)
    unfolding scan_next
    scan_next_end end =
        let (t, e, w', same) = scan_page-Working slot s w in
        (t, rw (ne→== q invalid_page_id real, e, le→ltb slot rows end) refl, w', same)
