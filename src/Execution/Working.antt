-- ===== src/Execution/Working.antt =====
-- An instance in the middle of a statement on a table whose page is in the pool.
use stingdb.Base.{ℕ, ◌≡◌, sym, subst}
use stingdb.Base.Bytes.{Bytes}
use stingdb.Base.Effect.{Eff, done}
use stingdb.Storage.Page.{Page}
use stingdb.Storage.BufferPool.{BufferPool, on_frame}
use stingdb.Execution.Instance.{Instance}
use stingdb.Storage.BufferPool.Held.{Held, on_frame-Held}
use stingdb.Execution.Ledger.{Ledger, IsOpen}
use stingdb.Execution.Rows.{HasRows}

-- Page `q` with `rows` rows is in frame `f` with `n` pins; transaction `id` has not ended, and the
-- next one has number `next`.
pub record Working {D : Type 0} (q f n rows next id : ℕ) (s : Instance D) : Type 0 where
  pub bytes : Bytes
  pub held : Held q f n bytes s.pool
  pub stored : HasRows bytes rows
  pub ledger : Ledger next s.txns
  pub is_open : IsOpen id s.txns

module _ {D : Type 0} {q f n rows next id : ℕ} {s : Instance D}
    (w : Working q f n rows next id s) where
  abbrev pub page : Page
  page = s.pool.frames f

  pub page-HasRows : HasRows page.bytes rows
  page-HasRows = subst (λ b. HasRows b rows) (sym w.held.holds) w.stored

  -- A call on the page, which then has `rows'` rows.
  pub on_frame-Working :
      {A : Type 0} (m : Eff Page A) (a : A) (p : Page) (rows' : ℕ)
      → m page ≡ done a p
      → HasRows p.bytes rows'
      → p.page_id ≡ page.page_id
      → p.pin_count ≡ page.pin_count
      → (pool : BufferPool D) × (on_frame f m s.pool ≡ done a pool)
        × Working q f n rows' next id (record s { pool = pool })
  on_frame-Working m a p rows' call has same_id same_pins =
      let (pool, e, held) =
        on_frame-Held q f n w.bytes s.pool w.held m a p call same_id same_pins in
      (
        pool,
        e,
        record {
          bytes = p.bytes;
          held = held;
          stored = has;
          ledger = w.ledger;
          is_open = w.is_open;
        },
      )
