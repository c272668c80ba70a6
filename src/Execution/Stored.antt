-- ===== src/Execution/Stored.antt =====
-- A table of an instance between two statements, and its page while one of them works on it.
use stingdb.Base.{ℕ, ◌≡◌, ◌≢◌, refl, ◌⊎◌, inl, inr, Bool, Option, some, arith, eq→==, ne→==}
use stingdb.Base.Bytes.{Bytes, zeros}
use stingdb.Base.Effect.{Outcome, done}
use stingdb.Storage.Page.{invalid_page_id}
use stingdb.Storage.Disk.{Device}
use stingdb.Storage.SlottedPage.{init}
use stingdb.Storage.BufferPool.{BufferPool}
use stingdb.Catalog.Schema.{Name}
use stingdb.Catalog.CatalogManager.{CatalogManager, get_table_named}
use stingdb.Execution.Instance.{Instance}
use stingdb.Storage.BufferPool.Held.{Held, on_frame-Held, fetch_page-Held}
use stingdb.Execution.Listed.{IsListed, set_first_page-IsListed, get_table_named-IsListed}
use stingdb.Execution.Blank.{IsBlank, new_page-Held}
use stingdb.Execution.Ledger.{Ledger, IsOpen}
use stingdb.Execution.Rows.{HasRows, init-HasRows}
use stingdb.Execution.Working.{Working}
use stingdb.Execution.InsertExecutor.{open_table}

module _ {D : Type 0} (n : Name) (table rows : ℕ) (pool : BufferPool D)
    (catalog : CatalogManager) where
  -- The table has a page, which no one uses at the moment.
  pub record IsStored (q f : ℕ) : Type 0 where
    pub bytes : Bytes
    pub listed : IsListed n 259 table q catalog
    pub held : Held q f 0 bytes pool
    pub stored : HasRows bytes rows
    pub real : q ≢ invalid_page_id

  -- The table is new, and so is the pool.
  pub record IsNew : Type 0 where
    pub listed : IsListed n 259 table invalid_page_id catalog
    pub blank : IsBlank pool
    pub no_rows : rows ≡ 0

abbrev pub HasTable : {D : Type 0} → Name → ℕ → ℕ → Instance D → Type 0
HasTable n table rows s =
    IsNew n table rows s.pool s.catalog
    ⊎ ((q : ℕ) × (f : ℕ) × IsStored n table rows s.pool s.catalog q f)

pub get_table_named-HasTable :
    {D : Type 0} (n : Name) (table rows : ℕ) (s : Instance D)
    → HasTable n table rows s
    → get_table_named n s.catalog ≡ done (some table) s.catalog
get_table_named-HasTable n table rows s (inl h) =
    get_table_named-IsListed n 259 table invalid_page_id s.catalog h.listed
get_table_named-HasTable n table rows s (inr (q, f, h)) =
    get_table_named-IsListed n 259 table q s.catalog h.listed

module _ {D : Type 0} (n : Name) (table rows next id : ℕ) (s : Instance D)
    (ledger : Ledger next s.txns) (is_open : IsOpen id s.txns) (asserts : Bool) (io : Device D)
    (fuel : ℕ) where
  -- The page of the table, pinned for a statement.
  abbrev pub IsOpened : Outcome (Instance D) (ℕ × Option ℕ) → Type 0
  IsOpened out =
      (q : ℕ) × (f : ℕ) × (t : Instance D) × (out ≡ done (q, some f) t)
      × Working q f 1 rows next id t
      × IsListed n 259 table q t.catalog
      × (q ≢ invalid_page_id)

  pub open_table-IsNew :
      (h : IsNew n table rows s.pool s.catalog)
      → IsOpened (open_table asserts io fuel table h.listed.info s)
  unfolding open_table
  open_table-IsNew h =
      let (q, f, pool1, e1, held1, real) = new_page-Held s.pool h.blank io fuel in
      let (c, e2, listed) =
        set_first_page-IsListed n 259 table invalid_page_id s.catalog h.listed q in
      let (p, e3, has, same_id, same_pins) = init-HasRows (pool1.frames f) in
      let (pool2, e4, held2) =
        on_frame-Held q f 1 zeros pool1 held1 init tt p e3 same_id same_pins in
      (
        q,
        f,
        record { pool = pool2; txns = s.txns; catalog = c },
        rw (eq→== h.listed.info.first_page_id invalid_page_id h.listed.at_page, e1, e2, e4) refl,
        record {
          bytes = p.bytes;
          held = held2;
          stored = rw (h.no_rows) has;
          ledger = ledger;
          is_open = is_open;
        },
        listed,
        real,
      )

  pub open_table-IsStored :
      (q f : ℕ) (h : IsStored n table rows s.pool s.catalog q f)
      → IsOpened (open_table asserts io fuel table h.listed.info s)
  unfolding open_table
  open_table-IsStored q f h =
      let (pool1, e1, held1) = fetch_page-Held q f 0 h.bytes s.pool h.held io fuel (omega arith) in
      (
        q,
        f,
        record s { pool = pool1 },
        rw (h.listed.at_page, ne→== q invalid_page_id h.real, e1) refl,
        record {
          bytes = h.bytes;
          held = held1;
          stored = h.stored;
          ledger = ledger;
          is_open = is_open;
        },
        h.listed,
        h.real,
      )
