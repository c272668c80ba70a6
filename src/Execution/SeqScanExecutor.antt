-- ===== src/Execution/SeqScanExecutor.antt =====
-- src/execution/seq_scan_executor.h. `asserts`, `io` and `fuel` are those of the buffer pool.
pub mod Scanned
use stingdb.Base.{
  ℕ, zero, suc, ◌+◌, ◌%◌, ◌^◌, Bool, true, false, Option, none, some, ◌==◌, leb, if◌then◌else◌,
}
use stingdb.Base.Effect.{
  Eff, Outcome, done, thrown, fault, table_not_found, pure, throw, bind, ◌>>=◌, ◌>>◌, get_state,
  put_state, within,
}
use stingdb.Storage.Page.{invalid_page_id}
use stingdb.Storage.SlottedPage.{Rid, get_tuple_count, get_tuple}
use stingdb.Storage.Disk.{Device}
use stingdb.Storage.BufferPool.{fetch_page, unpin_page}
use stingdb.Catalog.Schema.{Name}
use stingdb.Catalog.CatalogManager.{TableInfo, get_table_named}
use stingdb.Execution.Instance.{Instance, on_pool, on_catalog, on_page, table_at}
use stingdb.Execution.TupleBatch.{TupleBatch}
use stingdb.Execution.Executor.{ExecutionOperator, on_server}

pub record SeqScanExecutor : Type 0 where
  pub table_info : Option ℕ
  pub current_page_id : ℕ
  pub current_slot : ℕ

abbrev pub new_scan : SeqScanExecutor
new_scan = record { table_info = none; current_page_id = invalid_page_id; current_slot = 0 }

module _ {D : Type 0} (asserts : Bool) (io : Device D) (fuel : ℕ) where
  unfoldable pub scan_table : Option ℕ → Eff (SeqScanExecutor × Instance D) (Unit {0})
  scan_table none = throw table_not_found
  scan_table (some table) = do
    info ← on_server (on_catalog (table_at table))
    s ← get_state
    put_state (record (s.0) { current_page_id = info.first_page_id; current_slot = 0 }, s.1)

  unfoldable pub scan_init : Name → Eff (SeqScanExecutor × Instance D) (Unit {0})
  unfolding scan_table
  scan_init table_name = do
    found ← on_server (on_catalog (get_table_named table_name))
    s ← get_state
    put_state (record (s.0) { table_info = found }, s.1)
    scan_table found

  -- The row behind the slot is read and dropped; `more` says whether there was a slot.
  unfoldable pub scan_slot : ℕ → ℕ → Option ℕ → Eff (Instance D) Bool
  scan_slot page_id slot none = pure false
  scan_slot page_id slot (some f) = do
    count ← on_page (some f) get_tuple_count
    if leb count slot
        then (do unpinned ← on_pool (unpin_page asserts page_id false); pure false)
        else (do
          tuple ← on_page (some f) (get_tuple (record { page_id = page_id; slot_num = slot }))
          unpinned ← on_pool (unpin_page asserts page_id false)
          pure true)

  unfoldable pub scan_page : ℕ → ℕ → Eff (Instance D) Bool
  unfolding scan_slot
  scan_page page_id slot = do
    raw_page ← on_pool (fetch_page io fuel page_id)
    scan_slot page_id slot raw_page

  -- `current_slot_++`, done where a row is returned.
  abbrev pub advance : Bool → SeqScanExecutor → SeqScanExecutor
  advance more e = if more then record e { current_slot = (e.current_slot + 1) % 2 ^ 32 } else e

  unfoldable pub scan_next : TupleBatch → Eff (SeqScanExecutor × Instance D) (Bool × TupleBatch)
  unfolding scan_page
  scan_next batch_out s = elim s.0.table_info [
    | none ↦ done (false, batch_out) s
    | some _ ↦
        if s.0.current_page_id == invalid_page_id
        then done (false, batch_out) s
        else bind (on_server (scan_page s.0.current_page_id s.0.current_slot) s)
            λ more t. done (more, batch_out) (advance more (t.0), t.1)
  ]

  abbrev pub seq_scan_executor : Name → ExecutionOperator (Instance D) SeqScanExecutor
  seq_scan_executor table_name = record { init = scan_init table_name; next = scan_next }
