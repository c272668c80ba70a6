-- ===== src/Execution/Listed.antt =====
-- A catalog under executors: the table that they look up by name.
use native.Mathlib.Decide.{ℕ_discrete}
use stingdb.Base.{ℕ, ◌+◌, ◌%◌, ◌^◌, ◌≡◌, refl, List, none, some}
use stingdb.Base.Effect.{done, thrown, table_exists}
use stingdb.Base.Table.{find, insert, find-insert_self}
use stingdb.Storage.Page.{invalid_page_id}
use stingdb.Catalog.Schema.{Name, name_discrete, Column, create_schema}
use stingdb.Catalog.CatalogManager.{
  CatalogManager, TableInfo, emplace, add_table, create_table, get_table_named,
  update_first_page_id, bind_statement, bind_create_table, create_statement,
}
use stingdb.Execution.Instance.{table_at, set_first_page}

module _ (n : Name) (size : ℕ) where
  -- There is no table yet.
  pub record IsUnlisted (c : CatalogManager) : Type 0 where
    pub no_name : find name_discrete n c.table_names ≡ none
    pub no_table : find ℕ_discrete c.next_table_id c.tables ≡ none

  -- Table `table` has the name, rows of `size` bytes and the first page `page`.
  pub record IsListed (table page : ℕ) (c : CatalogManager) : Type 0 where
    pub named : find name_discrete n c.table_names ≡ some table
    pub info : TableInfo
    pub there : find ℕ_discrete table c.tables ≡ some info
    pub sized : info.schema.tuple_fixed_size ≡ size
    pub at_page : info.first_page_id ≡ page

  pub get_table_named-IsUnlisted :
      (c : CatalogManager) → IsUnlisted c → get_table_named n c ≡ done none c
  unfolding get_table_named
  get_table_named-IsUnlisted c h = rw (h.no_name, get_table_named) refl

  module _ (table page : ℕ) (c : CatalogManager) (h : IsListed table page c) where
    pub get_table_named-IsListed : get_table_named n c ≡ done (some table) c
    unfolding get_table_named
    get_table_named-IsListed = rw (h.named, get_table_named, h.there) refl

    pub table_at-IsListed : table_at table c ≡ done h.info c
    unfolding table_at
    table_at-IsListed = rw (h.there, table_at) refl

    pub set_first_page-IsListed :
        (root : ℕ)
        → (c' : CatalogManager) × (set_first_page table root c ≡ done tt c')
          × IsListed table root c'
    unfolding set_first_page update_first_page_id
    set_first_page-IsListed root =
        let new : TableInfo = update_first_page_id root h.info in
        (
          record c { tables = insert ℕ_discrete table new c.tables },
          rw (h.there, set_first_page) refl,
          record {
            named = h.named;
            info = new;
            there = find-insert_self ℕ_discrete table new c.tables;
            sized = h.sized;
            at_page = refl;
          },
        )

    pub bind_statement-IsListed :
        (cols : List Column) → bind_statement (create_statement n cols) c ≡ thrown table_exists c
    unfolding bind_statement bind_create_table create_table
    bind_statement-IsListed cols = rw (h.named, create_table) refl

  pub bind_statement-IsUnlisted :
      (c : CatalogManager)
      → IsUnlisted c
      → (cols : List Column) → (create_schema cols).tuple_fixed_size ≡ size
      → (table : ℕ) × (c' : CatalogManager) × (bind_statement (create_statement n cols) c
          ≡ done tt c')
        × IsListed table invalid_page_id c'
  unfolding bind_statement bind_create_table create_table add_table emplace
  bind_statement-IsUnlisted c h cols sized =
      let new : TableInfo = record {
        id = c.next_table_id;
        name = n;
        schema = create_schema cols;
        first_page_id = invalid_page_id;
      } in
      (
        c.next_table_id,
        record {
          next_table_id = (c.next_table_id + 1) % 2 ^ 32;
          tables = insert ℕ_discrete c.next_table_id new c.tables;
          table_names = insert name_discrete n c.next_table_id c.table_names;
        },
        rw (h.no_name, create_table, h.no_table, emplace, add_table) refl,
        record {
          named = find-insert_self name_discrete n c.next_table_id c.table_names;
          info = new;
          there = find-insert_self ℕ_discrete c.next_table_id new c.tables;
          sized = sized;
          at_page = refl;
        },
      )
