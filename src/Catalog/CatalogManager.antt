-- ===== src/Catalog/CatalogManager.antt =====
-- src/catalog/table_info.h, src/catalog/catalog_manager.h, src/sql/ast.h and src/sql/binder.h. Each
-- call holds the latch from its start to its end.
pub mod Tables
use native.Mathlib.Decide.{ℕ_discrete}
use stingdb.Base.{ℕ, ◌+◌, ◌%◌, ◌^◌, Bool, List, [], ◌∷◌, Option, none, some}
use stingdb.Base.Effect.{
  Outcome, Eff, done, thrown, fault, table_exists, out_of_range, unsupported_statement, bind, ◌>>=◌,
  pure,
}
use stingdb.Base.Table.{find, insert}
use stingdb.Storage.Page.{invalid_page_id}
use stingdb.Catalog.Schema.{Name, name_discrete, Column, Schema, create_schema}

pub record TableInfo : Type 0 where
  pub id : ℕ
  pub name : Name
  pub schema : Schema
  pub first_page_id : ℕ

unfoldable pub update_first_page_id : ℕ → TableInfo → TableInfo
update_first_page_id root t = record t { first_page_id = root }

-- A `TableInfo*` is the number of an entry of `tables`.
pub record CatalogManager : Type 0 where
  pub next_table_id : ℕ
  pub tables : List (ℕ × TableInfo)
  pub table_names : List (Name × ℕ)

unfoldable pub create : CatalogManager
create = record { next_table_id = 0; tables = []; table_names = [] }

-- `emplace`, which leaves a number alone that is there; the table is then freed while it is returned.
unfoldable pub emplace : ℕ → TableInfo → List (ℕ × TableInfo) → Option (List (ℕ × TableInfo))
emplace id t tables = elim (find ℕ_discrete id tables) [
  | none ↦ some (insert ℕ_discrete id t tables)
  | some _ ↦ none
]

unfoldable pub add_table : Name → Schema → ℕ → Eff CatalogManager ℕ
add_table table_name schema first_page m =
    let new_id = m.next_table_id in
    let info : TableInfo = record {
      id = new_id;
      name = table_name;
      schema = schema;
      first_page_id = first_page;
    } in
    elim (emplace new_id info m.tables) [
      | none ↦ fault
      | some tables ↦ done new_id (record {
        next_table_id = (new_id + 1) % 2 ^ 32;
        tables = tables;
        table_names = insert name_discrete table_name new_id m.table_names;
      })
    ]

unfoldable pub create_table : Name → Schema → ℕ → Eff CatalogManager ℕ
create_table table_name schema first_page m = elim (find name_discrete table_name m.table_names) [
  | some _ ↦ thrown table_exists m
  | none ↦ add_table table_name schema first_page m
]

-- By name; `none` is `nullptr`.
unfoldable pub get_table_named : Name → Eff CatalogManager (Option ℕ)
get_table_named table_name m = elim (find name_discrete table_name m.table_names) [
  | none ↦ done none m
  | some id ↦ elim (find ℕ_discrete id m.tables) [
    | none ↦ thrown out_of_range m
    | some _ ↦ done (some id) m
  ]
]

unfoldable pub get_table : ℕ → Eff CatalogManager (Option ℕ)
get_table table_id m = elim (find ℕ_discrete table_id m.tables) [
  | none ↦ done none m
  | some _ ↦ done (some table_id) m
]

-- The statements of the abstract syntax; only the first has fields.
pub data Statement : Type 0 where
  create_statement : Name → List Column → Statement
  insert_statement select_statement : Statement

-- `BindCreateTable`
unfoldable pub bind_create_table : Name → List Column → Eff CatalogManager (Unit {0})
bind_create_table table_name columns m =
    bind (create_table table_name (create_schema columns) invalid_page_id m) (λ _. done tt)

unfoldable pub bind_statement : Statement → Eff CatalogManager (Unit {0})
bind_statement (create_statement table_name columns) m = bind_create_table table_name columns m
bind_statement insert_statement m = thrown unsupported_statement m
bind_statement select_statement m = thrown unsupported_statement m
