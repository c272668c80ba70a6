-- ===== src/Tests/Tables.antt =====
-- A small schema, and a catalog with its table.
use native.Mathlib.Decide.{ℕ_discrete}
use stingdb.Base.{◌+◌, ◌^◌, ◌<◌, ◌≤◌, ◌≡◌, ◌≢◌, refl, List, [], ◌∷◌, none, some, arith, get_elem?}
use stingdb.Base.Effect.{Ensures, table_exists}
use stingdb.Base.Table.{find}
use stingdb.Catalog.Schema.{
  Name, Column, integer, varchar, create_column, create_schema, set_offsets, default_length,
}
use stingdb.Catalog.Schema.Layout.{width, create_schema-apart}
use stingdb.Catalog.CatalogManager.{create, create_table, bind_statement, create_statement}
use stingdb.Catalog.CatalogManager.Tables.{
  IsValid, create-IsValid, lookup, made, create_table-lookup, Binds, IsRefused,
  bind_statement-lookup,
}

-- `id INTEGER` and `name VARCHAR`.
abbrev users : List Column
users = create_column (105 ∷ []) integer 0 ∷ create_column (110 ∷ []) varchar 0 ∷ []

abbrev id_column : Column
id_column = record { name = 105 ∷ []; type = integer; length = 4; offset = 0 }

abbrev name_column : Column
name_column = record { name = 110 ∷ []; type = varchar; length = 255; offset = 4 }

users-small : width users < 2 ^ 32
unfolding width create_column default_length
users-small = omega arith

first_column : get_elem? (create_schema users).columns 0 ≡ some id_column
unfolding create_schema create_column set_offsets default_length
first_column = refl

second_column : get_elem? (create_schema users).columns 1 ≡ some name_column
unfolding create_schema create_column set_offsets default_length
second_column = refl

create_schema-apart_example :
    (0 + 4 ≤ 4)
    × (4 + 255 ≤ (create_schema users).tuple_fixed_size)
    × ((create_schema users).tuple_fixed_size ≡ width users)
create_schema-apart_example =
    create_schema-apart users 0 1 id_column name_column users-small (omega arith) first_column
      second_column

first_number : create.next_table_id ≡ 0
unfolding create
first_number = refl

create_table-lookup_example :
    Ensures
      (create_table (117 ∷ []) (create_schema users) 3 create)
      (λ id m'.
        (lookup create (117 ∷ []) ≡ none)
        × IsValid m'
        × (lookup m' (117 ∷ [])
            ≡ some (made create create-IsValid (117 ∷ []) (create_schema users) 3))
        × (find ℕ_discrete id m'.tables
            ≡ some (made create create-IsValid (117 ∷ []) (create_schema users) 3))
        × ((k : Name) → k ≢ 117 ∷ [] → lookup m' k ≡ lookup create k))
      (λ e m'. (m' ≡ create) × (e ≡ table_exists) × (lookup create (117 ∷ []) ≢ none))
create_table-lookup_example =
    create_table-lookup create create-IsValid (117 ∷ []) (create_schema users) 3
      (omega (arith, first_number))

bind_statement-lookup_example :
    Ensures
      (bind_statement (create_statement (117 ∷ []) users) create)
      (λ _ m'. IsValid m' × Binds create m' (create_statement (117 ∷ []) users))
      (λ e m'. (m' ≡ create) × IsRefused create (create_statement (117 ∷ []) users) e)
bind_statement-lookup_example =
    bind_statement-lookup create create-IsValid (omega (arith, first_number))
      (create_statement (117 ∷ []) users)
