-- ===== src/Catalog/Schema.antt =====
-- src/catalog/column.h and src/catalog/schema.h. A name is the list of its bytes.
pub mod Layout
pub mod Lookup
use native.Mathlib.Decide.{ℕ_discrete}
use mathlib.Core.List.{List-discrete}
use stingdb.Base.{
  ℕ, zero, suc, ◌+◌, ◌%◌, ◌^◌, Bool, List, [], ◌∷◌, Option, none, some, ◌==◌, if◌then◌else◌,
}
use stingdb.Base.Effect.{Outcome, Eff, done, thrown, column_not_found}

-- `TypeId` of src/execution/vector.h.
pub data TypeId : Type 0 where
  invalid boolean integer bigint float double varchar : TypeId

abbrev pub Name : Type 0
Name = List ℕ

abbrev pub name_discrete : Discrete Name
name_discrete = List-discrete ℕ_discrete

pub record Column : Type 0 where
  pub name : Name
  pub type : TypeId
  pub length : ℕ
  pub offset : ℕ

unfoldable pub default_length : TypeId → ℕ
default_length boolean = 1
default_length integer = 4
default_length bigint = 8
default_length double = 8
default_length float = 4
default_length varchar = 255
default_length invalid = 0

unfoldable pub create_column : Name → TypeId → ℕ → Column
create_column name type length = record {
  name = name;
  type = type;
  length = if length == 0 then default_length type else length;
  offset = 0;
}

pub record Schema : Type 0 where
  pub columns : List Column
  pub tuple_fixed_size : ℕ

-- The loop over the columns from `current_offset` on, and the offset behind the last.
unfoldable pub set_offsets : ℕ → List Column → List Column × ℕ
set_offsets current_offset [] = ([], current_offset)
set_offsets current_offset (col ∷ cols) =
    let (rest, last) = set_offsets ((current_offset + col.length) % 2 ^ 32) cols in
    (record col { offset = current_offset } ∷ rest, last)

unfoldable pub create_schema : List Column → Schema
create_schema columns =
    let (placed, size) = set_offsets 0 columns in
    record { columns = placed; tuple_fixed_size = size }

-- The loop from column `i` on.
unfoldable pub find_column : ℕ → List Column → Name → Option ℕ
find_column i [] col_name = none
find_column i (col ∷ cols) col_name =
    let rest = find_column (i + 1) cols col_name in
    elim (name_discrete col.name col_name) [ yes _ ↦ some i | no _ ↦ rest ]

unfoldable pub get_col_idx : Name → Eff Schema ℕ
get_col_idx col_name s = elim (find_column 0 s.columns col_name) [
  | none ↦ thrown column_not_found s
  | some i ↦ done i s
]
