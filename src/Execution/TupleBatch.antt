-- ===== src/Execution/TupleBatch.antt =====
-- src/execution/tuple_batch.h. A column is a shared pointer, which may be null.
use stingdb.Base.{ℕ, List, [], ◌∷◌, ◌++◌, Option, none, some, length, get_elem?, replicate}
use stingdb.Base.Effect.{Eff, done, fault}

pub record TupleBatch : Type 0 where
  pub num_rows : ℕ
  pub columns : List (Option ℕ)

abbrev pub empty_batch : TupleBatch
empty_batch = record { num_rows = 0; columns = [] }

unfoldable pub create_batch : ℕ → TupleBatch
create_batch initial_columns = record { num_rows = 0; columns = replicate initial_columns none }

unfoldable pub add_column : Option ℕ → TupleBatch → TupleBatch
add_column column b = record b { columns = b.columns ++ column ∷ [] }

unfoldable pub set_num_rows : ℕ → TupleBatch → TupleBatch
set_num_rows rows b = record b { num_rows = rows }

unfoldable pub get_num_columns : TupleBatch → ℕ
get_num_columns b = length b.columns

unfoldable pub get_column : ℕ → Eff TupleBatch (Option ℕ)
get_column index b = elim (get_elem? b.columns index) [ none ↦ fault | some c ↦ done c b ]

unfoldable pub reset : TupleBatch → TupleBatch
reset b = record b { num_rows = 0 }
