-- ===== src/Sql/Lexer.antt =====
-- src/sql/parser/lexer.h: the characters of a query, one at a time. The functions that make tokens of
-- them are declared in the source, and defined nowhere.
use stingdb.Base.{ℕ, ◌+◌, List, none, some, get_elem?}
use stingdb.Base.Effect.{Eff, done, fault}

-- `query_` is a view of the bytes.
pub record Lexer : Type 0 where
  pub query : List ℕ
  pub pos : ℕ
  pub line : ℕ
  pub col : ℕ

-- The constructor.
unfoldable pub create_lexer : List ℕ → Lexer
create_lexer query = record { query = query; pos = 0; line = 1; col = 1 }

unfoldable pub peek_char : Lexer → ℕ
peek_char l = elim (get_elem? l.query l.pos) [ none ↦ 0 | some c ↦ c ]

-- A place outside the view is undefined.
unfoldable pub next_char : Eff Lexer ℕ
next_char l = elim (get_elem? l.query l.pos) [
  | none ↦ fault
  | some c ↦ done c (record l { pos = l.pos + 1; col = l.col + 1 })
]
