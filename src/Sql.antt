-- ===== src/Sql.antt =====
-- The front end: src/sql/parser.
pub mod Lexer
