-- ===== src/Parser.antt =====
-- internal/parser/parser.go: the recursive descent parser with precedence climbing.
pub mod State
pub mod Spans
pub mod Expr
pub mod Lines
pub mod Decls
