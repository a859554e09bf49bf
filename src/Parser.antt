-- ===== src/Parser.antt =====
-- engine/parser: positions, the syntax tree and its bound form, the lexer, the parser and the
-- semantic check.
pub mod Span
pub mod Ast
pub mod BoundAst
pub mod Chars
pub mod Errors
pub mod Tokens
pub mod Keywords
pub mod Cursor
pub mod Scanner
pub mod Lexer
pub mod Kinds
pub mod Stream
pub mod Grammar
pub mod Reading
pub mod Sql
pub mod Semantic
mod Tests
