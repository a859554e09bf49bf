-- ===== src/Parser/Grammar.antt =====
-- engine/parser/parser.py: the methods of `_Parser` by the part of the grammar that they read.
pub mod Dates
pub mod Literals
pub mod Tables
pub mod Conditions
pub mod Queries
pub mod Statements
