-- ===== src/Parser/Reading.antt =====
-- engine/parser/parser.py: proofs on what the methods of `_Parser` read, by the part of the grammar.
pub mod Good
pub mod Rules
pub mod Names
pub mod Lists
pub mod Definitions
pub mod Wheres
pub mod Selects
pub mod Clauses
pub mod Statements
pub mod Script
pub mod Values
pub mod Agree
