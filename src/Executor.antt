-- ===== src/Executor.antt =====
-- engine/executor: what runs a statement against the tables and indexes of the native core.
pub mod Storage
pub mod Predicates
pub mod Dml
pub mod Deletes
mod Tests
