-- ===== src/Transactions.antt =====
-- engine/transactions: table locks and transactions.
pub mod Locks
pub mod Manager
pub mod Transaction
pub mod Session
mod Tests
