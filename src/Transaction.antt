-- ===== src/Transaction.antt =====
-- Transactions: epochs, the write-ahead log, and their manager.
pub mod EpochManager
pub mod LogManager
pub mod TransactionManager
