-- ===== src/Execution.antt =====
-- The executors, and the instance of the server that they run on.
pub mod Instance
pub mod Listed
pub mod Blank
pub mod Ledger
pub mod Rows
pub mod Working
pub mod Stored
pub mod Vector
pub mod TupleBatch
pub mod Executor
pub mod InsertExecutor
pub mod SeqScanExecutor
