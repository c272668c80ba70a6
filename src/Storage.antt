-- ===== src/Storage.antt =====
-- The storage engine: src/storage.
pub mod Page
pub mod SlottedPage
pub mod Disk
pub mod BufferPool
pub mod BPlusTree
