-- ===== src/Common.antt =====
-- Memory for queries: src/common/memory.
pub mod ArenaAllocator
