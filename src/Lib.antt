-- ===== src/Lib.antt =====
-- StingDB: a database server with a buffer pool over io_uring, slotted pages, transactions and a
-- catalog. The development models the storage and transaction layers, the catalog, the executors, the
-- server and its connections, and the planner's memo.
--
-- The parts and how they meet. A statement is bound against the catalog, which keeps the schema and
-- the first page of each table. Records lie in slotted pages, which the buffer pool brings from the
-- disk manager's file into frames and writes back before it reuses a frame. A transaction enters an
-- epoch, and logs its begin and its end through the log manager. The planner keeps equivalent plans in
-- groups of a memo, to which its rules add. A connection begins a transaction for a query and runs
-- executors, which look the table up in the catalog, read and write its page through the pool, and log
-- what they insert.
--
--   Base: comparisons, lists, tables, bytes of a buffer, and `Eff`, a call that returns, throws a
--     C++ exception, or is undefined (`fault`).
--   Storage.Page: src/common/config.h, src/storage/page/page.h.
--   Storage.SlottedPage: src/storage/table/slotted_page.h and slotted_page.cpp. Layout says what the
--     bytes of a page mean, Refine compares the code with a sheet, a list of records with a budget.
--     Race interleaves two insertions.
--   Storage.Disk: src/storage/disk/disk_manager.h and disk_manager.cpp. The file and the io_uring are
--     a parameter, the record `Device` of system calls; Disk.Serves names what is relied on of them.
--     Disk.Open is the constructor, over the system calls of the record `Kernel`.
--   Storage.BufferPool: src/storage/buffer_pool/buffer_pool_manager.h and buffer_pool_manager.cpp.
--     Contents says what a page holds, whether it is in the pool or only in the file.
--   Transaction.EpochManager, LogManager, TransactionManager: src/transaction/epoch_manager.h,
--     log_record.h with log_manager.h, and transaction.h with transaction_manager.h.
--   Catalog.Schema: src/catalog/column.h and schema.h. Catalog.CatalogManager: src/catalog/
--     table_info.h and catalog_manager.h, with src/sql/ast.h and src/sql/binder.h.
--   Planner.Memo, Rule and Optimizer: src/sql/planner/memo.h, rule.h and optimizer.h; `std::hash` is a
--     parameter. Sql.Lexer: src/sql/parser/lexer.h.
--   Common.ArenaAllocator: src/common/memory/arena_allocator.h. The blocks that `new` gives are a
--     parameter; ArenaAllocator.Apart names what is relied on of them.
--   Storage.BPlusTree: src/storage/index/b_plus_tree.h and b_plus_tree.cpp, with the readers of the
--     latches beside the pool. Node is the header of a node in its bytes, Header the record it
--     stands for, Search the search of a leaf, and Endless that of an inner page.
--   Execution: Instance is src/system/instance.h with src/execution/executor_context.h and what
--     src/main.cpp makes. Vector, TupleBatch, Executor, InsertExecutor and SeqScanExecutor are the
--     files of src/execution of that name; an executor has its own state beside the instance. Listed,
--     Blank, Ledger, Rows, Working and Stored say what catalog, pool, transactions and page look like
--     during a statement.
--   Network.Connection: the answer to a query in src/network/connection.h, with its text. Server is
--     what a connection promises, Shown and Served relate it to the instance. Network.Session: the
--     reads and writes of a connection there. Network.Reactor: src/network/server.h, as the handlers
--     that an event loop calls in any order. Sessions is what the clients see, Held and Serves relate
--     it to the connections, and Clients is the view of one of them.
--   Main: src/main.cpp with the constructor and Run of src/network/server.h, from the file and the
--     ring to the event loop. Steps has what may throw on the way beside the disk manager, as a
--     parameter: the record `Host` says of each step whether it returns.
--   Tests: a device in memory that meets `Serves`, and runs on concrete states.
--
-- Numbers are natural numbers, reduced modulo 2 ^ w where the source's type has w bits and the value
-- can leave it. A pointer into an array or a map is the index of its entry. A method that locks a
-- mutex from its start to its end is one step; the operations on the atomics of the epoch manager are
-- taken one at a time. The page bytes of a frame are its own, and a write that was submitted carries
-- the bytes of its submission, so a page that is changed while its write is in flight is outside the
-- model; a page that is evicted is not, since the pool waits.
--
-- Fuel: `reap` and `await_completion` run on fuel, since they end only as the kernel completes
-- writes. `Serves` bounds the completions in flight and the polls until the next one by the fuel, which
-- is then enough. The scan of SELECT has 65537 rounds, one
-- more than there are slot numbers of 16 bits. The descent of the B+ tree has a number of rounds as an
-- argument. Every other loop is structural.
--
-- The sockets and the event loop are a library, which is taken to call a handler back only for an
-- operation that was begun, with at most the bytes that were asked for. The worker threads are taken to
-- run one handler at a time, so that a query is answered before the next is handled; the order of the
-- handlers is any.
--
-- Not modelled: the threads of the server and how they meet inside a handler; the tokens of the SQL
-- lexer and its parser, which have no code; the writer's side of the latch of a page, which nothing
-- takes; loads into vector registers; messages on the console; the destructors but that of the B+
-- tree's search context, since the event loop does not end; exceptions of memory that is not there
-- behind the start of the event loop, and of a vector with a capacity that `reserve` refuses. The log manager's buffers are kept with
-- their sizes, as the source copies no record into them.
pub mod Base
pub mod Common
pub mod Storage
pub mod Transaction
pub mod Catalog
pub mod Sql
pub mod Planner
pub mod Execution
pub mod Network
pub mod Main
mod Tests
