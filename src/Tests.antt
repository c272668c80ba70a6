-- ===== src/Tests.antt =====
-- Concrete runs of the modelled code.
mod Device
mod OnePage
mod Pages
mod Pool
mod Transactions
mod Tables
mod Plans
mod Serving
mod Loop
mod Startup
mod Answers
mod Logging
mod Trees
mod Circle
mod Memory
mod Heap
