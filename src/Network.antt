-- ===== src/Network.antt =====
-- The network layer: what a connection makes of a query, its reads and writes, and the server's handlers.
pub mod Connection
pub mod Session
pub mod Reactor
