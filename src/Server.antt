-- ===== src/Server.antt =====
-- server/: connections and transactions.
pub mod Transaction
pub mod Worker
pub mod Connection
pub mod Stream
pub mod Startup
pub mod Tests
