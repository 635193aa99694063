-- ===== src/Store.antt =====
-- The server's store: rows, the database as tables, and transactions
-- (apps/server/internal/store, apps/server/internal/store/postgres).
pub mod Types
pub mod Tx
pub mod Rules
pub mod Keeps
pub mod Statements
pub mod Events
