-- ===== src/Issues.antt =====
-- apps/server/internal/store: what the store says of issues.
pub mod Keys
pub mod Routing
pub mod Board
