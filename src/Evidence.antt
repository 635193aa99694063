-- ===== src/Evidence.antt =====
-- apps/server/internal/evidence: what subscribers see of the events of runs.
pub mod Hub
