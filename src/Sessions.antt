-- ===== src/Sessions.antt =====
-- The sessions of the agent runner (apps/agent-runner/internal/session).
pub mod StreamBuffer
