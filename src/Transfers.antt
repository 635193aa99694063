-- ===== src/Transfers.antt =====
-- The transfers of workspaces between the server and a runner: packages/runnerprotocol/transfer.go,
-- the server's end in apps/server/internal/runner/transfer.go, and the runner's end in
-- apps/agent-runner/internal/server/transfer.go.
pub mod Protocol
pub mod Send
pub mod Connection
pub mod Runner
pub mod Bounds
