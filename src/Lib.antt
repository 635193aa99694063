-- ===== src/Lib.antt =====
-- agent-board: a board on which agents work on issues. The server keeps its state in PostgreSQL,
-- its coordinator admits queued runs and hands them to processors, and runners execute sessions.
--
-- What is modelled, paths from the repository's root:
--   Store/         apps/server/internal/store/types.go, packages/database/schema.sql and the SQL of
--                  apps/server/internal/store/postgres. A table is a list of rows; a transaction is
--                  a function from the database to an error, or to a result and the database that
--                  it leaves (`Store.Tx`), and `transact` is Begin, body, Commit or Rollback.
--                  `Store.Rules` and `Store.Keeps` are the rules by which invariants pass through it.
--   Scheduler/     apps/server/internal/store/postgres: scheduler.go, runner_admission.go,
--                  scheduler_operations.go, scheduler_transition.go, scheduler_reconciliation.go,
--                  scheduler_question_reconciliation.go, run_cancellation.go, delegation_result.go,
--                  delegation_parent_fence.go, interactive_question_terminal.go and the part of
--                  interactive_question_recovery.go that they call. A module per group of functions,
--                  under the functions' names; their theorems stand in the modules below. `Calls`
--                  is what callers may do, and histories of it; `Frame` is the interface that an
--                  invariant of histories fills (`Capacity` and `Ended` fill it).
--   Coordinator/   apps/server/internal/scheduler/coordinator.go: the settings, the registry of
--                  active runs, the slots of the loop, the decision at a worker's end. It asks the
--                  store of `Scheduler` for transitions.
--   Accounts/      apps/server/internal/store/postgres: auth.go, auth_management.go,
--                  project_access.go, groups.go, effective_role_sql.go; internal/app/auth.go and
--                  project_access.go. A database of its own (`AccountDb`) under the transactions of
--                  `Store.Tx`, which are generic in the database. `Calls` is what callers may do,
--                  `Frame` the interface that an invariant fills: `Admins`, `Versions` and
--                  `Rotation` fill it. `Roles` says what a role permits.
--   Transfers/     packages/runnerprotocol/transfer.go; `Connection` is the server's end,
--                  apps/server/internal/runner/transfer.go, `Runner` the runner's,
--                  apps/agent-runner/internal/server/transfer.go. The server's end reads messages
--                  until one is an error (readLoop of runner/client.go). base64 and SHA-256 are a parameter
--                  (`Encoding`), as are the link (`Link`) and what Git and the file system answer
--                  (`RunnerWorkspace`). Sessions are not blank.
--   Evidence/      apps/server/internal/evidence/hub.go: subscribers, their channels, publishing.
--                  `Hub.Selects` has the selects of a delivery one by one, among those of other
--                  publishers and of receivers; `publish` is a Publish that nothing interrupts.
--   Issues/        apps/server/internal/store: issuekey.go and issue_comment_routing.go; `Board` is
--                  postgres/board_order.go, and what core.go, issue_status.go and
--                  issue_mutation_tx.go do to the positions. `Board.Columns.column` is the order
--                  that a reader sees; whether the rest of a mutation goes through is a parameter.
--   Sessions/      apps/agent-runner/internal/session/stream_buffer.go.
--   Prelude/       lists, tables, texts and tests that these share. Examples/ holds a small board
--                  and runs on it.
--
-- Ids are numbers that stand for texts, 0 for the blank one; times are microseconds, and a duration
-- that is not positive is 0. Transactions run one after the other: the row locks that the code takes
-- (FOR UPDATE) are what makes that so, and a row that another transaction has locked, which SKIP
-- LOCKED passes over, is a parameter (`Env.is_locked`), as are the clock, fresh ids and the runners
-- that are connected. The loops of the code that are modelled are recursions over a list; the one
-- that cuts a payload into chunks has the length of what is left as its fuel, which is enough as
-- every chunk takes a byte or more. Positions on the board and token versions stay far below 2 ^ 63;
-- the increment of a version past it is an error of the driver (`update_user`).
--
-- Not modelled: HTTP and MCP handlers, engines, git and containers, the web application; what a
-- connection that ends tells its sessions; contexts that end while a call of the store waits, and errors of the driver other than
-- missing rows and broken keys; password hashing and the signature of access tokens; comments,
-- discussions and agent work requests; run execution, runner sessions, the recording and redaction
-- of evidence, and model usage.
pub mod Prelude
pub mod Accounts
pub mod Store
pub mod Scheduler
pub mod Coordinator
pub mod Evidence
pub mod Issues
pub mod Sessions
pub mod Transfers
mod Examples
