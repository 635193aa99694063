-- ===== src/Examples.antt =====
-- A small board, and each theorem that has hypotheses at work on it.
mod Board
mod Computes
mod Scheduler
mod Transitions
mod Coordinator
mod Evidence
mod Issues
mod Transfers
mod Accounts
mod IssueBoard
