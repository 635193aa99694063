-- ===== src/Scheduler.antt =====
-- The scheduler's store: admission, leases, transitions, cancellation
-- (apps/server/internal/store/postgres/scheduler*.go and what they call).
pub mod Fences
pub mod Delegations
pub mod Finalize
pub mod Cancellation
pub mod Candidates
pub mod Runners
pub mod Admission
pub mod RunStates
pub mod Ownership
pub mod Questions
pub mod Reviews
pub mod Handoffs
pub mod Calls
pub mod Frame
pub mod Ended
pub mod Capacity
pub mod Transition
pub mod Operations
pub mod Reconciliation
pub mod QuestionRecovery
pub mod Expiry
