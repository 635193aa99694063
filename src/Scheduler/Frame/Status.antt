-- ===== src/Scheduler/Frame/Status.antt =====
-- The writes of the scheduler to runs, and the runs that have ended.
use agent_board.Prelude.{ℕ, ◌&&◌, refl, Bool, Option, arith}
use agent_board.Prelude.Text.{Text}
use agent_board.Store.Types.{Run, RunStatus, WaitReason, Env, is_queued_run, is_starting_or_running}
use agent_board.Store.Statements.{is_run}
use agent_board.Store.Events.{next_sequence}
use agent_board.Scheduler.Finalize.{requeue}
use agent_board.Scheduler.Finalize
use agent_board.Scheduler.Admission.{started_run}
use agent_board.Scheduler.Cancellation.{is_cancellable, cancelled_run}
use agent_board.Scheduler.Reconciliation.{terminal_run, retried_run, yielded_run}
use agent_board.Scheduler.Reconciliation
use agent_board.Scheduler.QuestionRecovery.{is_waiting_run, with_status}
use agent_board.Scheduler.Frame.{KeepsStatus}

module _ (env : Env) where
  pub requeue-KeepsStatus :
      (p id : ℕ)
      → KeepsStatus
          (λ r. is_run p id r && agent_board.Scheduler.Finalize.is_paused r.status)
          (requeue env)
  requeue-KeepsStatus p id r t = (refl, refl, λ e. absurd (ground arith))

  pub cancelled_run-KeepsStatus :
      (p id : ℕ) → KeepsStatus (λ r. is_run p id r && is_cancellable r.status) (cancelled_run env)
  cancelled_run-KeepsStatus p id r t = (refl, refl, λ e. absurd (ground arith))

  pub retried-KeepsStatus :
      (p id : ℕ)
      → KeepsStatus (λ r. is_run p id r && is_starting_or_running r.status) (retried_run env)
  retried-KeepsStatus p id r t = (refl, refl, λ e. absurd (ground arith))

  pub terminal_run-KeepsStatus :
      (p id : ℕ) (s : RunStatus) (reason : Option Text)
      → KeepsStatus
          (λ r. is_run p id r && is_starting_or_running r.status)
          (terminal_run env s reason)
  terminal_run-KeepsStatus p id s reason r t = (refl, refl, λ e. absurd (ground arith))

  pub yielded-KeepsStatus :
      (p id : ℕ)
      → KeepsStatus
          (λ r. is_run p id r && agent_board.Scheduler.Reconciliation.is_running r.status)
          (yielded_run env)
  yielded-KeepsStatus p id r t = (refl, refl, λ e. absurd (ground arith))

  pub resumed-KeepsStatus :
      (p id : ℕ) (s : RunStatus)
      → KeepsStatus (λ r. is_run p id r && is_waiting_run r.status) (with_status env s)
  resumed-KeepsStatus p id s r t = (refl, refl, λ e. absurd (ground arith))

  pub waiting-KeepsStatus :
      (p id : ℕ) (s : RunStatus)
      → KeepsStatus (λ r. is_run p id r && is_starting_or_running r.status) (with_status env s)
  waiting-KeepsStatus p id s r t = (refl, refl, λ e. absurd (ground arith))

  pub started_run-KeepsStatus :
      (p id : ℕ) → KeepsStatus (λ r. is_run p id r && is_queued_run r.status) (started_run env)
  started_run-KeepsStatus p id r t = (refl, refl, λ e. absurd (ground arith))

  pub reason-KeepsStatus :
      (test : Run → Bool) (reason : Option WaitReason)
      → KeepsStatus test (λ r. record r { queue_reason = reason; updated_at = env.now })
  reason-KeepsStatus test reason r t = (refl, refl, λ e. refl)

pub next_sequence-KeepsStatus : (test : Run → Bool) → KeepsStatus test next_sequence
next_sequence-KeepsStatus test r t = (refl, refl, λ e. refl)

pub ruleset statuses = (
  requeue-KeepsStatus, cancelled_run-KeepsStatus, retried-KeepsStatus, terminal_run-KeepsStatus,
  yielded-KeepsStatus, resumed-KeepsStatus, waiting-KeepsStatus, started_run-KeepsStatus,
  reason-KeepsStatus, next_sequence-KeepsStatus,
)
