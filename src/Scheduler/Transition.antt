-- ===== src/Scheduler/Transition.antt =====
-- scheduler_transition.go: the fenced transition of a claimed run, with its review, its delegations
-- and the release of its job.
pub mod Fencing
pub mod Release
use agent_board.Prelude.{
  ℕ, Bool, true, false, not, ◌&&◌, ◌||◌, Option, none, some, List, ◌==◌, if◌then◌else◌,
}
use agent_board.Prelude.Text.{Text, is_blank}
use agent_board.Store.Types.{Run, RunStatus, Event, Db, Env, is_terminal}
use agent_board.Store.Tx.{
  Result, invalid_argument, conflict, Tx, ◌>>=◌, ◌>>◌, pure, fail, guard, transact,
}
use agent_board.Store.Statements.{update_run, set_jobs, delete_leases, delete_reservations, is_run}
use agent_board.Scheduler.Fences.{active_run_execution_session, unfinished_parent_delegation}
use agent_board.Scheduler.Finalize.{finalize_delegated_run}
use agent_board.Scheduler.RunStates.{
  Effects, valid_scheduler_run_transition, scheduler_transition_effects,
}
use agent_board.Scheduler.Ownership.{is_claim, lock_fenced_run}
use agent_board.Scheduler.Questions.{cleanup_terminal_questions}
use agent_board.Scheduler.Reviews.{create_pending_review}
use agent_board.Scheduler.Handoffs.{release_ready_handoffs}

-- store.SchedulerTransition
pub record Transition : Type 0 where
  pub project_id : ℕ
  pub job_id : ℕ
  pub run_id : ℕ
  pub lease_token : ℕ
  pub run_status : RunStatus
  pub failure_reason : Option Text

-- store.SchedulerMutationResult
pub record Mutation : Type 0 where
  pub run : Run
  pub events : List Event

abbrev pub is_waiting : RunStatus → Bool
is_waiting RunStatus.waiting_for_input = true
is_waiting _ = false

abbrev pub is_ready_for_review : RunStatus → Bool
is_ready_for_review RunStatus.ready_for_review = true
is_ready_for_review _ = false

abbrev pub is_paused : RunStatus → Bool
is_paused RunStatus.paused = true
is_paused _ = false

abbrev pub is_failed : RunStatus → Bool
is_failed RunStatus.failed = true
is_failed _ = false

abbrev pub no_reason : Option Text → Bool
no_reason none = true
no_reason (some reason) = is_blank reason

-- The sessions and delegations that a transition waits for.
abbrev pub ends_execution : RunStatus → Bool
ends_execution RunStatus.ready_for_review = true
ends_execution status = is_terminal status

unfoldable pub transition_fences : Run → Transition → Tx (Unit {0})
transition_fences current input = do
  active ← active_run_execution_session input.project_id input.run_id
  guard (not (ends_execution input.run_status && active)) conflict
  unfinished ← unfinished_parent_delegation current
  guard (not (is_ready_for_review input.run_status && unfinished)) conflict

abbrev pub transitioned : Env → Transition → Effects → Run → Run
transitioned env input effects r = record r {
  status = input.run_status;
  queue_reason = none;
  failure_reason = if is_failed input.run_status then input.failure_reason else r.failure_reason;
  completed_at = if effects.terminal then some env.now else r.completed_at;
  updated_at = env.now;
}

abbrev pub when : Bool → Tx (Unit {0}) → Tx (Unit {0})
when true m = m
when false m = pure tt

-- What follows the new status of the run.
unfoldable pub transition_consequences : Env → Transition → Effects → Run → Run → Tx (List Event)
transition_consequences env input effects current run = do
  when (effects.terminal && is_waiting current.status) (cleanup_terminal_questions env run)
  when (is_ready_for_review input.run_status) (create_pending_review run)
  when (is_paused input.run_status) (release_ready_handoffs env run)
  finalize_delegated_run env run

-- The job leaves the worker: its reservations, its claim and its lease end together.
unfoldable pub release_job : Env → Transition → Effects → Tx (Unit {0})
release_job env input effects = do
  delete_reservations (λ r. r.project_id == input.project_id && r.job_id == input.job_id)
  set_jobs (is_claim input.project_id input.job_id input.run_id)
      (λ j. record j { state = effects.job_state; wait_reason = none; updated_at = env.now })
  delete_leases (λ l. l.job_id == input.job_id && l.lease_token == input.lease_token)
  pure tt

unfoldable pub transition_run : Env → Transition → Run → Option Effects → Tx Mutation
unfolding transition_fences transition_consequences release_job
transition_run env input current none = fail invalid_argument
transition_run env input current (some effects) = do
  guard (not (is_failed input.run_status && no_reason input.failure_reason)) invalid_argument
  transition_fences current input
  run ← update_run (is_run input.project_id input.run_id) (transitioned env input effects)
  events ← transition_consequences env input effects current run
  when effects.release (release_job env input effects)
  pure (record { run = run; events = events })

unfoldable pub transition_body : Env → Transition → Tx Mutation
unfolding transition_run
transition_body env input = do
  current ← lock_fenced_run env input.project_id input.job_id input.run_id input.lease_token
  guard (valid_scheduler_run_transition current.status input.run_status) conflict
  transition_run env input current (scheduler_transition_effects input.run_status)

-- transitionAdmittedJob
unfoldable pub transition_admitted_job : Env → Transition → Db → Result Mutation × Db
unfolding transition_body
transition_admitted_job env input = transact (
    if input.project_id == 0 || input.job_id == 0 || input.run_id == 0 || input.lease_token == 0
    then fail invalid_argument
    else transition_body env input)
