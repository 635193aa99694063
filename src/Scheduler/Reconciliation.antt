-- ===== src/Scheduler/Reconciliation.antt =====
-- scheduler_reconciliation.go: resolving a job whose worker was lost.
use agent_board.Prelude.{
  ℕ, Bool, true, false, not, ◌&&◌, ◌||◌, Option, none, some, [], ◌==◌, if◌then◌else◌,
}
use agent_board.Prelude.Text.{Text}
use agent_board.Prelude.Rows.{any}
use agent_board.Store.Types.{
  Run, RunStatus, JobState, WaitReason, Db, Env, is_starting_or_running, is_start, is_queued_job,
  is_handoff_ready,
}
use agent_board.Store.Tx.{
  Result, invalid_argument, not_found, Tx, ◌>>=◌, ◌>>◌, pure, fail, gets, guard, transact,
}
use agent_board.Store.Statements.{update_run, set_jobs, is_run}
use agent_board.Scheduler.Fences.{active_run_execution_session, delegated_parent_terminal}
use agent_board.Scheduler.Finalize.{finalize_delegated_run}
use agent_board.Scheduler.Ownership.{is_claim, lock_fenced_run, release_ownership}
use agent_board.Scheduler.Handoffs.{is_delegation_from, is_ready_child, release_ready_handoffs}
use agent_board.Scheduler.Transition.{Mutation, no_reason}

-- store.SchedulerReconciliationOutcome; `unset` is the empty text, `unsupported` any other.
pub data Outcome : Type 0 where
  active retry completed failed cancelled unknown unset unsupported : Outcome

abbrev pub is_unset : Outcome → Bool
is_unset Outcome.unset = true
is_unset _ = false

pub record Reconciliation : Type 0 where
  pub project_id : ℕ
  pub job_id : ℕ
  pub run_id : ℕ
  pub lease_token : ℕ
  pub outcome : Outcome
  pub failure_reason : Option Text

-- RowsAffected() != 1 is ErrNotFound.
abbrev pub release_reconciled : Reconciliation → Tx (Unit {0})
release_reconciled input = do
  deleted ← release_ownership input.project_id input.job_id input.lease_token
  guard (deleted == 1) not_found

abbrev pub retried_run : Env → Run → Run
retried_run env r = record r {
  status = RunStatus.queued;
  queue_reason = some WaitReason.reconciliation_retry;
  failure_reason = none;
  completed_at = none;
  updated_at = env.now;
}

unfoldable pub retry_run : Env → Reconciliation → Tx Mutation
retry_run env input = do
  run ←
      update_run (λ r. is_run input.project_id input.run_id r && is_starting_or_running r.status)
        (retried_run env)
  set_jobs (is_claim input.project_id input.job_id input.run_id) (λ j. record j {
    state = JobState.queued;
    wait_reason = some WaitReason.reconciliation_retry;
    available_at = env.now;
    updated_at = env.now;
  })
  release_reconciled input
  pure (record { run = run; events = [] })

abbrev pub terminal_run : Env → RunStatus → Option Text → Run → Run
terminal_run env status reason r = record r {
  status = status;
  queue_reason = none;
  failure_reason = reason;
  completed_at = some env.now;
  updated_at = env.now;
}

-- resolveReconciliationTerminal, once the outcome has given the states.
unfoldable pub resolve_terminal :
    Env → Reconciliation → RunStatus → JobState → Option Text → Tx Mutation
resolve_terminal env input status job_state reason = do
  run ←
      update_run (λ r. is_run input.project_id input.run_id r && is_starting_or_running r.status)
        (terminal_run env status reason)
  set_jobs (is_claim input.project_id input.job_id input.run_id)
      (λ j. record j { state = job_state; wait_reason = none; updated_at = env.now })
  events ← finalize_delegated_run env run
  release_reconciled input
  pure (record { run = run; events = events })

abbrev pub is_running : RunStatus → Bool
is_running RunStatus.running = true
is_running _ = false

-- A child waits, as a run and as a job, for the workspace of this parent.
abbrev pub handoff_ready : Run → Db → Bool
handoff_ready parent db =
    any
      (λ d.
        is_delegation_from parent d
        && any (λ child. is_ready_child parent d child && is_handoff_ready child.queue_reason)
            db.runs
        && any
            (λ j.
              j.project_id == d.project_id
              && j.run_id == d.delegated_run_id
              && is_start j.kind
              && is_queued_job j.state
              && is_handoff_ready j.wait_reason)
            db.jobs)
      db.delegations

abbrev pub yielded_run : Env → Run → Run
yielded_run env r = record r {
  status = RunStatus.paused;
  queue_reason = none;
  updated_at = env.now;
}

unfoldable pub yield_workspace : Env → Reconciliation → Run → Tx Mutation
yield_workspace env input current = do
  run ←
      update_run (λ r. is_run current.project_id current.id r && is_running r.status)
        (yielded_run env)
  release_ready_handoffs env run
  changed ←
      set_jobs (is_claim input.project_id input.job_id input.run_id)
        (λ j. record j { state = JobState.done; wait_reason = none; updated_at = env.now })
  guard (changed == 1) not_found
  release_reconciled input
  pure (record { run = run; events = [] })

-- recoverReadyDelegationWorkspaceHandoff; a parent that is not ready stays as it is.
unfoldable pub recover_handoff : Env → Reconciliation → Run → Tx Mutation
unfolding yield_workspace
recover_handoff env input current = do
  ready ← gets (handoff_ready current)
  live ← active_run_execution_session current.project_id current.id
  if is_running current.status && ready && not live
      then yield_workspace env input current
      else pure (record { run = current; events = [] })

-- A lost child of a parent that has ended is not retried.
abbrev pub effective : Bool → Outcome → Outcome
effective true Outcome.retry = Outcome.cancelled
effective _ outcome = outcome

unfoldable pub resolve_outcome : Env → Reconciliation → Run → Outcome → Tx Mutation
unfolding retry_run resolve_terminal recover_handoff
resolve_outcome env input current Outcome.active = pure (record { run = current; events = [] })
resolve_outcome env input current Outcome.unknown = recover_handoff env input current
resolve_outcome env input current Outcome.retry = retry_run env input
resolve_outcome env input current Outcome.completed =
    resolve_terminal env input RunStatus.completed JobState.done none
resolve_outcome env input current Outcome.failed =
    if no_reason input.failure_reason
    then fail invalid_argument
    else resolve_terminal env input RunStatus.failed JobState.failed input.failure_reason
resolve_outcome env input current Outcome.cancelled =
    resolve_terminal env input RunStatus.cancelled JobState.cancelled none
resolve_outcome env input current Outcome.unset = fail invalid_argument
resolve_outcome env input current Outcome.unsupported = fail invalid_argument

unfoldable pub resolve_body : Env → Reconciliation → Tx Mutation
unfolding resolve_outcome
resolve_body env input = do
  current ← lock_fenced_run env input.project_id input.job_id input.run_id input.lease_token
  parent_ended ← delegated_parent_terminal current
  resolve_outcome env input current (effective parent_ended input.outcome)

-- resolveReconciliation
unfoldable pub resolve_reconciliation : Env → Reconciliation → Db → Result Mutation × Db
unfolding resolve_body
resolve_reconciliation env input = transact (
    if input.project_id == 0
      || input.job_id == 0
      || input.run_id == 0
      || input.lease_token == 0
      || is_unset input.outcome
    then fail invalid_argument
    else resolve_body env input)
