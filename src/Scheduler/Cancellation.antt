-- ===== src/Scheduler/Cancellation.antt =====
-- run_cancellation.go: cancelling a run that no worker owns.
use agent_board.Prelude.{
  ℕ, Bool, true, false, ◌&&◌, ◌||◌, none, some, List, ◌∷◌, ◌==◌, if◌then◌else◌,
}
use agent_board.Prelude.Rows.{any}
use agent_board.Store.Types.{
  Run, RunStatus, JobState, SchedulerLease, EventType, Payload, Event, Db, Env,
}
use agent_board.Store.Tx.{
  Result, invalid_argument, conflict, Tx, ◌>>=◌, ◌>>◌, pure, fail, gets, transact, guard,
}
use agent_board.Store.Statements.{
  get_run, update_run, set_jobs, delete_leases, delete_reservations, is_run,
}
use agent_board.Store.Events.{append_event}
use agent_board.Scheduler.Fences.{
  active_run_execution_session, inactive_run_execution_occupied, is_claimed_job,
}
use agent_board.Scheduler.Finalize.{finalize_delegated_run}

-- status IN ('QUEUED','PAUSED','STARTING')
abbrev pub is_cancellable : RunStatus → Bool
is_cancellable RunStatus.queued = true
is_cancellable RunStatus.paused = true
is_cancellable RunStatus.starting = true
is_cancellable _ = false

-- state IN ('QUEUED','CLAIMED')
abbrev pub is_open_job : JobState → Bool
is_open_job JobState.queued = true
is_open_job JobState.claimed = true
is_open_job _ = false

-- Some job of the run has this id.
abbrev pub job_of_run : ℕ → ℕ → ℕ → Db → Bool
job_of_run project_id run_id job_id db =
    any (λ j. j.id == job_id && j.project_id == project_id && j.run_id == run_id) db.jobs

abbrev pub cancelled_run : Env → Run → Run
cancelled_run env r = record r {
  status = RunStatus.cancelled;
  queue_reason = none;
  completed_at = some env.now;
  updated_at = env.now;
}

abbrev pub cancelled_event : Run → Event
cancelled_event run = record {
  id = 0;
  type = EventType.run_cancelled;
  occurred_at = 0;
  project_id = run.project_id;
  issue_id = some run.issue_id;
  run_id = some run.id;
  agent_id = run.agent_id;
  workspace_id = some run.workspace_id;
  parent_event_id = none;
  sequence = none;
  payload = Payload.run_status RunStatus.cancelled;
}

pub record Cancellation : Type 0 where
  pub run : Run
  pub events : List Event

-- cancelInactiveRunTx
unfoldable pub cancel_inactive_run_tx : Env → Run → Tx Cancellation
cancel_inactive_run_tx env current = do
  run ←
      update_run (λ r. is_run current.project_id current.id r && is_cancellable r.status)
        (cancelled_run env)
  set_jobs (λ j. j.project_id == run.project_id && j.run_id == run.id && is_open_job j.state)
      (λ j. record j { state = JobState.cancelled; wait_reason = none; updated_at = env.now })
  owned ← gets (λ db. λ (l : SchedulerLease). job_of_run run.project_id run.id l.job_id db)
  delete_leases owned
  delete_reservations (λ r. r.project_id == run.project_id && r.run_id == run.id)
  event ← append_event env (cancelled_event run)
  more ← finalize_delegated_run env run
  pure (record { run = run; events = event ∷ more })

-- The fence before the cancellation, by the run's status.
unfoldable pub cancellation_fence : ℕ → ℕ → RunStatus → Tx (Unit {0})
cancellation_fence project_id run_id RunStatus.starting = do
  active ← active_run_execution_session project_id run_id
  claimed ← gets (λ db. any (is_claimed_job project_id run_id) db.jobs)
  if active then fail conflict else guard claimed conflict
cancellation_fence project_id run_id RunStatus.queued = do
  occupied ← inactive_run_execution_occupied project_id run_id
  if occupied then fail conflict else pure tt
cancellation_fence project_id run_id RunStatus.paused = do
  occupied ← inactive_run_execution_occupied project_id run_id
  if occupied then fail conflict else pure tt
cancellation_fence project_id run_id _ = fail conflict

unfoldable pub cancel_body : Env → ℕ → ℕ → Tx Cancellation
unfolding cancellation_fence
cancel_body env project_id run_id = do
  current ← get_run project_id run_id
  cancellation_fence project_id run_id current.status
  cancel_inactive_run_tx env current

-- CancelInactiveRun
unfoldable pub cancel_inactive_run : Env → ℕ → ℕ → Db → Result Cancellation × Db
unfolding cancel_body
cancel_inactive_run env project_id run_id = transact (
    if project_id == 0 || run_id == 0
    then fail invalid_argument
    else cancel_body env project_id run_id)
