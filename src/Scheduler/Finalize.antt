-- ===== src/Scheduler/Finalize.antt =====
-- delegation_result.go: finalizeDelegatedRunTx, which closes a terminal run's work requests, writes
-- its delegation's outcome and queues the parent's continuation.
use agent_board.Prelude.{
  ℕ, Bool, true, false, ◌&&◌, Option, none, some, List, [], ◌∷◌, ◌==◌, is_null, if◌then◌else◌,
}
use agent_board.Prelude.Text.{Text}
use agent_board.Prelude.Rows.{first, update}
use agent_board.Store.Types.{
  Run, RunStatus, JobKind, JobState, IdempotencyKey, SchedulerJob, Delegation, Payload, Event, Env,
  is_terminal, is_queued_job, same_key,
}
use agent_board.Store.Tx.{conflict, Tx, ◌>>=◌, ◌>>◌, pure, fail, gets, modify, found}
use agent_board.Store.Statements.{get_run, update_run, insert_job, is_run}
use agent_board.Store.Events.{append_event}
use agent_board.Scheduler.Fences.{is_delegation_of, child_matches, from_comment, parent_matches}
use agent_board.Scheduler.Delegations.{
  Terminal, close_agent_work_requests, delegation_terminal_outcome, delegated_result_evidence,
  delegated_workspace_accepted,
}

abbrev pub is_resume : JobKind → Bool
is_resume JobKind.resume = true
is_resume _ = false

-- The job that an insertion made, or else the one that holds its key.
unfoldable pub resume_job : Run → IdempotencyKey → Option SchedulerJob → Tx SchedulerJob
resume_job parent key (some job) = pure job
resume_job parent key none = do
  row ← gets (λ db. first (λ j. same_key j.idempotency_key key) db.jobs)
  job ← found row
  if job.project_id == parent.project_id
        && job.run_id == parent.id
        && is_resume job.kind
        && is_queued_job job.state
      then pure job
      else fail conflict

-- ensureDelegationResumeJobTx
unfoldable pub ensure_delegation_resume_job : Env → Delegation → Run → Tx SchedulerJob
unfolding resume_job
ensure_delegation_resume_job env delegation parent = do
  let key = IdempotencyKey.delegation_resume delegation.id
  id ← gets env.gen_random_uuid
  inserted ← insert_job (record {
    id = id;
    project_id = parent.project_id;
    run_id = parent.id;
    kind = JobKind.resume;
    state = JobState.queued;
    wait_reason = none;
    idempotency_key = key;
    available_at = env.now;
    created_at = env.now;
    updated_at = env.now;
  })
  resume_job parent key inserted

abbrev pub is_paused : RunStatus → Bool
is_paused RunStatus.paused = true
is_paused _ = false

-- `queue_reason`, `failure_reason` and `completed_at` are cleared with the status.
abbrev pub requeue : Env → Run → Run
requeue env r = record r {
  status = RunStatus.queued;
  queue_reason = none;
  failure_reason = none;
  completed_at = none;
  updated_at = env.now;
}

-- The parent's continuation by the parent's status: the parent as it is then, and the job.
unfoldable pub continue_parent : Env → Delegation → Run → RunStatus → Tx (Run × Option ℕ)
continue_parent env d parent RunStatus.paused = do
  resumed ←
      update_run (λ r. is_run parent.project_id parent.id r && is_paused r.status) (requeue env)
  job ← ensure_delegation_resume_job env d resumed
  pure (resumed, some job.id)
continue_parent env d parent RunStatus.queued = do
  job ← ensure_delegation_resume_job env d parent
  pure (parent, some job.id)
continue_parent env d parent RunStatus.completed = pure (parent, none)
continue_parent env d parent RunStatus.failed = pure (parent, none)
continue_parent env d parent RunStatus.cancelled = pure (parent, none)
continue_parent env d parent _ = fail conflict

unfoldable pub parent_of : Env → Run → Delegation → Option ℕ → Tx (Option Run × Option ℕ)
unfolding continue_parent
parent_of env child d (some parent_run_id) = do
  parent ← get_run d.project_id parent_run_id
  if parent_matches d child parent
      then (do
        continued ← continue_parent env d parent parent.status
        pure (some continued.0, continued.1))
      else fail conflict
parent_of env child d none = if from_comment d then pure (none, none) else fail conflict

abbrev pub is_unfinished : Delegation → Delegation → Bool
is_unfinished d row = row.project_id == d.project_id && row.id == d.id && is_null row.outcome

-- UPDATE delegations SET … WHERE … AND outcome IS NULL
unfoldable pub set_outcome :
    Env → Delegation → Terminal → Text × Option ℕ → Bool → Option ℕ → Tx (Unit {0})
set_outcome env d terminal summary accepted continuation = do
  row ← gets (λ db. first (is_unfinished d) db.delegations)
  unfinished ← found row
  modify (λ db. record db {
    delegations =
        update (is_unfinished d)
          (λ r. record r {
            outcome = some terminal.outcome;
            result_summary = some summary.0;
            result_event_id = summary.1;
            workspace_changes_accepted = some accepted;
            continuation_job_id = continuation;
            completed_at = some env.now;
            updated_at = env.now;
          })
          db.delegations;
  })

-- The run that the event is filed under: the parent, where there is one.
abbrev pub subject : Run → Option Run → Run
subject child none = child
subject child (some parent) = parent

abbrev pub delegation_event :
    Run → Delegation → Terminal → Text × Option ℕ → Bool → Option ℕ → Run → Event
delegation_event child d terminal summary accepted continuation run = record {
  id = 0;
  type = terminal.event_type;
  occurred_at = 0;
  project_id = d.project_id;
  issue_id = some d.issue_id;
  run_id = some run.id;
  agent_id = run.agent_id;
  workspace_id = some run.workspace_id;
  parent_event_id = none;
  sequence = none;
  payload =
      Payload.delegation_result d.id d.delegated_run_id terminal.outcome summary.1 accepted
        continuation;
}

unfoldable pub settle : Env → Run → Delegation → Tx (List Event)
unfolding parent_of set_outcome
settle env child d = do
  terminal ← delegation_terminal_outcome child.status
  summary ← delegated_result_evidence child terminal.fallback
  accepted ← delegated_workspace_accepted child
  parent ← parent_of env child d d.parent_run_id
  set_outcome env d terminal summary accepted parent.1
  event ←
      append_event env
        (delegation_event child d terminal summary accepted parent.1 (subject child parent.0))
  pure (event ∷ [])

unfoldable pub finalize_delegation : Env → Run → Option Delegation → Tx (List Event)
unfolding settle
finalize_delegation env child none = pure []
finalize_delegation env child (some d) =
    if is_null d.outcome
    then (if child_matches d child then settle env child d else fail conflict)
    else pure []

-- finalizeDelegatedRunTx
unfoldable pub finalize_delegated_run : Env → Run → Tx (List Event)
unfolding finalize_delegation
finalize_delegated_run env child =
    if is_terminal child.status
    then (do
      close_agent_work_requests env child.project_id child.id
      delegation ← gets (λ db. first (is_delegation_of child) db.delegations)
      finalize_delegation env child delegation)
    else pure []
