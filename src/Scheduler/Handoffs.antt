-- ===== src/Scheduler/Handoffs.antt =====
-- scheduler_transition.go: releaseReadyDelegationWorkspaceHandoffs, which lets the children go that
-- waited for the workspace of a parent.
use agent_board.Prelude.{Bool, ◌&&◌, none, ◌==◌, is_value}
use agent_board.Prelude.Rows.{any}
use agent_board.Store.Types.{
  Run, SchedulerJob, Delegation, Db, Env, is_queued_run, is_queued_job, is_start, is_handoff_ready,
}
use agent_board.Store.Tx.{Tx, ◌>>=◌, ◌>>◌, gets}
use agent_board.Store.Statements.{set_runs, set_jobs}

abbrev pub is_ready_child : Run → Delegation → Run → Bool
is_ready_child parent d child =
    child.project_id == d.project_id
    && child.id == d.delegated_run_id
    && child.issue_id == parent.issue_id
    && child.workspace_id == parent.workspace_id
    && is_queued_run child.status

abbrev pub is_delegation_from : Run → Delegation → Bool
is_delegation_from parent d =
    d.project_id == parent.project_id
    && is_value d.parent_run_id parent.id
    && d.issue_id == parent.issue_id

-- The job is the waiting start of a child that the parent has handed its workspace to.
abbrev pub is_released_job : Db → Run → SchedulerJob → Bool
is_released_job db parent job =
    is_start job.kind
    && is_queued_job job.state
    && is_handoff_ready job.wait_reason
    && any
        (λ d.
          is_delegation_from parent d
          && job.project_id == d.project_id
          && job.run_id == d.delegated_run_id
          && any (is_ready_child parent d) db.runs)
        db.delegations

abbrev pub is_released_run : Db → Run → Run → Bool
is_released_run db parent child =
    is_handoff_ready child.queue_reason
    && any (λ d. is_delegation_from parent d && is_ready_child parent d child) db.delegations

-- releaseReadyDelegationWorkspaceHandoffs
unfoldable pub release_ready_handoffs : Env → Run → Tx (Unit {0})
release_ready_handoffs env parent = do
  is_job ← gets (λ db. is_released_job db parent)
  set_jobs is_job
      (λ j. record j { wait_reason = none; available_at = env.now; updated_at = env.now })
  is_child ← gets (λ db. is_released_run db parent)
  set_runs is_child (λ r. record r { queue_reason = none; updated_at = env.now })
