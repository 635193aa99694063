-- ===== src/Scheduler/Frame/Parts.antt =====
-- The parts that transactions share, under an invariant that fills `Frame`: fences, delegations,
-- cancellation.
use agent_board.Prelude.{ℕ, Option, none, some, Bool}
use agent_board.Prelude.Text.{Text}
use agent_board.Store.Types.{Run, RunStatus, SchedulerJob, Delegation, Db, Env, IdempotencyKey}
use agent_board.Store.Rules.{Keeps}
use agent_board.Scheduler.Fences.{
  delegated_parent_terminal, fence_delegation, parent_terminal, active_run_execution_session,
  inactive_run_execution_occupied, unfinished_parent_delegation,
}
use agent_board.Scheduler.Delegations.{
  Terminal, seal_agent_work_requests, close_agent_work_requests, delegation_terminal_outcome,
  delegated_result_evidence, delegated_workspace_accepted,
}
use agent_board.Scheduler.Finalize.{
  resume_job, ensure_delegation_resume_job, continue_parent, parent_of, set_outcome, settle,
  finalize_delegation, finalize_delegated_run,
}
use agent_board.Scheduler.Cancellation.{cancellation_fence, cancel_inactive_run_tx, cancel_body}
use agent_board.Scheduler.Frame.{Frame}
use agent_board.Scheduler.Frame.Steps.{steps}

module _ {P : Db → Type 0} (F : Frame P) where
  parent_terminal-Keeps :
      (child : Run) (e : Delegation) (o : Option ℕ) → Keeps P (parent_terminal child e o)
  unfolding parent_terminal
  parent_terminal-Keeps child e none = search steps
  parent_terminal-Keeps child e (some p) = search (F, steps)

  fence_delegation-Keeps :
      (child : Run) (o : Option Delegation) → Keeps P (fence_delegation child o)
  unfolding fence_delegation
  fence_delegation-Keeps child none = search steps
  fence_delegation-Keeps child (some e) = search (steps, parent_terminal-Keeps)

  pub delegated_parent_terminal-Keeps : (child : Run) → Keeps P (delegated_parent_terminal child)
  unfolding delegated_parent_terminal
  delegated_parent_terminal-Keeps child = search (steps, fence_delegation-Keeps)

  pub active_run_execution_session-Keeps : (p r : ℕ) → Keeps P (active_run_execution_session p r)
  unfolding active_run_execution_session
  active_run_execution_session-Keeps p r = search steps

  pub inactive_run_execution_occupied-Keeps :
      (p r : ℕ) → Keeps P (inactive_run_execution_occupied p r)
  unfolding inactive_run_execution_occupied
  inactive_run_execution_occupied-Keeps p r = search steps

  pub unfinished_parent_delegation-Keeps : (run : Run) → Keeps P (unfinished_parent_delegation run)
  unfolding unfinished_parent_delegation
  unfinished_parent_delegation-Keeps run = search steps

  pub seal_agent_work_requests-Keeps :
      (env : Env) (p r : ℕ) → Keeps P (seal_agent_work_requests env p r)
  unfolding seal_agent_work_requests
  seal_agent_work_requests-Keeps env p r = search (F, steps)

  close_agent_work_requests-Keeps :
      (env : Env) (p r : ℕ) → Keeps P (close_agent_work_requests env p r)
  unfolding close_agent_work_requests
  close_agent_work_requests-Keeps env p r = search (F, steps)

  delegation_terminal_outcome-Keeps : (s : RunStatus) → Keeps P (delegation_terminal_outcome s)
  unfolding delegation_terminal_outcome
  delegation_terminal_outcome-Keeps RunStatus.completed = search steps
  delegation_terminal_outcome-Keeps _ = search steps

  delegated_result_evidence-Keeps :
      (run : Run) (t : Text) → Keeps P (delegated_result_evidence run t)
  unfolding delegated_result_evidence
  delegated_result_evidence-Keeps run t = search steps

  delegated_workspace_accepted-Keeps : (run : Run) → Keeps P (delegated_workspace_accepted run)
  unfolding delegated_workspace_accepted
  delegated_workspace_accepted-Keeps run = search steps

  resume_job-Keeps :
      (run : Run) (key : IdempotencyKey) (o : Option SchedulerJob) → Keeps P (resume_job run key o)
  unfolding resume_job
  resume_job-Keeps run key none = search steps
  resume_job-Keeps run key (some job) = search steps

  ensure_delegation_resume_job-Keeps :
      (env : Env) (e : Delegation) (run : Run) → Keeps P (ensure_delegation_resume_job env e run)
  unfolding ensure_delegation_resume_job
  ensure_delegation_resume_job-Keeps env e run = search (F, steps, resume_job-Keeps)

  continue_parent-Keeps :
      (env : Env) (e : Delegation) (run : Run) (s : RunStatus)
      → Keeps P (continue_parent env e run s)
  unfolding continue_parent
  continue_parent-Keeps env e run RunStatus.paused =
      search (F, steps, ensure_delegation_resume_job-Keeps)
  continue_parent-Keeps env e run RunStatus.queued =
      search (steps, ensure_delegation_resume_job-Keeps)
  continue_parent-Keeps env e run _ = search steps

  parent_of-Keeps :
      (env : Env) (run : Run) (e : Delegation) (o : Option ℕ) → Keeps P (parent_of env run e o)
  unfolding parent_of
  parent_of-Keeps env run e none = search steps
  parent_of-Keeps env run e (some p) = search (F, steps, continue_parent-Keeps)

  set_outcome-Keeps :
      (env : Env) (e : Delegation) (t : Terminal) (s : Text × Option ℕ) (b : Bool) (o : Option ℕ)
      → Keeps P (set_outcome env e t s b o)
  unfolding set_outcome
  set_outcome-Keeps env e t s b o = search (F, steps)

  settle-Keeps : (env : Env) (run : Run) (e : Delegation) → Keeps P (settle env run e)
  unfolding settle
  settle-Keeps env run e =
      search
        (
          steps, delegation_terminal_outcome-Keeps, delegated_result_evidence-Keeps,
          delegated_workspace_accepted-Keeps, parent_of-Keeps, set_outcome-Keeps,
        )
        depth 12

  finalize_delegation-Keeps :
      (env : Env) (run : Run) (o : Option Delegation) → Keeps P (finalize_delegation env run o)
  unfolding finalize_delegation
  finalize_delegation-Keeps env run none = search steps
  finalize_delegation-Keeps env run (some e) = search (steps, settle-Keeps)

  pub finalize_delegated_run-Keeps :
      (env : Env) (run : Run) → Keeps P (finalize_delegated_run env run)
  unfolding finalize_delegated_run
  finalize_delegated_run-Keeps env run =
      search (steps, close_agent_work_requests-Keeps, finalize_delegation-Keeps)

  pub cancel_inactive_run_tx-Keeps :
      (env : Env) (run : Run) → Keeps P (cancel_inactive_run_tx env run)
  unfolding cancel_inactive_run_tx
  cancel_inactive_run_tx-Keeps env run = search (F, steps, finalize_delegated_run-Keeps) depth 14

  cancellation_fence-Keeps : (p r : ℕ) (s : RunStatus) → Keeps P (cancellation_fence p r s)
  unfolding cancellation_fence
  cancellation_fence-Keeps p r RunStatus.starting =
      search (steps, active_run_execution_session-Keeps)
  cancellation_fence-Keeps p r RunStatus.queued =
      search (steps, inactive_run_execution_occupied-Keeps)
  cancellation_fence-Keeps p r RunStatus.paused =
      search (steps, inactive_run_execution_occupied-Keeps)
  cancellation_fence-Keeps p r _ = search steps

  pub cancel_body-Keeps : (env : Env) (p r : ℕ) → Keeps P (cancel_body env p r)
  unfolding cancel_body
  cancel_body-Keeps env p r =
      search (F, steps, cancellation_fence-Keeps, cancel_inactive_run_tx-Keeps)
