-- ===== src/Scheduler/Fences.antt =====
-- delegation_parent_fence.go: what a transition asks of delegations and execution sessions.
use agent_board.Prelude.{
  ℕ, Bool, false, not, ◌&&◌, ◌||◌, Option, none, some, ◌==◌, is_value, is_null, if◌then◌else◌,
}
use agent_board.Prelude.Rows.{first, any}
use agent_board.Store.Types.{
  Run, SchedulerJob, Delegation, ExecutionSession, is_terminal, is_live, is_claimed,
}
use agent_board.Store.Tx.{conflict, Tx, ◌>>=◌, pure, fail, gets}
use agent_board.Store.Statements.{get_run}

abbrev pub is_delegation_of : Run → Delegation → Bool
is_delegation_of child d = d.project_id == child.project_id && d.delegated_run_id == child.id

-- The delegation agrees with its child run on the issue and on the agent.
abbrev pub child_matches : Delegation → Run → Bool
child_matches d child = d.issue_id == child.issue_id && is_value child.agent_id d.target_agent_id

-- A delegation with no parent run comes from a comment.
abbrev pub from_comment : Delegation → Bool
from_comment d = not (is_null d.source_comment_id) && is_null d.parent_agent_id

abbrev pub agent_matches : Option ℕ → Option ℕ → Bool
agent_matches none parent_agent_id = false
agent_matches (some a) parent_agent_id = is_value parent_agent_id a

abbrev pub parent_matches : Delegation → Run → Run → Bool
parent_matches d child parent =
    parent.issue_id == child.issue_id
    && parent.workspace_id == child.workspace_id
    && agent_matches parent.agent_id d.parent_agent_id

unfoldable pub parent_terminal : Run → Delegation → Option ℕ → Tx Bool
parent_terminal child d none = if from_comment d then pure false else fail conflict
parent_terminal child d (some parent_run_id) = do
  parent ← get_run d.project_id parent_run_id
  if parent_matches d child parent then pure (is_terminal parent.status) else fail conflict

unfoldable pub fence_delegation : Run → Option Delegation → Tx Bool
fence_delegation child none = pure false
fence_delegation child (some d) =
    if child_matches d child then parent_terminal child d d.parent_run_id else fail conflict

-- delegatedParentTerminalTx
unfoldable pub delegated_parent_terminal : Run → Tx Bool
unfolding fence_delegation parent_terminal
delegated_parent_terminal child = do
  delegation ← gets (λ db. first (is_delegation_of child) db.delegations)
  fence_delegation child delegation

abbrev pub is_live_session : ℕ → ℕ → ExecutionSession → Bool
is_live_session project_id run_id s =
    s.project_id == project_id && s.run_id == run_id && is_live s.status

-- activeRunExecutionSessionTx
unfoldable pub active_run_execution_session : ℕ → ℕ → Tx Bool
active_run_execution_session project_id run_id =
    gets (λ db. any (is_live_session project_id run_id) db.sessions)

abbrev pub is_claimed_job : ℕ → ℕ → SchedulerJob → Bool
is_claimed_job project_id run_id j =
    j.project_id == project_id && j.run_id == run_id && is_claimed j.state

-- inactiveRunExecutionOccupiedTx
unfoldable pub inactive_run_execution_occupied : ℕ → ℕ → Tx Bool
unfolding active_run_execution_session
inactive_run_execution_occupied project_id run_id = do
  active ← active_run_execution_session project_id run_id
  claimed ← gets (λ db. any (is_claimed_job project_id run_id) db.jobs)
  pure (active || claimed)

-- unfinishedParentDelegationTx
unfoldable pub unfinished_parent_delegation : Run → Tx Bool
unfinished_parent_delegation parent = gets (λ db.
    any
      (λ d.
        d.project_id == parent.project_id
        && is_value d.parent_run_id parent.id
        && d.issue_id == parent.issue_id
        && is_null d.outcome)
      db.delegations)
