-- ===== src/Scheduler/Runners.antt =====
-- runner_admission.go: the capacity that is reserved, and the runner that an admission gets.
pub mod Order
use mathlib.Core.Option
use agent_board.Prelude.{
  ℕ, ◌+◌, Bool, true, false, not, ◌&&◌, ◌||◌, Option, none, some, List, [], ◌∷◌, ◌++◌, ◌==◌, ltb,
  leb, is_null, coalesce, if◌then◌else◌,
}
use agent_board.Prelude.Rows.{first, any, select, count}
use agent_board.Store.Types.{
  Run, RunStatus, JobState, WaitReason, ResourceKind, SchedulerJob, SchedulerLease, Reservation,
  Agent, ModelProfile, Runner, Project, Db, Env, is_queued_run, is_queued_job, same_kind,
}
use agent_board.Store.Tx.{
  Result, invalid_argument, conflict, database_error, Tx, ◌>>=◌, ◌>>◌, pure, fail, gets, modify,
  found, scanned, guard, transact,
}
use agent_board.Store.Statements.{update_run, update_job, set_runs, set_jobs, is_run}
use agent_board.Scheduler.Fences.{
  delegated_parent_terminal, inactive_run_execution_occupied, is_claimed_job, is_live_session,
}
use agent_board.Scheduler.Delegations.{seal_agent_work_requests}
use agent_board.Scheduler.Cancellation.{cancel_inactive_run_tx}
use agent_board.Scheduler.Candidates.{Candidate, configuration, next_candidate}
use agent_board.Prelude.Order.{best}

abbrev pub reserves : ResourceKind → ℕ → Reservation → Bool
reserves kind resource_id r = same_kind r.resource_kind kind && r.resource_id == resource_id

-- countCapacityReservations
abbrev pub reserved : ResourceKind → ℕ → Db → ℕ
reserved kind resource_id db = count (reserves kind resource_id) db.reservations

abbrev pub runner_limit : Runner → ℕ
runner_limit r = coalesce r.max_active_sessions 5

abbrev pub member : ℕ → List ℕ → Bool
member a = any (λ b. b == a)

abbrev pub in_project : Option ℕ → ℕ → Bool
in_project none project_id = false
in_project (some p) project_id = p == project_id

-- The project may use the runner: an internal one where it allows that, its own, or a shared one
-- where it names no runners or names this one.
abbrev pub may_use : Db → Project → Runner → Bool
may_use db project runner =
    (runner.internal && project.allow_internal_runner)
    || (not runner.internal && in_project runner.project_id project.id)
    || (not runner.internal
        && is_null runner.project_id
        && (not (any (λ p. p.project_id == project.id) db.project_runners)
            || any (λ p. p.project_id == project.id && p.runner_id == runner.id)
                db.project_runners))

abbrev pub usable : Env → Db → Project → List ℕ → Runner → Bool
usable env db project ids runner =
    member runner.id ids
    && not runner.deleted
    && not runner.revoked
    && may_use db project runner
    && ltb (reserved ResourceKind.runner runner.id db) (runner_limit runner)
    && not (env.is_locked runner.id)

-- ORDER BY internal, created_at, id.
abbrev pub older : Runner → Runner → Bool
older a b =
    if ltb a.created_at b.created_at
    then true
    else (if ltb b.created_at a.created_at then false else ltb a.id b.id)

abbrev pub runner_before : Runner → Runner → Bool
runner_before a b =
    if a.internal
    then (if b.internal then older a b else false)
    else (if b.internal then true else older a b)

unfoldable pub runner_in : Env → List ℕ → Db → Option Project → Option Runner
unfolding best
runner_in env ids db none = none
runner_in env ids db (some project) =
    best runner_before none (select (usable env db project ids) db.runners)

-- lockRunnerCandidate; no runner is `none`.
unfoldable pub lock_runner_candidate : Env → ℕ → ℕ → Tx (Option ℕ)
unfolding runner_in
lock_runner_candidate env project_id agent_id = do
  row ← gets (λ db. first (λ (a : Agent). a.id == agent_id) db.agents)
  agent ← scanned row
  runner ← gets (λ db.
      runner_in env (env.runner_candidates agent.engine) db
        (first (λ (p : Project). p.id == project_id) db.projects))
  pure (Option.map (λ (r : Runner). r.id) runner)
