-- ===== src/Scheduler/Candidates.antt =====
-- scheduler.go: lockNextAdmissionCandidate, the queued job that is admitted next.
pub mod Order
use agent_board.Prelude.{
  ℕ, Bool, true, false, not, ◌&&◌, ◌||◌, Option, none, some, List, [], ◌∷◌, ◌++◌, ◌==◌, ltb, leb,
  is_value, is_null, if◌then◌else◌,
}
use agent_board.Prelude.Order.{best}
use agent_board.Prelude.Rows.{first, any, select}
use agent_board.Store.Types.{
  Run, SchedulerJob, Agent, ModelProfile, Db, Env, in_scope, is_terminal, is_queued_run,
  is_queued_job,
}
use agent_board.Store.Statements.{is_run}

-- A queued job, its run, and what the query orders by.
pub record Candidate : Type 0 where
  pub job : SchedulerJob
  pub run : Run
  pub cleanup : Bool
  pub priority : ℕ

-- terminal_parent_cleanup: an unfinished delegation to the run, whose parent has ended.
unfoldable pub terminal_parent_cleanup : Db → Run → Bool
terminal_parent_cleanup db run =
    any
      (λ d.
        d.project_id == run.project_id
        && d.delegated_run_id == run.id
        && is_null d.outcome
        && any
            (λ parent.
              parent.project_id == d.project_id
              && is_value d.parent_run_id parent.id
              && is_terminal parent.status)
            db.runs)
      db.delegations

abbrev pub eligible : Env → Candidate → Bool
eligible env c =
    is_queued_job c.job.state
    && is_queued_run c.run.status
    && (leb c.job.available_at env.now || c.cleanup)
    && not (env.is_locked c.job.id)

-- JOIN runs, JOIN issues: a job with no run or no issue is no row.
unfoldable pub candidate_of : Db → SchedulerJob → Option Run → List Candidate
candidate_of db job none = []
candidate_of db job (some run) =
    elim (first (λ i. i.project_id == run.project_id && i.id == run.issue_id) db.issues) [
      | none ↦ []
      | some issue ↦
          record {
            job = job;
            run = run;
            cleanup = terminal_parent_cleanup db run;
            priority = issue.priority;
          }
          ∷ []
    ]

unfoldable pub candidates : Db → List SchedulerJob → List Candidate
unfolding candidate_of
candidates db [] = []
candidates db (job ∷ jobs) =
    candidate_of db job (first (is_run job.project_id job.run_id) db.runs) ++ candidates db jobs

-- ORDER BY cleanup DESC NULLS LAST, priority DESC, available_at, created_at, id.
abbrev pub goes_before : Candidate → Candidate → Bool
goes_before a b =
    if a.cleanup
    then (if b.cleanup then by_priority else true)
    else (if b.cleanup then false else by_priority)
  where
    by_id : Bool
    by_id = ltb a.job.id b.job.id

    by_created : Bool
    by_created =
        if ltb a.job.created_at b.job.created_at
        then true
        else (if ltb b.job.created_at a.job.created_at then false else by_id)

    by_available : Bool
    by_available =
        if ltb a.job.available_at b.job.available_at
        then true
        else (if ltb b.job.available_at a.job.available_at then false else by_created)

    by_priority : Bool
    by_priority =
        if ltb b.priority a.priority
        then true
        else (if ltb a.priority b.priority then false else by_available)

-- LEFT JOIN agents and model_profiles.
unfoldable pub configuration : Db → Run → Option (ℕ × ℕ)
configuration db run =
    elim (first (λ (a : Agent). is_value run.agent_id a.id && in_scope a.project_id run.project_id)
      db.agents) [
        | none ↦ none
        | some agent ↦
            elim (first
              (λ (m : ModelProfile).
                m.id == agent.model_profile_id && in_scope m.project_id run.project_id)
              db.models) [ none ↦ none | some model ↦ some (agent.id, model.id) ]
      ]

-- lockNextAdmissionCandidate; no row is `none`.
unfoldable pub next_candidate : Env → Db → Option Candidate
unfolding best candidates
next_candidate env db = best goes_before none (select (eligible env) (candidates db db.jobs))
