-- ===== src/Scheduler/Admission.antt =====
-- scheduler.go and runner_admission.go: AdmitNextJob, which gives the next queued job a lease and
-- its capacity reservations in one transaction.

use agent_board.Scheduler.Runners.{reserved, lock_runner_candidate}
use agent_board.Prelude.{
  ℕ, ◌+◌, Bool, false, not, ◌&&◌, ◌||◌, Option, none, some, [], ◌∷◌, ◌++◌, ◌==◌, leb, coalesce,
  if◌then◌else◌,
}
use agent_board.Prelude.Rows.{first, any}
use agent_board.Store.Types.{
  Run, RunStatus, JobState, WaitReason, ResourceKind, SchedulerJob, SchedulerLease, Agent,
  ModelProfile, Db, Env, is_queued_run, is_queued_job, same_kind,
}
use agent_board.Store.Tx.{
  Result, invalid_argument, conflict, database_error, Tx, ◌>>=◌, ◌>>◌, pure, fail, gets, modify,
  found, guard, transact,
}
use agent_board.Store.Statements.{update_run, update_job, set_runs, set_jobs, is_run}
use agent_board.Scheduler.Fences.{
  delegated_parent_terminal, inactive_run_execution_occupied, is_claimed_job, is_live_session,
}
use agent_board.Scheduler.Delegations.{seal_agent_work_requests}
use agent_board.Scheduler.Cancellation.{cancel_inactive_run_tx}
use agent_board.Scheduler.Candidates.{Candidate, configuration, next_candidate}

-- store.SchedulerAdmission
pub record Admission : Type 0 where
  pub runner_id : ℕ
  pub job : SchedulerJob
  pub lease : SchedulerLease
  pub run : Run
  pub agent_id : ℕ
  pub model_profile_id : ℕ

-- Another run of the same workspace that a worker has claimed, or that has a live session.
abbrev pub is_occupying_peer : Db → Run → Run → Bool
is_occupying_peer db run peer =
    peer.project_id == run.project_id
    && peer.workspace_id == run.workspace_id
    && not (peer.id == run.id)
    && (any (is_claimed_job peer.project_id peer.id) db.jobs
        || any (is_live_session peer.project_id peer.id) db.sessions)

-- workspaceAdmissionOccupied
unfoldable pub workspace_admission_occupied : Run → Tx Bool
workspace_admission_occupied run = do
  row ←
      gets (λ db.
        first (λ w. w.project_id == run.project_id && w.id == run.workspace_id) db.workspaces)
  workspace ← found row
  gets (λ db. any (is_occupying_peer db run) db.runs)

-- lockAdmissionResources: the limits of the agent and of the model profile.
unfoldable pub lock_admission_resources : ℕ → ℕ → Tx (ℕ × Option ℕ)
lock_admission_resources agent_id model_profile_id = do
  agent_row ← gets (λ db. first (λ (a : Agent). a.id == agent_id) db.agents)
  agent ← found agent_row
  model_row ← gets (λ db. first (λ (m : ModelProfile). m.id == model_profile_id) db.models)
  model ← found model_row
  pure (agent.concurrency_limit, model.max_concurrent)

-- insertCapacityReservation; a second one of a kind for a job breaks UNIQUE (job_id, resource_kind).
unfoldable pub insert_capacity_reservation : SchedulerJob → Run → ResourceKind → ℕ → Tx (Unit {0})
insert_capacity_reservation job run kind resource_id = do
  taken ←
      gets (λ db. any (λ r. r.job_id == job.id && same_kind r.resource_kind kind) db.reservations)
  guard (not taken) database_error
  modify (λ db. record db {
    reservations =
        db.reservations
        ++ record {
          project_id = job.project_id;
          job_id = job.id;
          run_id = run.id;
          resource_kind = kind;
          resource_id = resource_id;
        }
          ∷ [];
  })

-- deferQueuedJob
unfoldable pub defer_queued_job : Env → SchedulerJob → WaitReason → ℕ → Tx (Unit {0})
defer_queued_job env job reason backoff = do
  set_jobs (λ j. j.id == job.id && is_queued_job j.state)
      (λ j. record j {
        wait_reason = some reason;
        available_at = env.now + backoff;
        updated_at = env.now;
      })
  set_runs (λ r. is_run job.project_id job.run_id r && is_queued_run r.status)
      (λ r. record r { queue_reason = some reason; updated_at = env.now })

-- INSERT INTO scheduler_leases; a second lease of a job breaks its primary key.
unfoldable pub insert_lease : Env → ℕ → ℕ → ℕ → Tx SchedulerLease
insert_lease env job_id owner_id duration = do
  taken ← gets (λ db. any (λ l. l.job_id == job_id) db.leases)
  guard (not taken) conflict
  token ← gets env.gen_random_uuid
  let lease : SchedulerLease = record {
    job_id = job_id;
    owner_id = owner_id;
    lease_token = token;
    acquired_at = env.now;
    expires_at = env.now + duration;
  }
  modify (λ db. record db { leases = db.leases ++ lease ∷ [] })
  pure lease

abbrev pub started_run : Env → Run → Run
started_run env r = record r {
  status = RunStatus.starting;
  queue_reason = none;
  started_at = some (coalesce r.started_at env.now);
  updated_at = env.now;
}

-- The three reservations, the lease, the job and the run of an admission.
unfoldable pub claim_job : Env → ℕ → ℕ → Candidate → ℕ × ℕ → ℕ → Tx Admission
claim_job env owner_id lease_duration c (agent_id, model_profile_id) runner_id = do
  insert_capacity_reservation c.job c.run ResourceKind.runner runner_id
  insert_capacity_reservation c.job c.run ResourceKind.agent agent_id
  insert_capacity_reservation c.job c.run ResourceKind.model_profile model_profile_id
  lease ← insert_lease env c.job.id owner_id lease_duration
  job ←
      update_job
        (λ j.
          j.id == c.job.id
          && j.project_id == c.job.project_id
          && j.run_id == c.job.run_id
          && is_queued_job j.state)
        (λ j. record j { state = JobState.claimed; wait_reason = none; updated_at = env.now })
  run ←
      update_run (λ r. is_run c.run.project_id c.run.id r && is_queued_run r.status)
        (started_run env)
  seal_agent_work_requests env run.project_id run.id
  pure (record {
    runner_id = runner_id;
    job = job;
    lease = lease;
    run = run;
    agent_id = agent_id;
    model_profile_id = model_profile_id;
  })

-- The job waits, and nothing is admitted.
unfoldable pub wait : Env → Candidate → WaitReason → ℕ → Tx (Option Admission)
wait env c reason backoff = do defer_queued_job env c.job reason backoff; pure none

unfoldable pub admit_on_runner : Env → ℕ → ℕ → ℕ → Candidate → ℕ × ℕ → Tx (Option Admission)
unfolding wait
admit_on_runner env owner_id lease_duration backoff c (agent_id, model_profile_id) = do
  runner ← lock_runner_candidate env c.run.project_id agent_id
  elim runner as (λ _. Tx (Option Admission)) [
    | none ↦ wait env c WaitReason.runner_capacity backoff
    | some runner_id ↦ do
      admission ← claim_job env owner_id lease_duration c (agent_id, model_profile_id) runner_id
      pure (some admission)
  ]

-- The model profile has no limit, or one that its reservations reach.
abbrev pub at_limit : ℕ → Option ℕ → Bool
at_limit used none = false
at_limit used (some limit) = leb limit used

unfoldable pub admit_within_limits : Env → ℕ → ℕ → ℕ → Candidate → ℕ × ℕ → Tx (Option Admission)
unfolding admit_on_runner
admit_within_limits env owner_id lease_duration backoff c (agent_id, model_profile_id) = do
  limits ← lock_admission_resources agent_id model_profile_id
  agent_used ← gets (reserved ResourceKind.agent agent_id)
  model_used ← gets (reserved ResourceKind.model_profile model_profile_id)
  if leb limits.0 agent_used
      then wait env c WaitReason.agent_capacity backoff
      else (if at_limit model_used limits.1
          then wait env c WaitReason.model_capacity backoff
          else admit_on_runner env owner_id lease_duration backoff c (agent_id, model_profile_id))

unfoldable pub admit_configured :
    Env → ℕ → ℕ → ℕ → Candidate → Option (ℕ × ℕ) → Tx (Option Admission)
unfolding admit_within_limits
admit_configured env owner_id lease_duration backoff c none =
    wait env c WaitReason.configuration_unavailable backoff
admit_configured env owner_id lease_duration backoff c (some ids) = do
  occupied ← workspace_admission_occupied c.run
  if occupied
      then wait env c WaitReason.workspace_occupied backoff
      else admit_within_limits env owner_id lease_duration backoff c ids

-- A candidate whose delegating parent has ended is cancelled.
unfoldable pub cancel_orphan : Env → Candidate → Tx (Option Admission)
cancel_orphan env c = do
  occupied ← inactive_run_execution_occupied c.run.project_id c.run.id
  if occupied then fail conflict else (do cancel_inactive_run_tx env c.run; pure none)

unfoldable pub admit_candidate : Env → ℕ → ℕ → ℕ → Option Candidate → Tx (Option Admission)
unfolding admit_configured cancel_orphan
admit_candidate env owner_id lease_duration backoff none = pure none
admit_candidate env owner_id lease_duration backoff (some c) = do
  configured ← gets (λ db. configuration db c.run)
  parent_ended ← delegated_parent_terminal c.run
  if parent_ended
      then cancel_orphan env c
      else admit_configured env owner_id lease_duration backoff c configured

unfoldable pub admit_body : Env → ℕ → ℕ → ℕ → Tx (Option Admission)
unfolding admit_candidate
admit_body env owner_id lease_duration backoff = do
  candidate ← gets (next_candidate env)
  admit_candidate env owner_id lease_duration backoff candidate

-- AdmitNextJob. The durations are whole microseconds; one that is not positive is 0.
unfoldable pub admit_next_job : Env → ℕ → ℕ → ℕ → Db → Result (Option Admission) × Db
unfolding admit_body
admit_next_job env owner_id lease_duration backoff = transact (
    if owner_id == 0 || lease_duration == 0 || backoff == 0
    then fail invalid_argument
    else admit_body env owner_id lease_duration backoff)
