-- ===== src/Scheduler/Expiry.antt =====
-- scheduler_reconciliation.go: taking over a claimed job whose lease has expired.
pub mod Survival
use mathlib.Core.Option
use agent_board.Prelude.{
  ℕ, ◌+◌, Bool, true, false, not, ◌&&◌, ◌||◌, Option, none, some, List, [], ◌∷◌, ◌++◌, ◌==◌, ltb,
  leb, is_null, is_value, if◌then◌else◌,
}
use agent_board.Prelude.Rows.{first, select, update}
use agent_board.Prelude.Order.{best}
use agent_board.Store.Types.{
  Run, RunStatus, JobState, WaitReason, SchedulerJob, SchedulerLease, Agent, ModelProfile, Db, Env,
  in_scope, is_claimed, is_queued_run,
}
use agent_board.Store.Tx.{
  Result, invalid_argument, not_found, Tx, ◌>>=◌, ◌>>◌, pure, fail, gets, modify, found, guard,
  transact,
}
use agent_board.Store.Statements.{is_run, set_runs, set_jobs, delete_leases, delete_reservations}
use agent_board.Scheduler.Candidates.{configuration}
use agent_board.Scheduler.Admission.{Admission}
use agent_board.Scheduler.QuestionRecovery.{resolve_expired_blocking_question}

-- A lease that has run out, its claimed job and the job's run.
pub record Expired : Type 0 where
  pub lease : SchedulerLease
  pub job : SchedulerJob
  pub run : Run

-- JOIN scheduler_jobs, JOIN runs, WHERE and SKIP LOCKED.
abbrev pub is_expired : Env → Expired → Bool
is_expired env e =
    is_claimed e.job.state && leb e.lease.expires_at env.now && not (env.is_locked e.job.id)

unfoldable pub joined : Db → SchedulerLease → Option SchedulerJob → List Expired
joined db lease none = []
joined db lease (some job) = elim (first (is_run job.project_id job.run_id) db.runs) [
  | none ↦ []
  | some run ↦ record { lease = lease; job = job; run = run } ∷ []
]

unfoldable pub leased_jobs : Db → List SchedulerLease → List Expired
unfolding joined
leased_jobs db [] = []
leased_jobs db (lease ∷ leases) =
    joined db lease (first (λ j. j.id == lease.job_id) db.jobs) ++ leased_jobs db leases

-- ORDER BY lease.expires_at, job.created_at, job.id.
abbrev pub expires_before : Expired → Expired → Bool
expires_before a b =
    if ltb a.lease.expires_at b.lease.expires_at
    then true
    else (if ltb b.lease.expires_at a.lease.expires_at then false else by_created)
  where
    by_created : Bool
    by_created =
        if ltb a.job.created_at b.job.created_at
        then true
        else (if ltb b.job.created_at a.job.created_at then false else ltb a.job.id b.job.id)

-- lockExpiredReconciliationCandidate
unfoldable pub expired_candidate : Env → Db → Option Expired
unfolding leased_jobs best
expired_candidate env db =
    best expires_before none (select (is_expired env) (leased_jobs db db.leases))

-- The agent and the model profile of the run, 0 where there is none.
abbrev pub resolved_ids : Db → Run → ℕ × ℕ
resolved_ids db run =
    elim (first (λ (a : Agent). is_value run.agent_id a.id && in_scope a.project_id run.project_id)
      db.agents) [
        | none ↦ (0, 0)
        | some agent ↦
            elim (first
              (λ (m : ModelProfile).
                m.id == agent.model_profile_id && in_scope m.project_id run.project_id)
              db.models) [ none ↦ (agent.id, 0) | some model ↦ (agent.id, model.id) ]
      ]

-- resetInvalidQueuedClaim. The backoff is a second.
unfoldable pub reset_invalid_queued_claim : Env → Expired → Tx (Unit {0})
reset_invalid_queued_claim env e = do
  set_jobs (λ j. j.id == e.job.id && is_claimed j.state)
      (λ j. record j {
        state = JobState.queued;
        wait_reason = some WaitReason.configuration_unavailable;
        available_at = env.now + 1000000;
        updated_at = env.now;
      })
  set_runs (λ r. is_run e.job.project_id e.job.run_id r && is_queued_run r.status)
      (λ r. record r {
        queue_reason = some WaitReason.configuration_unavailable;
        updated_at = env.now;
      })
  delete_reservations (λ r. r.project_id == e.job.project_id && r.job_id == e.job.id)
  deleted ← delete_leases (λ l. l.job_id == e.job.id && l.lease_token == e.lease.lease_token)
  guard (deleted == 1) not_found

-- The lease goes to a new owner, under a new token.
unfoldable pub take_over : Env → ℕ → ℕ → Expired → Tx SchedulerLease
take_over env owner_id lease_duration e = do
  token ← gets env.gen_random_uuid
  let test : SchedulerLease → Bool =
      λ l. l.job_id == e.job.id && l.lease_token == e.lease.lease_token && leb l.expires_at env.now
  let change : SchedulerLease → SchedulerLease = λ l. record l {
    owner_id = owner_id;
    lease_token = token;
    acquired_at = env.now;
    expires_at = env.now + lease_duration;
  }
  row ← gets (λ db. first test db.leases)
  modify (λ db. record db { leases = update test change db.leases })
  found (Option.map change row)

unfoldable pub claim_unresolved : Env → ℕ → ℕ → Expired → Bool → Tx (Option Admission)
unfolding reset_invalid_queued_claim take_over
claim_unresolved env owner_id lease_duration e true = pure none
claim_unresolved env owner_id lease_duration e false = do
  invalid ← gets (λ db. is_queued_run e.run.status && is_null (configuration db e.run))
  ids ← gets (λ db. resolved_ids db e.run)
  if invalid then (do reset_invalid_queued_claim env e; pure none) else (do
    lease ← take_over env owner_id lease_duration e
    pure (
        some (record {
          runner_id = 0;
          job = e.job;
          lease = lease;
          run = e.run;
          agent_id = ids.0;
          model_profile_id = ids.1;
        })))

unfoldable pub claim_expired : Env → ℕ → ℕ → Option Expired → Tx (Option Admission)
unfolding claim_unresolved
claim_expired env owner_id lease_duration none = pure none
claim_expired env owner_id lease_duration (some e) = do
  resolved ← resolve_expired_blocking_question env e.job e.run e.lease
  claim_unresolved env owner_id lease_duration e resolved

unfoldable pub claim_expired_body : Env → ℕ → ℕ → Tx (Option Admission)
unfolding claim_expired
claim_expired_body env owner_id lease_duration = do
  candidate ← gets (expired_candidate env)
  claim_expired env owner_id lease_duration candidate

-- claimExpiredJobForReconciliation
unfoldable pub claim_expired_job_for_reconciliation :
    Env → ℕ → ℕ → Db → Result (Option Admission) × Db
unfolding claim_expired_body
claim_expired_job_for_reconciliation env owner_id lease_duration = transact (
    if owner_id == 0 || lease_duration == 0
    then fail invalid_argument
    else claim_expired_body env owner_id lease_duration)
