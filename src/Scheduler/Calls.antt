-- ===== src/Scheduler/Calls.antt =====
-- The calls of the scheduler's store, and the histories that they make.
use agent_board.Prelude.{ℕ, List, [], ◌∷◌}
use agent_board.Store.Types.{Db, Env}
use agent_board.Scheduler.Admission.{admit_next_job}
use agent_board.Scheduler.Cancellation.{cancel_inactive_run}
use agent_board.Scheduler.Transition.{Transition, transition_admitted_job}
use agent_board.Scheduler.Reconciliation.{Reconciliation, resolve_reconciliation}
use agent_board.Scheduler.Expiry.{claim_expired_job_for_reconciliation}
use agent_board.Scheduler.Operations.{
  Enqueue, enqueue_job, renew_lease, release_lease, release_capacity,
}

-- A call of the store, with what it takes from outside at that moment.
pub data Call : Type 0 where
  enqueues : Env → Enqueue → Call
  admits : Env → (owner_id lease_duration backoff : ℕ) → Call
  renews : Env → (project_id job_id lease_token duration : ℕ) → Call
  transitions : Env → Transition → Call
  claims_expired : Env → (owner_id lease_duration : ℕ) → Call
  reconciles : Env → Reconciliation → Call
  cancels : Env → (project_id run_id : ℕ) → Call
  releases_lease : (project_id job_id lease_token : ℕ) → Call
  releases_capacity : (project_id job_id : ℕ) → Call

-- The database that a call leaves.
unfoldable pub step : Db → Call → Db
step db (enqueues env input) = (enqueue_job env input db).1
step db (admits env owner_id lease_duration backoff) =
    (admit_next_job env owner_id lease_duration backoff db).1
step db (renews env project_id job_id lease_token duration) =
    (renew_lease env project_id job_id lease_token duration db).1
step db (transitions env input) = (transition_admitted_job env input db).1
step db (claims_expired env owner_id lease_duration) =
    (claim_expired_job_for_reconciliation env owner_id lease_duration db).1
step db (reconciles env input) = (resolve_reconciliation env input db).1
step db (cancels env project_id run_id) = (cancel_inactive_run env project_id run_id db).1
step db (releases_lease project_id job_id lease_token) =
    (release_lease project_id job_id lease_token db).1
step db (releases_capacity project_id job_id) = (release_capacity project_id job_id db).1

unfoldable pub run_calls : Db → List Call → Db
run_calls db [] = db
run_calls db (c ∷ cs) = run_calls (step db c) cs
