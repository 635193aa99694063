-- ===== src/Scheduler/Frame/History.antt =====
-- Histories, under an invariant that fills `Frame` and that an admission keeps.
use agent_board.Prelude.{ℕ, List, [], ◌∷◌, Bool, ◌||◌, ◌==◌, if◌then◌else◌}
use agent_board.Store.Types.{Db, Env}
use agent_board.Store.Tx.{Tx, invalid_argument, fail, transact}
use agent_board.Store.Rules.{Keeps}
use agent_board.Store.Keeps.{
  Keeps-bind, Keeps-gets, Keeps-guard, transact-Keeps, Keeps-if, Keeps-fail,
}
use agent_board.Scheduler.Admission.{admit_next_job}
use agent_board.Scheduler.Cancellation.{cancel_inactive_run}
use agent_board.Scheduler.Transition.{transition_admitted_job}
use agent_board.Scheduler.Reconciliation.{is_unset, resolve_reconciliation}
use agent_board.Scheduler.Expiry.{claim_expired_job_for_reconciliation}
use agent_board.Scheduler.Frame.Expiry.{claim_expired_body-Keeps}
use agent_board.Scheduler.Operations.{
  is_blank_key, enqueue_job, renew_lease, release_lease, release_capacity,
}
use agent_board.Scheduler.Calls.{
  Call, enqueues, admits, renews, transitions, claims_expired, reconciles, cancels, releases_lease,
  releases_capacity, step, run_calls,
}
use agent_board.Scheduler.Frame.Steps.{delete_leases-Keeps, delete_reservations-Keeps}
use agent_board.Scheduler.Frame.Parts.{cancel_body-Keeps}
use agent_board.Scheduler.Frame.Transitions.{
  transition_body-Keeps, resolve_body-Keeps, enqueue_body-Keeps, renew_body-Keeps,
}
use agent_board.Scheduler.Frame.{Frame}
use agent_board.Scheduler.Admission.{admit_next_job}

module _ {P : Db → Type 0} (F : Frame P)
    (admit : (env : Env) (owner_id lease_duration backoff : ℕ) (db : Db)
      → P db
      → P (admit_next_job env owner_id lease_duration backoff db).1) where
  guarded-Keeps :
      {A : Type 0} (bad : Bool) (m : Tx A)
      → Keeps P m
      → (db : Db) → P db
      → P (transact (if bad then fail invalid_argument else m) db).1
  guarded-Keeps bad m h db v =
      transact-Keeps _ (Keeps-if bad (fail invalid_argument) m (Keeps-fail _) h) db v

  step-Keeps : (db : Db) (c : Call) → P db → P (step db c)
  unfolding step claim_expired_job_for_reconciliation enqueue_job renew_lease
      transition_admitted_job resolve_reconciliation cancel_inactive_run release_lease
      release_capacity
  step-Keeps db (enqueues env input) v =
      guarded-Keeps (is_blank_key input.idempotency_key) _ (enqueue_body-Keeps F env input) db v
  step-Keeps db (admits env owner lease backoff) v = admit env owner lease backoff db v
  step-Keeps db (renews env p j t duration) v =
      guarded-Keeps (duration == 0) _ (renew_body-Keeps F env p j t duration) db v
  step-Keeps db (transitions env input) v =
      guarded-Keeps
        (input.project_id == 0 || input.job_id == 0 || input.run_id == 0 || input.lease_token == 0)
        _ (transition_body-Keeps F env input) db v
  step-Keeps db (claims_expired env owner duration) v =
      guarded-Keeps (owner == 0 || duration == 0) _ (claim_expired_body-Keeps F env owner duration)
        db v
  step-Keeps db (reconciles env input) v =
      guarded-Keeps
        (input.project_id == 0
          || input.job_id == 0
          || input.run_id == 0
          || input.lease_token == 0
          || is_unset input.outcome)
        _ (resolve_body-Keeps F env input) db v
  step-Keeps db (cancels env p r) v =
      guarded-Keeps (p == 0 || r == 0) _ (cancel_body-Keeps F env p r) db v
  step-Keeps db (releases_lease p j t) v =
      transact-Keeps _
        (Keeps-bind _ _ (Keeps-gets _)
          λ job. Keeps-bind _ _ (delete_leases-Keeps F _) λ deleted. Keeps-guard _ _)
        db v
  step-Keeps db (releases_capacity p j) v = transact-Keeps _ (delete_reservations-Keeps F _) db v

  pub run_calls-Keeps : (db : Db) (calls : List Call) → P db → P (run_calls db calls)
  unfolding run_calls
  run_calls-Keeps db [] v = v
  run_calls-Keeps db (c ∷ cs) v = run_calls-Keeps (step db c) cs (step-Keeps db c v)
