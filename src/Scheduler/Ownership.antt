-- ===== src/Scheduler/Ownership.antt =====
-- scheduler_transition.go and scheduler_reconciliation.go: who owns a claimed job, and how the
-- ownership ends.
use agent_board.Prelude.{ℕ, Bool, ◌&&◌, none, ◌==◌, ltb, if◌then◌else◌}
use agent_board.Prelude.Rows.{first, any}
use agent_board.Store.Types.{Run, SchedulerJob, SchedulerLease, Env, is_claimed}
use agent_board.Store.Tx.{Tx, ◌>>=◌, ◌>>◌, gets, found}
use agent_board.Store.Statements.{delete_leases, delete_reservations, is_run}

-- The claimed job of a run.
abbrev pub is_claim : ℕ → ℕ → ℕ → SchedulerJob → Bool
is_claim project_id job_id run_id j =
    j.project_id == project_id && j.id == job_id && j.run_id == run_id && is_claimed j.state

-- The unexpired lease that a token names.
abbrev pub is_held : Env → ℕ → ℕ → SchedulerLease → Bool
is_held env job_id lease_token l =
    l.job_id == job_id && l.lease_token == lease_token && ltb env.now l.expires_at

-- lockFencedRun: the run, if the caller still owns its claimed job.
unfoldable pub lock_fenced_run : Env → ℕ → ℕ → ℕ → ℕ → Tx Run
lock_fenced_run env project_id job_id run_id lease_token = do
  job ← gets (λ db. any (is_claim project_id job_id run_id) db.jobs)
  lease ← gets (λ db. any (is_held env job_id lease_token) db.leases)
  row ← gets (λ db. first (is_run project_id run_id) db.runs)
  found (if job && lease then row else none)

-- releaseReconciledOwnership, and the last steps of transitionAdmittedJob: the job's reservations
-- and its lease go together. The count is that of the deleted leases.
unfoldable pub release_ownership : ℕ → ℕ → ℕ → Tx ℕ
release_ownership project_id job_id lease_token = do
  delete_reservations (λ r. r.project_id == project_id && r.job_id == job_id)
  delete_leases (λ l. l.job_id == job_id && l.lease_token == lease_token)
