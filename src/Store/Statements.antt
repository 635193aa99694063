-- ===== src/Store/Statements.antt =====
-- The SQL statements that the scheduler's transactions share
-- (apps/server/internal/store/postgres: execution.go, scheduler_operations.go).
use mathlib.Core.Option
use agent_board.Prelude.{ℕ, Bool, ◌&&◌, ◌==◌, Option, none, some, [], ◌∷◌, ◌++◌, if◌then◌else◌}
use agent_board.Prelude.Rows.{first, any, count, update, delete}
use agent_board.Store.Types.{Run, SchedulerJob, SchedulerLease, Reservation, same_key}
use agent_board.Store.Tx.{Tx, ◌>>=◌, ◌>>◌, pure, gets, modify, found}

abbrev pub is_run : ℕ → ℕ → Run → Bool
is_run project_id run_id r = r.project_id == project_id && r.id == run_id

-- SELECT … FROM runs WHERE project_id=$1 AND id=$2 FOR UPDATE, read by scanRun.
unfoldable pub get_run : ℕ → ℕ → Tx Run
get_run project_id run_id = do
  row ← gets (λ db. first (is_run project_id run_id) db.runs)
  found row

-- UPDATE runs SET … WHERE … RETURNING …, read by scanRun: no row is ErrNotFound.
unfoldable pub update_run : (Run → Bool) → (Run → Run) → Tx Run
update_run test change = do
  row ← gets (λ db. first test db.runs)
  modify (λ db. record db { runs = update test change db.runs })
  found (Option.map change row)

-- UPDATE scheduler_jobs SET … WHERE … RETURNING …, read by scanSchedulerJob.
unfoldable pub update_job : (SchedulerJob → Bool) → (SchedulerJob → SchedulerJob) → Tx SchedulerJob
update_job test change = do
  row ← gets (λ db. first test db.jobs)
  modify (λ db. record db { jobs = update test change db.jobs })
  found (Option.map change row)

-- The same with no RETURNING.
unfoldable pub set_runs : (Run → Bool) → (Run → Run) → Tx (Unit {0})
set_runs test change = modify (λ db. record db { runs = update test change db.runs })

-- UPDATE scheduler_jobs SET … WHERE …, and how many rows it changed.
unfoldable pub set_jobs : (SchedulerJob → Bool) → (SchedulerJob → SchedulerJob) → Tx ℕ
set_jobs test change = do
  changed ← gets (λ db. count test db.jobs)
  modify (λ db. record db { jobs = update test change db.jobs })
  pure changed

-- DELETE FROM scheduler_leases WHERE …, and how many rows it deleted.
unfoldable pub delete_leases : (SchedulerLease → Bool) → Tx ℕ
delete_leases test = do
  deleted ← gets (λ db. count test db.leases)
  modify (λ db. record db { leases = delete test db.leases })
  pure deleted

-- DELETE FROM scheduler_capacity_reservations WHERE …
unfoldable pub delete_reservations : (Reservation → Bool) → Tx (Unit {0})
delete_reservations test = modify (λ db. record db { reservations = delete test db.reservations })

-- INSERT INTO scheduler_jobs … ON CONFLICT (idempotency_key) DO NOTHING RETURNING …
unfoldable pub insert_job : SchedulerJob → Tx (Option SchedulerJob)
insert_job job = do
  taken ← gets (λ db. any (λ j. same_key j.idempotency_key job.idempotency_key) db.jobs)
  if taken
      then pure none
      else modify (λ db. record db { jobs = db.jobs ++ job ∷ [] }) >> pure (some job)
