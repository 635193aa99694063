-- ===== src/Scheduler/Operations.antt =====
-- scheduler.go and scheduler_operations.go: enqueueing, renewing a lease, and the low-level
-- operations on leases and capacity.
pub mod Idempotent
use agent_board.Prelude.{
  ℕ, ◌+◌, Bool, true, false, not, ◌&&◌, Option, none, some, [], ◌∷◌, ◌++◌, ◌==◌, coalesce, is_null,
  if◌then◌else◌,
}
use agent_board.Prelude.Rows.{first, any, update}
use agent_board.Store.Types.{
  Run, JobKind, JobState, WaitReason, IdempotencyKey, ResourceKind, SchedulerJob, SchedulerLease,
  Agent, ModelProfile, Db, Env, in_scope, same_kind, same_key,
}
use agent_board.Store.Tx.{
  Result, invalid_argument, not_found, conflict, Tx, ◌>>=◌, ◌>>◌, pure, fail, gets, modify, found,
  guard, transact,
}
use agent_board.Store.Statements.{is_run, insert_job, delete_leases, delete_reservations}
use agent_board.Scheduler.Candidates.{configuration}
use agent_board.Scheduler.Ownership.{is_held}

-- The fields of store.SchedulerJob that EnqueueJob reads.
pub record Enqueue : Type 0 where
  pub project_id : ℕ
  pub run_id : ℕ
  pub kind : Option JobKind
  pub wait_reason : Option WaitReason
  pub idempotency_key : IdempotencyKey
  pub available_at : Option ℕ

abbrev pub is_blank_key : IdempotencyKey → Bool
is_blank_key (IdempotencyKey.given k) = k == 0
is_blank_key _ = false

abbrev pub same_job_kind : JobKind → JobKind → Bool
same_job_kind JobKind.start JobKind.start = true
same_job_kind JobKind.resume JobKind.resume = true
same_job_kind _ _ = false

abbrev pub kind_of : Enqueue → JobKind
kind_of input = coalesce input.kind JobKind.start

-- The run is there, and so are its agent and the agent's model profile.
abbrev pub is_runnable : Enqueue → Db → Option Run → Bool
is_runnable input db none = false
is_runnable input db (some run) = not (is_null (configuration db run))

abbrev pub queued_job : Env → Enqueue → ℕ → SchedulerJob
queued_job env input id = record {
  id = id;
  project_id = input.project_id;
  run_id = input.run_id;
  kind = kind_of input;
  state = JobState.queued;
  wait_reason = input.wait_reason;
  idempotency_key = input.idempotency_key;
  available_at = coalesce input.available_at env.now;
  created_at = env.now;
  updated_at = env.now;
}

-- The job that holds the key already, or the reason why no job was inserted.
unfoldable pub enqueue_again : Enqueue → Option SchedulerJob → Tx SchedulerJob
enqueue_again input (some existing) =
    if existing.project_id == input.project_id
      && existing.run_id == input.run_id
      && same_job_kind existing.kind (kind_of input)
    then pure existing
    else fail conflict
enqueue_again input none = do
  run_exists ← gets (λ db. any (is_run input.project_id input.run_id) db.runs)
  if run_exists then fail conflict else fail not_found

unfoldable pub enqueue_inserted : Enqueue → Option SchedulerJob → Tx SchedulerJob
unfolding enqueue_again
enqueue_inserted input (some job) = pure job
enqueue_inserted input none = do
  existing ← gets (λ db. first (λ j. same_key j.idempotency_key input.idempotency_key) db.jobs)
  enqueue_again input existing

unfoldable pub enqueue_body : Env → Enqueue → Tx SchedulerJob
unfolding enqueue_inserted
enqueue_body env input = do
  runnable ←
      gets (λ db. is_runnable input db (first (is_run input.project_id input.run_id) db.runs))
  id ← gets env.gen_random_uuid
  inserted ← if runnable then insert_job (queued_job env input id) else pure none
  enqueue_inserted input inserted

-- EnqueueJob
unfoldable pub enqueue_job : Env → Enqueue → Db → Result SchedulerJob × Db
unfolding enqueue_body
enqueue_job env input =
    transact
      (if is_blank_key input.idempotency_key then fail invalid_argument else enqueue_body env input)

-- The lease's job is one of the project, and its run is there.
abbrev pub lease_of : ℕ → ℕ → Db → Bool
lease_of project_id job_id db =
    any
      (λ j.
        j.project_id == project_id && j.id == job_id && any (is_run j.project_id j.run_id) db.runs)
      db.jobs

unfoldable pub renew_body : Env → ℕ → ℕ → ℕ → ℕ → Tx SchedulerLease
renew_body env project_id job_id lease_token duration = do
  job ← gets (lease_of project_id job_id)
  row ← gets (λ db. first (is_held env job_id lease_token) db.leases)
  lease ← found (if job then row else none)
  modify (λ db. record db {
    leases =
        update (is_held env job_id lease_token) (λ l. record l { expires_at = env.now + duration })
          db.leases;
  })
  pure (record lease { expires_at = env.now + duration })

-- RenewLease
unfoldable pub renew_lease : Env → ℕ → ℕ → ℕ → ℕ → Db → Result SchedulerLease × Db
unfolding renew_body
renew_lease env project_id job_id lease_token duration = transact (
    if duration == 0
    then fail invalid_argument
    else renew_body env project_id job_id lease_token duration)

-- ReleaseLease
unfoldable pub release_lease : ℕ → ℕ → ℕ → Db → Result (Unit {0}) × Db
release_lease project_id job_id lease_token = transact (do
  job ← gets (λ db. any (λ j. j.id == job_id && j.project_id == project_id) db.jobs)
  deleted ← delete_leases (λ l. job && l.job_id == job_id && l.lease_token == lease_token)
  guard (not (deleted == 0)) not_found)

-- ReleaseCapacity
unfoldable pub release_capacity : ℕ → ℕ → Db → Result (Unit {0}) × Db
release_capacity project_id job_id =
    transact (delete_reservations (λ r. r.project_id == project_id && r.job_id == job_id))

-- The resource is in scope of the project; only agents and model profiles are reserved this way.
abbrev pub resource_exists : ResourceKind → ℕ → ℕ → Db → Bool
resource_exists ResourceKind.agent project_id resource_id db =
    any (λ (a : Agent). a.id == resource_id && in_scope a.project_id project_id) db.agents
resource_exists ResourceKind.model_profile project_id resource_id db =
    any (λ (m : ModelProfile). m.id == resource_id && in_scope m.project_id project_id) db.models
resource_exists ResourceKind.runner project_id resource_id db = false

abbrev pub is_reservable : ResourceKind → Bool
is_reservable ResourceKind.runner = false
is_reservable _ = true

unfoldable pub reserve_body : ℕ → ℕ → ℕ → ResourceKind → ℕ → Tx (Unit {0})
reserve_body project_id job_id run_id kind resource_id = do
  job ← gets (λ db.
      any (λ j. j.id == job_id && j.project_id == project_id && j.run_id == run_id) db.jobs
      && resource_exists kind project_id resource_id db)
  taken ←
      gets (λ db. any (λ r. r.job_id == job_id && same_kind r.resource_kind kind) db.reservations)
  exists ← gets (λ db.
      any
        (λ r.
          r.project_id == project_id
          && r.job_id == job_id
          && r.run_id == run_id
          && same_kind r.resource_kind kind
          && r.resource_id == resource_id)
        db.reservations)
  if job && not taken
      then modify (λ db. record db {
        reservations =
            db.reservations
            ++ record {
              project_id = project_id;
              job_id = job_id;
              run_id = run_id;
              resource_kind = kind;
              resource_id = resource_id;
            }
              ∷ [];
      })
      else guard exists not_found

-- ReserveCapacity
unfoldable pub reserve_capacity : ℕ → ℕ → ℕ → ResourceKind → ℕ → Db → Result (Unit {0}) × Db
unfolding reserve_body
reserve_capacity project_id job_id run_id kind resource_id = transact (
    if is_reservable kind
    then reserve_body project_id job_id run_id kind resource_id
    else fail invalid_argument)
