-- ===== src/Examples/Board.antt =====
-- A board with one agent, one model profile and one runner, and two queued runs.
use agent_board.Prelude.{ℕ, ◌+◌, false, none, some, [], ◌∷◌, length}
use agent_board.Store.Types.{
  Run, RunStatus, SchedulerJob, SchedulerLease, JobKind, JobState, IdempotencyKey, Agent,
  ModelProfile, Workspace, Runner, Project, Db, Env,
}
use agent_board.Scheduler.Operations.{Enqueue}
use agent_board.Scheduler.Transition.{Transition}

abbrev pub queued_run : ℕ → ℕ → Run
queued_run id workspace_id = record {
  id = id;
  project_id = 1;
  issue_id = 1;
  workspace_id = workspace_id;
  agent_id = some 1;
  attempt = 1;
  status = RunStatus.queued;
  queue_reason = none;
  failure_reason = none;
  event_sequence = 0;
  created_at = 10;
  started_at = none;
  completed_at = none;
  updated_at = 10;
}

abbrev pub agent_1 : Agent
agent_1 = record {
  id = 1;
  project_id = some 1;
  engine = 1;
  model_profile_id = 1;
  concurrency_limit = 1;
}

abbrev pub model_1 : ModelProfile
model_1 = record { id = 1; project_id = some 1; max_concurrent = some 1 }

abbrev pub runner_1 : Runner
runner_1 = record {
  id = 1;
  project_id = some 1;
  internal = false;
  revoked = false;
  deleted = false;
  max_active_sessions = some 2;
  created_at = 1;
}

abbrev pub project_1 : Project
project_1 = record { id = 1; allow_internal_runner = false }

abbrev pub workspace : ℕ → Workspace
workspace id = record {
  id = id;
  project_id = 1;
  issue_id = 1;
  base_revision = some (49 ∷ []);
  current_revision = some (50 ∷ []);
}

abbrev pub board : Db
board = record {
  runs = queued_run 1 1 ∷ queued_run 2 2 ∷ [];
  jobs = [];
  leases = [];
  reservations = [];
  agents = agent_1 ∷ [];
  models = model_1 ∷ [];
  issues = record { id = 1; project_id = 1; priority = 3 } ∷ [];
  workspaces = workspace 1 ∷ workspace 2 ∷ [];
  sessions = [];
  delegations = [];
  work_requests = [];
  reviews = [];
  questions = [];
  bindings = [];
  runners = runner_1 ∷ [];
  projects = project_1 ∷ [];
  project_runners = [];
  events = [];
}

-- Ids that no row has yet.
abbrev pub at_time : ℕ → Env
at_time now = record {
  now = now;
  gen_random_uuid = λ db. 100 + length db.jobs + length db.leases + length db.events;
  is_locked = λ _. false;
  runner_candidates = λ _. 1 ∷ [];
}

abbrev pub enqueue_of : ℕ → Enqueue
enqueue_of run_id = record {
  project_id = 1;
  run_id = run_id;
  kind = none;
  wait_reason = none;
  idempotency_key = IdempotencyKey.given run_id;
  available_at = none;
}

abbrev pub to_status : RunStatus → Transition
to_status status = record {
  project_id = 1;
  job_id = 100;
  run_id = 1;
  lease_token = 101;
  run_status = status;
  failure_reason = none;
}

-- The first run has ended.
abbrev pub ended_board : Db
ended_board = record board {
  runs = record (queued_run 1 1) { status = RunStatus.completed } ∷ queued_run 2 2 ∷ [];
}

abbrev pub lease_for : ℕ → ℕ → ℕ → SchedulerLease
lease_for job_id lease_token expires_at = record {
  job_id = job_id;
  owner_id = 7;
  lease_token = lease_token;
  acquired_at = 20;
  expires_at = expires_at;
}

abbrev pub claimed_job : ℕ → ℕ → SchedulerJob
claimed_job id run_id = record {
  id = id;
  project_id = 1;
  run_id = run_id;
  kind = JobKind.start;
  state = JobState.claimed;
  wait_reason = none;
  idempotency_key = IdempotencyKey.given run_id;
  available_at = 20;
  created_at = 20;
  updated_at = 20;
}

-- Two workers, of which the second was lost.
abbrev pub lost_board : Db
lost_board = record board {
  runs =
      record (queued_run 1 1) { status = RunStatus.running }
      ∷ record (queued_run 2 2) { status = RunStatus.running }
      ∷ [];
  jobs = claimed_job 100 1 ∷ claimed_job 200 2 ∷ [];
  leases = lease_for 100 101 500 ∷ lease_for 200 201 50 ∷ [];
}
