-- ===== src/Store/Types.antt =====
-- apps/server/internal/store/types.go and delegation.go: the rows that the scheduler reads and
-- writes, and the database that holds them.
-- An id is a number that stands for the text of the id; 0 is the blank text. Times are microseconds.
use agent_board.Prelude.{ℕ, Bool, true, false, Option, none, some, List, ◌==◌}
use agent_board.Prelude.Text.{Text}

-- runs.status; `unrecognised` is any other text that a caller may pass.
pub data RunStatus : Type 0 where
  queued starting running waiting_for_input paused ready_for_review : RunStatus
  completed failed cancelled : RunStatus
  unrecognised : ℕ → RunStatus

-- scheduler_jobs.state.
pub data JobState : Type 0 where
  queued claimed done cancelled failed : JobState

pub data JobKind : Type 0 where
  start resume : JobKind

-- queue_reason of a run and wait_reason of a job.
pub data WaitReason : Type 0 where
  agent_capacity model_capacity workspace_occupied runner_capacity : WaitReason
  configuration_unavailable reconciliation_retry : WaitReason
  delegation_handoff delegation_handoff_ready : WaitReason
  other_reason : ℕ → WaitReason

pub data ResourceKind : Type 0 where
  agent model_profile runner : ResourceKind

pub record Run : Type 0 where
  pub id : ℕ
  pub project_id : ℕ
  pub issue_id : ℕ
  pub workspace_id : ℕ
  pub agent_id : Option ℕ
  pub attempt : ℕ
  pub status : RunStatus
  pub queue_reason : Option WaitReason
  pub failure_reason : Option Text
  pub event_sequence : ℕ
  pub created_at : ℕ
  pub started_at : Option ℕ
  pub completed_at : Option ℕ
  pub updated_at : ℕ

-- An idempotency key: one that the caller chose, or one that the server derives from a row.
pub data IdempotencyKey : Type 0 where
  given : ℕ → IdempotencyKey
  delegation_resume : ℕ → IdempotencyKey
  question_resume : ℕ → IdempotencyKey

pub record SchedulerJob : Type 0 where
  pub id : ℕ
  pub project_id : ℕ
  pub run_id : ℕ
  pub kind : JobKind
  pub state : JobState
  pub wait_reason : Option WaitReason
  pub idempotency_key : IdempotencyKey
  pub available_at : ℕ
  pub created_at : ℕ
  pub updated_at : ℕ

pub record SchedulerLease : Type 0 where
  pub job_id : ℕ
  pub owner_id : ℕ
  pub lease_token : ℕ
  pub acquired_at : ℕ
  pub expires_at : ℕ

-- scheduler_capacity_reservations.
pub record Reservation : Type 0 where
  pub project_id : ℕ
  pub job_id : ℕ
  pub run_id : ℕ
  pub resource_kind : ResourceKind
  pub resource_id : ℕ

pub record Agent : Type 0 where
  pub id : ℕ
  pub project_id : Option ℕ
  pub engine : ℕ
  pub model_profile_id : ℕ
  pub concurrency_limit : ℕ

pub record ModelProfile : Type 0 where
  pub id : ℕ
  pub project_id : Option ℕ
  pub max_concurrent : Option ℕ

pub record Issue : Type 0 where
  pub id : ℕ
  pub project_id : ℕ
  pub priority : ℕ

pub record Workspace : Type 0 where
  pub id : ℕ
  pub project_id : ℕ
  pub issue_id : ℕ
  pub base_revision : Option Text
  pub current_revision : Option Text

-- execution_sessions.status.
pub data SessionStatus : Type 0 where
  pending starting running completed failed cancelled : SessionStatus

pub record ExecutionSession : Type 0 where
  pub project_id : ℕ
  pub run_id : ℕ
  pub status : SessionStatus

pub data DelegationOutcome : Type 0 where
  succeeded failed cancelled : DelegationOutcome

pub record Delegation : Type 0 where
  pub id : ℕ
  pub project_id : ℕ
  pub issue_id : ℕ
  pub parent_run_id : Option ℕ
  pub parent_agent_id : Option ℕ
  pub source_comment_id : Option ℕ
  pub target_agent_id : ℕ
  pub delegated_run_id : ℕ
  pub outcome : Option DelegationOutcome
  pub result_summary : Option Text
  pub result_event_id : Option ℕ
  pub workspace_changes_accepted : Option Bool
  pub continuation_job_id : Option ℕ
  pub completed_at : Option ℕ
  pub updated_at : ℕ

pub record AgentWorkRequest : Type 0 where
  pub project_id : ℕ
  pub run_id : Option ℕ
  pub sealed_at : Option ℕ
  pub closed_at : Option ℕ
  pub updated_at : ℕ

pub data ReviewStatus : Type 0 where
  pending approved changes_requested cancelled : ReviewStatus

pub record Review : Type 0 where
  pub project_id : ℕ
  pub issue_id : ℕ
  pub run_id : ℕ
  pub status : ReviewStatus
  pub base_revision : Option Text
  pub review_revision : Option Text

pub data QuestionStatus : Type 0 where
  open_question answered cancelled : QuestionStatus

pub record Question : Type 0 where
  pub id : ℕ
  pub project_id : ℕ
  pub run_id : ℕ
  pub blocking : Bool
  pub status : QuestionStatus
  pub created_at : ℕ
  pub answered_at : Option ℕ

-- engine_question_bindings.state.
pub data BindingState : Type 0 where
  open_binding answered resolved cancelled : BindingState

pub record QuestionBinding : Type 0 where
  pub question_id : ℕ
  pub project_id : ℕ
  pub run_id : ℕ
  pub state : BindingState
  pub updated_at : ℕ

pub record Runner : Type 0 where
  pub id : ℕ
  pub project_id : Option ℕ
  pub internal : Bool
  pub revoked : Bool
  pub deleted : Bool
  pub max_active_sessions : Option ℕ  -- NULL or malformed: `none`
  pub created_at : ℕ

pub record Project : Type 0 where
  pub id : ℕ
  pub allow_internal_runner : Bool

-- project_runners.
pub record ProjectRunner : Type 0 where
  pub project_id : ℕ
  pub runner_id : ℕ

pub data EventType : Type 0 where
  agent_message run_failed run_cancelled question_cancelled : EventType
  delegation_completed delegation_failed delegation_cancelled : EventType
  delegation_workspace_accepted workspace_transfer_completed : EventType
  other_event : ℕ → EventType

-- The members of a payload object that the code reads or writes.
pub data Payload : Type 0 where
  members : (message kind reason direction : Option Text) → Payload
  run_status : RunStatus → Payload
  question : ℕ → Payload
  delegation_result :
      (delegation delegated_run : ℕ)
      → DelegationOutcome
      → (result_event : Option ℕ) → Bool
      → (continuation_job : Option ℕ) → Payload

pub record Event : Type 0 where
  pub id : ℕ
  pub type : EventType
  pub occurred_at : ℕ
  pub project_id : ℕ
  pub issue_id : Option ℕ
  pub run_id : Option ℕ
  pub agent_id : Option ℕ
  pub workspace_id : Option ℕ
  pub parent_event_id : Option ℕ
  pub sequence : Option ℕ
  pub payload : Payload

pub record Db : Type 0 where
  pub runs : List Run
  pub jobs : List SchedulerJob
  pub leases : List SchedulerLease
  pub reservations : List Reservation
  pub agents : List Agent
  pub models : List ModelProfile
  pub issues : List Issue
  pub workspaces : List Workspace
  pub sessions : List ExecutionSession
  pub delegations : List Delegation
  pub work_requests : List AgentWorkRequest
  pub reviews : List Review
  pub questions : List Question
  pub bindings : List QuestionBinding
  pub runners : List Runner
  pub projects : List Project
  pub project_runners : List ProjectRunner
  pub events : List Event

-- What a transaction takes from outside the store: the time of `now()`, the ids of
-- `gen_random_uuid()`, the rows that other transactions have locked (a job is named by its id),
-- and the runners that the server has connected for an engine.
pub record Env : Type 0 where
  pub now : ℕ
  pub gen_random_uuid : Db → ℕ
  pub is_locked : ℕ → Bool
  pub runner_candidates : ℕ → List ℕ

abbrev pub is_queued_run : RunStatus → Bool
is_queued_run RunStatus.queued = true
is_queued_run _ = false

-- status IN ('STARTING', 'RUNNING')
abbrev pub is_starting_or_running : RunStatus → Bool
is_starting_or_running RunStatus.starting = true
is_starting_or_running RunStatus.running = true
is_starting_or_running _ = false

-- status IN ('COMPLETED', 'FAILED', 'CANCELLED')
abbrev pub is_terminal : RunStatus → Bool
is_terminal RunStatus.completed = true
is_terminal RunStatus.failed = true
is_terminal RunStatus.cancelled = true
is_terminal _ = false

abbrev pub is_queued_job : JobState → Bool
is_queued_job JobState.queued = true
is_queued_job _ = false

abbrev pub is_claimed : JobState → Bool
is_claimed JobState.claimed = true
is_claimed _ = false

-- status IN ('PENDING', 'STARTING', 'RUNNING')
abbrev pub is_live : SessionStatus → Bool
is_live SessionStatus.pending = true
is_live SessionStatus.starting = true
is_live SessionStatus.running = true
is_live _ = false

abbrev pub is_start : JobKind → Bool
is_start JobKind.start = true
is_start _ = false

abbrev pub is_handoff_ready : Option WaitReason → Bool
is_handoff_ready (some WaitReason.delegation_handoff_ready) = true
is_handoff_ready _ = false

abbrev pub same_kind : ResourceKind → ResourceKind → Bool
same_kind ResourceKind.agent ResourceKind.agent = true
same_kind ResourceKind.model_profile ResourceKind.model_profile = true
same_kind ResourceKind.runner ResourceKind.runner = true
same_kind _ _ = false

abbrev pub same_key : IdempotencyKey → IdempotencyKey → Bool
same_key (given a) (given b) = a == b
same_key (delegation_resume a) (delegation_resume b) = a == b
same_key (question_resume a) (question_resume b) = a == b
same_key _ _ = false

-- A row of the project, or one that belongs to no project.
abbrev pub in_scope : Option ℕ → ℕ → Bool
in_scope none project_id = true
in_scope (some p) project_id = p == project_id
