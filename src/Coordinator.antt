-- ===== src/Coordinator.antt =====
-- apps/server/internal/scheduler/coordinator.go: what the coordinator is made of, and what a worker
-- does with the processor's result.
pub mod Registry
pub mod Workers
pub mod Outcome
pub mod Settings
use agent_board.Prelude.{
  ℕ, Bool, true, false, not, ◌&&◌, ◌||◌, Option, none, some, ◌==◌, ltb, leb, if◌then◌else◌,
}
use agent_board.Prelude.Text.{Text, is_blank}
use agent_board.Store.Types.{RunStatus}

-- A func(error) of the caller, by a number, and the one that does nothing.
pub data ErrorReporter : Type 0 where
  reports : ℕ → ErrorReporter
  discards : ErrorReporter

-- Config. A duration is a whole number of nanoseconds; one that is not positive is 0. A publisher
-- is a number, `none` where it is nil.
pub record Config : Type 0 where
  pub owner_id : Text
  pub poll_interval : ℕ
  pub lease_duration : ℕ
  pub heartbeat_interval : ℕ
  pub capacity_backoff : ℕ
  pub max_in_flight : ℕ
  pub report_error : Option ErrorReporter
  pub persisted_events : Option ℕ

-- DefaultConfig
abbrev pub default_config : Text → Config
default_config owner_id = record {
  owner_id = owner_id;
  poll_interval = 250000000;
  lease_duration = 30000000000;
  heartbeat_interval = 10000000000;
  capacity_backoff = 1000000000;
  max_in_flight = 32;
  report_error = none;
  persisted_events = none;
}

pub data ConfigError : Type 0 where
  parts_required owner_required durations_not_positive heartbeat_too_long no_slot : ConfigError

pub data Checked : Type 0 where
  accepted : Config → Checked
  refused : ConfigError → Checked

-- A nil ReportError is replaced by one that does nothing.
abbrev pub with_reporter : Option ErrorReporter → Config → Config
with_reporter none config = record config { report_error = some discards }
with_reporter (some _) config = config

-- New: `parts` says that the store, the processor and the reconciler are all given.
unfoldable pub new_coordinator : Bool → Config → Checked
new_coordinator parts config =
    if not parts
    then refused parts_required
    else if is_blank config.owner_id
    then refused owner_required
    else if config.poll_interval == 0
        || config.lease_duration == 0
        || config.heartbeat_interval == 0
        || config.capacity_backoff == 0
    then refused durations_not_positive
    else if leb config.lease_duration config.heartbeat_interval
    then refused heartbeat_too_long
    else if ltb config.max_in_flight 1
    then refused no_slot
    else accepted (with_reporter config.report_error config)

-- isFinalProcessorStatus
abbrev pub is_final_processor_status : RunStatus → Bool
is_final_processor_status RunStatus.waiting_for_input = true
is_final_processor_status RunStatus.paused = true
is_final_processor_status RunStatus.ready_for_review = true
is_final_processor_status RunStatus.completed = true
is_final_processor_status RunStatus.failed = true
is_final_processor_status RunStatus.cancelled = true
is_final_processor_status _ = false

-- Result
pub record ProcessorResult : Type 0 where
  pub run_status : RunStatus
  pub failure_reason : Option Text

-- The error of the processor: none, one that is context.Canceled, or another.
pub data ProcessorError : Type 0 where
  no_error canceled other_error : ProcessorError

abbrev pub has_error : ProcessorError → Bool
has_error no_error = false
has_error _ = true

-- What a worker does at its end: it asks the store for a transition, or it drops the result,
-- telling an error or not.
pub data Ending : Type 0 where
  transitions : ProcessorResult → Ending
  drops_reporting drops_silently : Ending

abbrev pub after_error : Bool → ProcessorError → ProcessorResult → Ending
after_error lease_lost canceled result = drops_silently
after_error lease_lost other_error result = drops_reporting
after_error lease_lost no_error result =
    if lease_lost
    then drops_silently
    else if not (is_final_processor_status result.run_status)
    then drops_reporting
    else transitions result

-- process, after the processor has returned: `run_cancellation` says that the cause of its context
-- is ErrRunCancellation.
unfoldable pub process_ending : Bool → Bool → ProcessorResult → ProcessorError → Ending
process_ending run_cancellation lease_lost result error =
    if run_cancellation && (has_error error || not (is_final_processor_status result.run_status))
    then after_error lease_lost no_error
        (record { run_status = RunStatus.cancelled; failure_reason = none })
    else after_error lease_lost error result
