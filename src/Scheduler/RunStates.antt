-- ===== src/Scheduler/RunStates.antt =====
-- scheduler_transition.go: the states of a run, which transitions a worker may make, and what each
-- does to the job.
pub mod Graph
use agent_board.Prelude.{Bool, true, false, Option, none, some}
use agent_board.Store.Types.{RunStatus, JobState}

-- to IN ('WAITING_FOR_INPUT','PAUSED','READY_FOR_REVIEW','COMPLETED','FAILED','CANCELLED')
abbrev pub leaves_worker : RunStatus → Bool
leaves_worker RunStatus.waiting_for_input = true
leaves_worker RunStatus.paused = true
leaves_worker RunStatus.ready_for_review = true
leaves_worker RunStatus.completed = true
leaves_worker RunStatus.failed = true
leaves_worker RunStatus.cancelled = true
leaves_worker _ = false

-- validSchedulerRunTransition
unfoldable pub valid_scheduler_run_transition : RunStatus → RunStatus → Bool
valid_scheduler_run_transition RunStatus.running RunStatus.running = true
valid_scheduler_run_transition RunStatus.starting RunStatus.running = true
valid_scheduler_run_transition RunStatus.starting to = leaves_worker to
valid_scheduler_run_transition RunStatus.running to = leaves_worker to
valid_scheduler_run_transition RunStatus.waiting_for_input RunStatus.failed = true
valid_scheduler_run_transition RunStatus.waiting_for_input RunStatus.cancelled = true
valid_scheduler_run_transition _ _ = false

pub record Effects : Type 0 where
  pub release : Bool
  pub job_state : JobState
  pub terminal : Bool

-- schedulerTransitionEffects
unfoldable pub scheduler_transition_effects : RunStatus → Option Effects
scheduler_transition_effects RunStatus.running =
    some (record { release = false; job_state = JobState.claimed; terminal = false })
scheduler_transition_effects RunStatus.waiting_for_input =
    some (record { release = true; job_state = JobState.done; terminal = false })
scheduler_transition_effects RunStatus.paused =
    some (record { release = true; job_state = JobState.done; terminal = false })
scheduler_transition_effects RunStatus.ready_for_review =
    some (record { release = true; job_state = JobState.done; terminal = false })
scheduler_transition_effects RunStatus.completed =
    some (record { release = true; job_state = JobState.done; terminal = true })
scheduler_transition_effects RunStatus.failed =
    some (record { release = true; job_state = JobState.failed; terminal = true })
scheduler_transition_effects RunStatus.cancelled =
    some (record { release = true; job_state = JobState.cancelled; terminal = true })
scheduler_transition_effects _ = none
