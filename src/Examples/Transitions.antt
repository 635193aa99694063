-- ===== src/Examples/Transitions.antt =====
-- The scheduler's transitions on the board.
use agent_board.Prelude.{ℕ, ◌≡◌, refl, true, false, some, none}
use agent_board.Store.Types.{RunStatus, Db, Env}
use agent_board.Store.Tx.{Result, ok, err, not_found}
use agent_board.Scheduler.Operations.{enqueue_job}
use agent_board.Scheduler.Admission.{admit_next_job}
use agent_board.Scheduler.RunStates.{
  Effects, valid_scheduler_run_transition, scheduler_transition_effects,
}
use agent_board.Scheduler.RunStates.Graph.{Agrees, scheduler_transition_effects-Agrees}
use agent_board.Coordinator.{canceled, process_ending}
use agent_board.Coordinator.Outcome.{process_ending-Released}
use agent_board.Scheduler.Transition.Release.{Released, transition_admitted_job-Released}
use agent_board.Scheduler.Transition.{Transition, Mutation, transition_admitted_job}
use agent_board.Scheduler.Transition.Fencing.{
  Fenced, transition_admitted_job-stale, transition_admitted_job-Fenced,
}
use agent_board.Examples.Board.{board, at_time, enqueue_of, to_status, queued_run}
use agent_board.Examples.Computes.{computes}

abbrev enqueued : Db
enqueued = (enqueue_job (at_time 20) (enqueue_of 1) board).1

abbrev admitted : Db
admitted = (admit_next_job (at_time 30) 7 1000 10 enqueued).1

abbrev mutation : Result Mutation → Mutation
mutation (ok m) = m
mutation (err e) = record { run = queued_run 1 1; events = agent_board.Prelude.[] }

abbrev running : Result Mutation × Db
running = transition_admitted_job (at_time 40) (to_status RunStatus.running) admitted

transition_admitted_job-Fenced_example : Fenced (at_time 40) (to_status RunStatus.running) admitted
unfolding computes
transition_admitted_job-Fenced_example =
    transition_admitted_job-Fenced (at_time 40) (to_status RunStatus.running) admitted
      (mutation running.0) running.1 refl

transition_admitted_job-stale_example :
    transition_admitted_job (at_time 1030) (to_status RunStatus.completed) admitted
    ≡ (err not_found, admitted)
unfolding computes
transition_admitted_job-stale_example =
    transition_admitted_job-stale (at_time 1030) (to_status RunStatus.completed) admitted refl refl

abbrev completed : Result Mutation × Db
completed = transition_admitted_job (at_time 50) (to_status RunStatus.completed) running.1

transition_admitted_job-Released_example : Released (to_status RunStatus.completed) completed.1
unfolding computes
transition_admitted_job-Released_example =
    transition_admitted_job-Released (at_time 50) (to_status RunStatus.completed) running.1
      (mutation completed.0) completed.1 refl refl

scheduler_transition_effects-Agrees_example :
    (e : Effects) × (scheduler_transition_effects RunStatus.paused ≡ some e)
    × Agrees RunStatus.paused e
unfolding valid_scheduler_run_transition
scheduler_transition_effects-Agrees_example =
    scheduler_transition_effects-Agrees RunStatus.running RunStatus.paused refl

process_ending-Released_example :
    (valid_scheduler_run_transition RunStatus.starting RunStatus.cancelled ≡ true)
    × (valid_scheduler_run_transition RunStatus.running RunStatus.cancelled ≡ true)
    × ((env : Env) (input : Transition) (db : Db) (m : Mutation) (db' : Db)
        → input.run_status ≡ RunStatus.cancelled
        → transition_admitted_job env input db ≡ (ok m, db')
        → Released input db')
unfolding process_ending
process_ending-Released_example =
    process_ending-Released true false
      (record { run_status = RunStatus.running; failure_reason = none })
      (record { run_status = RunStatus.cancelled; failure_reason = none }) canceled refl
