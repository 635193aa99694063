-- ===== src/Coordinator/Outcome.antt =====
-- coordinator.go, process: which result of a processor becomes the run's, and what the store makes
-- of it.
use agent_board.Prelude.{
  ◌≡◌, refl, inl, inr, ◌&&◌, ◌||◌, Bool, true, false, not, none, Bool-cases, arith,
}
use agent_board.Store.Types.{RunStatus, Db, Env, is_starting_or_running}
use agent_board.Store.Tx.{ok}
use agent_board.Scheduler.RunStates.{leaves_worker, valid_scheduler_run_transition}
use agent_board.Scheduler.Transition.{Transition, Mutation, transition_admitted_job}
use agent_board.Scheduler.Transition.Release.{Released, transition_admitted_job-Released}
use agent_board.Coordinator.{
  ProcessorResult, ProcessorError, no_error, canceled, other_error, has_error, transitions,
  is_final_processor_status, after_error, process_ending,
}

final-leaves : (s : RunStatus) → is_final_processor_status s ≡ true → leaves_worker s ≡ true
final-leaves RunStatus.waiting_for_input h = refl
final-leaves RunStatus.paused h = refl
final-leaves RunStatus.ready_for_review h = refl
final-leaves RunStatus.completed h = refl
final-leaves RunStatus.failed h = refl
final-leaves RunStatus.cancelled h = refl
final-leaves _ h = absurd (ground arith)

edge :
    (from to : RunStatus)
    → is_starting_or_running from ≡ true
    → leaves_worker to ≡ true
    → valid_scheduler_run_transition from to ≡ true
unfolding valid_scheduler_run_transition
edge RunStatus.starting RunStatus.running s h = refl
edge RunStatus.running RunStatus.running s h = refl
edge RunStatus.starting _ s h = ground arith
edge RunStatus.running _ s h = ground arith
edge _ to s h = absurd (ground arith)

after_error-final :
    (lost : Bool) (e : ProcessorError) (result r : ProcessorResult)
    → after_error lost e result ≡ transitions r
    → (lost ≡ false) × (is_final_processor_status r.run_status ≡ true)
after_error-final lost canceled result r h = absurd (ground arith)
after_error-final lost other_error result r h = absurd (ground arith)
after_error-final true no_error result r h = absurd (ground arith)
after_error-final false no_error result r h =
    elim (Bool-cases (is_final_processor_status result.run_status)) [
      | inl t ↦ (refl, ground arith)
      | inr t ↦ absurd (ground arith)
    ]

-- A worker asks the store for a transition only while it has not lost its lease, and only to a
-- final status.
process_ending-final :
    (cancelled lost : Bool) (result r : ProcessorResult) (e : ProcessorError)
    → process_ending cancelled lost result e ≡ transitions r
    → (lost ≡ false) × (is_final_processor_status r.run_status ≡ true)
unfolding process_ending
process_ending-final cancelled lost result r e h =
    elim (Bool-cases
      (cancelled && (has_error e || not (is_final_processor_status result.run_status)))) [
        | inl t ↦
            after_error-final lost no_error
              (record { run_status = RunStatus.cancelled; failure_reason = none }) r (ground arith)
        | inr t ↦ after_error-final lost e result r (ground arith)
      ]

-- A processor that returns a final status with no error, under a lease that is not lost, has its
-- result persisted as it is, also where a cancellation of the user raced with it; one that was
-- cancelled, and failed or returned no final status, ends as CANCELLED; and whatever else it
-- returns, a lost lease persists nothing.
pub process_ending-outcome :
    (cancelled lost : Bool) (result : ProcessorResult) (e : ProcessorError)
    → (lost ≡ false
        → has_error e ≡ false
        → is_final_processor_status result.run_status ≡ true
        → process_ending cancelled lost result e ≡ transitions result)
      × (lost ≡ false
          → cancelled ≡ true
          → (has_error e || not (is_final_processor_status result.run_status)) ≡ true
          → process_ending cancelled lost result e
            ≡ transitions (record { run_status = RunStatus.cancelled; failure_reason = none }))
      × (lost ≡ true
          → (r : ProcessorResult) → process_ending cancelled lost result e ≡ transitions r
          → ⊥)
unfolding process_ending
process_ending-outcome cancelled lost result no_error = (
  λ l h f. ground (arith, Bool-cases cancelled),
  λ l c h. ground arith,
  λ l r h. absurd (ground (arith, process_ending-final cancelled lost result r no_error h)),
)
process_ending-outcome cancelled lost result canceled = (
  λ l h f. absurd (ground arith),
  λ l c h. ground arith,
  λ l r h. absurd (ground (arith, process_ending-final cancelled lost result r canceled h)),
)
process_ending-outcome cancelled lost result other_error = (
  λ l h f. absurd (ground arith),
  λ l c h. ground arith,
  λ l r h. absurd (ground (arith, process_ending-final cancelled lost result r other_error h)),
)

-- The transition that a worker asks for at its end is one that the store's graph allows from
-- STARTING and from RUNNING; and where the store grants it, nothing of the worker's claim, lease
-- and capacity reservations is left.
pub process_ending-Released :
    (cancelled lost : Bool) (result r : ProcessorResult) (e : ProcessorError)
    → process_ending cancelled lost result e ≡ transitions r
    → (valid_scheduler_run_transition RunStatus.starting r.run_status ≡ true)
      × (valid_scheduler_run_transition RunStatus.running r.run_status ≡ true)
      × ((env : Env) (input : Transition) (db : Db) (m : Mutation) (db' : Db)
          → input.run_status ≡ r.run_status
          → transition_admitted_job env input db ≡ (ok m, db')
          → Released input db')
unfolding valid_scheduler_run_transition
process_ending-Released cancelled lost result r e h =
    let leaves = final-leaves r.run_status (process_ending-final cancelled lost result r e h).1 in
    (
      edge RunStatus.starting r.run_status refl leaves,
      edge RunStatus.running r.run_status refl leaves,
      λ env input db m db' s t.
          transition_admitted_job-Released env input db m db' (rw (s) leaves) t,
    )
