-- ===== src/Scheduler/RunStates/Graph.antt =====
-- The graph of a run's states: where a worker may take it, and what that does to its job.
use agent_board.Prelude.{◌≡◌, refl, Bool, true, false, not, some, arith, ◌||◌}
use agent_board.Store.Types.{RunStatus, unrecognised, is_terminal, is_claimed}
use agent_board.Scheduler.RunStates.{
  Effects, leaves_worker, valid_scheduler_run_transition, scheduler_transition_effects,
}

abbrev pub is_running : RunStatus → Bool
is_running RunStatus.running = true
is_running _ = false

-- A run that has ended stays as it is: no transition leaves COMPLETED, FAILED or CANCELLED.
pub valid_scheduler_run_transition-terminal :
    (from to : RunStatus) → is_terminal from ≡ true → valid_scheduler_run_transition from to ≡ false
unfolding valid_scheduler_run_transition
valid_scheduler_run_transition-terminal RunStatus.completed to h = refl
valid_scheduler_run_transition-terminal RunStatus.failed to h = refl
valid_scheduler_run_transition-terminal RunStatus.cancelled to h = refl
valid_scheduler_run_transition-terminal _ to h = absurd (ground arith)

-- What the effects of a status must be: the job leaves its worker unless the run goes on running,
-- and the run is stamped as completed exactly when its status is an end.
pub record Agrees (to : RunStatus) (e : Effects) : Type 0 where
  pub releases : e.release ≡ not (is_running to)
  pub ends : e.terminal ≡ is_terminal to
  pub keeps_claim : is_claimed e.job_state ≡ is_running to

-- The graph leads to RUNNING and to the statuses that leave the worker, and nowhere else.
unreached :
    (from to : RunStatus)
    → (is_running to || leaves_worker to) ≡ false
    → valid_scheduler_run_transition from to ≡ true
    → ⊥
unfolding valid_scheduler_run_transition
unreached RunStatus.running RunStatus.running n h = ground arith
unreached RunStatus.starting RunStatus.running n h = ground arith
unreached RunStatus.waiting_for_input RunStatus.failed n h = ground arith
unreached RunStatus.waiting_for_input RunStatus.cancelled n h = ground arith
unreached _ _ n h = ground arith

-- Every transition that the graph allows has effects, and they agree with the status reached.
pub scheduler_transition_effects-Agrees :
    (from to : RunStatus)
    → valid_scheduler_run_transition from to ≡ true
    → (e : Effects) × (scheduler_transition_effects to ≡ some e) × Agrees to e
unfolding valid_scheduler_run_transition scheduler_transition_effects
scheduler_transition_effects-Agrees from RunStatus.running h =
    (_, refl, record { releases = refl; ends = refl; keeps_claim = refl })
scheduler_transition_effects-Agrees from RunStatus.waiting_for_input h =
    (_, refl, record { releases = refl; ends = refl; keeps_claim = refl })
scheduler_transition_effects-Agrees from RunStatus.paused h =
    (_, refl, record { releases = refl; ends = refl; keeps_claim = refl })
scheduler_transition_effects-Agrees from RunStatus.ready_for_review h =
    (_, refl, record { releases = refl; ends = refl; keeps_claim = refl })
scheduler_transition_effects-Agrees from RunStatus.completed h =
    (_, refl, record { releases = refl; ends = refl; keeps_claim = refl })
scheduler_transition_effects-Agrees from RunStatus.failed h =
    (_, refl, record { releases = refl; ends = refl; keeps_claim = refl })
scheduler_transition_effects-Agrees from RunStatus.cancelled h =
    (_, refl, record { releases = refl; ends = refl; keeps_claim = refl })
scheduler_transition_effects-Agrees from RunStatus.queued h =
    absurd (unreached from RunStatus.queued refl h)
scheduler_transition_effects-Agrees from RunStatus.starting h =
    absurd (unreached from RunStatus.starting refl h)
scheduler_transition_effects-Agrees from (unrecognised n) h =
    absurd (unreached from (unrecognised n) refl h)
