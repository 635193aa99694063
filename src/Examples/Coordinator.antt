-- ===== src/Examples/Coordinator.antt =====
-- The coordinator and a session's stream buffer on small inputs.
use agent_board.Prelude.{ℕ, ◌≡◌, some, is_null, refl, true, false, not, ◌||◌, none, List, [], ◌∷◌}
use agent_board.Prelude.Text.{Text, is_blank, text_eq}
use agent_board.Prelude.Rows.{first, delete}
use agent_board.Store.Types.{RunStatus}
use agent_board.Coordinator.{
  Config, discards, accepted, new_coordinator, default_config, ProcessorResult, canceled, has_error,
  is_final_processor_status, transitions, process_ending,
}
use agent_board.Coordinator.Settings.{Sane, new_coordinator-Sane}
use agent_board.Coordinator.Outcome.{process_ending-outcome}
use agent_board.Coordinator.Registry.{
  ActiveRun, Registry, new_registry, active_run_key, register_active_run, unregister_active_run,
  cancel_run,
}
use agent_board.Coordinator.Registry.Reach.{
  Op, registers, unregisters, run_ops, all_spare, cancel_run-reaches,
  unregister_active_run-unreached,
}
use agent_board.Coordinator.Workers.{reconcile_active, admit_nothing, admitted}
use agent_board.Coordinator.Workers.Slots.{passes, ends, run_turns, Balanced, run_turns-Balanced}
use agent_board.Sessions.StreamBuffer.History.{writes, reads, closes, started, Sound}
use agent_board.Sessions.StreamBuffer.History

abbrev owner : Text
owner = 119 ∷ []

abbrev settings : Config
settings = default_config owner

new_coordinator-Sane_example :
    ((c : Config)
      → new_coordinator true settings ≡ accepted c
      → (c ≡ record settings { report_error = some discards }) × (true ≡ true) × Sane settings)
    × (true ≡ true
        → Sane settings
        → new_coordinator true settings
          ≡ accepted (record settings { report_error = some discards }))
    × ((c : Config) → new_coordinator true settings ≡ accepted c → is_null c.report_error ≡ false)
    × ((o : Text) → is_blank o ≡ false → Sane (default_config o))
new_coordinator-Sane_example = new_coordinator-Sane true settings

abbrev still_running : ProcessorResult
still_running = record { run_status = RunStatus.running; failure_reason = none }

process_ending-outcome_example :
    (false ≡ false
      → has_error canceled ≡ false
      → is_final_processor_status still_running.run_status ≡ true
      → process_ending true false still_running canceled ≡ transitions still_running)
    × (false ≡ false
        → true ≡ true
        → (has_error canceled || not (is_final_processor_status still_running.run_status)) ≡ true
        → process_ending true false still_running canceled
          ≡ transitions (record { run_status = RunStatus.cancelled; failure_reason = none }))
    × (false ≡ true
        → (r : ProcessorResult) → process_ending true false still_running canceled ≡ transitions r
        → ⊥)
process_ending-outcome_example = process_ending-outcome true false still_running canceled

abbrev project : Text
project = 112 ∷ []

abbrev run : Text
run = 114 ∷ []

-- The worker of context 9 takes the run over; the one before it unregisters late.
abbrev first_worker : ℕ × Registry
first_worker = register_active_run project run 8 new_registry

abbrev later : List Op
later = unregisters project run 1 ∷ registers project owner 7 ∷ []

abbrev taken_over : Registry
taken_over = (register_active_run project run 9 first_worker.1).1

cancel_run-reaches_example : cancel_run project run (run_ops taken_over later) ≡ (
  true,
  record (run_ops taken_over later) { cancelled = 9 ∷ (run_ops taken_over later).cancelled },
)
unfolding is_blank text_eq all_spare register_active_run
cancel_run-reaches_example = cancel_run-reaches first_worker.1 project run 9 later refl refl

abbrev registered_9 : ActiveRun
registered_9 = record { key = active_run_key project run; token = 2; cancel = 9 }

unregister_active_run-unreached_example :
    cancel_run project run (unregister_active_run project run 2 taken_over)
    ≡ (false, unregister_active_run project run 2 taken_over)
unfolding text_eq register_active_run first delete
unregister_active_run-unreached_example =
    unregister_active_run-unreached taken_over project run registered_9 refl refl

run_turns-Balanced_example : Balanced 1 (
    run_turns 1
      (record { used = 0; workers = 0 })
      (passes admitted ∷ passes reconcile_active ∷ ends ∷ passes admit_nothing ∷ []))
run_turns-Balanced_example =
    run_turns-Balanced 1
      (passes admitted ∷ passes reconcile_active ∷ ends ∷ passes admit_nothing ∷ [])

run_ops-Sound_example : Sound 2 (
    agent_board.Sessions.StreamBuffer.History.run_ops
      (started 2)
      (writes (1 ∷ 2 ∷ []) ∷ reads 1 ∷ writes (3 ∷ 4 ∷ []) ∷ closes none ∷ reads 5 ∷ []))
run_ops-Sound_example =
    agent_board.Sessions.StreamBuffer.History.run_ops-Sound 2
      (writes (1 ∷ 2 ∷ []) ∷ reads 1 ∷ writes (3 ∷ 4 ∷ []) ∷ closes none ∷ reads 5 ∷ [])
