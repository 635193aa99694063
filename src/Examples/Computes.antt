-- ===== src/Examples/Computes.antt =====
-- The definitions that a run of the scheduler on the board computes through.
use agent_board.Prelude.Rows.{first, any, select, count, update, delete}
use agent_board.Prelude.Text.{trim_space, is_blank, text_eq, btrim, take_runes}
use agent_board.Prelude.Order.{best}
use agent_board.Store.Tx.{pure, fail, ◌>>=◌, ◌>>◌, gets, modify, found, scanned, guard, transact}
use agent_board.Store.Events.{validate_event_references, take_sequence, append_event}
use agent_board.Store.Statements.{
  get_run, update_run, update_job, set_runs, set_jobs, delete_leases, delete_reservations,
  insert_job,
}
use agent_board.Scheduler.Handoffs.{release_ready_handoffs}
use agent_board.Scheduler.Fences.{
  parent_terminal, fence_delegation, delegated_parent_terminal, active_run_execution_session,
  inactive_run_execution_occupied, unfinished_parent_delegation,
}
use agent_board.Scheduler.Ownership.{lock_fenced_run, release_ownership}
use agent_board.Scheduler.Reconciliation.{
  retry_run, resolve_terminal, yield_workspace, recover_handoff, resolve_outcome, resolve_body,
  resolve_reconciliation,
}
use agent_board.Scheduler.Operations.{
  enqueue_again, enqueue_inserted, enqueue_body, enqueue_job, renew_body, renew_lease,
  release_lease, release_capacity, reserve_body, reserve_capacity,
}
use agent_board.Scheduler.Cancellation.{
  cancel_inactive_run_tx, cancellation_fence, cancel_body, cancel_inactive_run,
}
use agent_board.Scheduler.Admission.{
  workspace_admission_occupied, lock_admission_resources, insert_capacity_reservation,
  defer_queued_job, insert_lease, claim_job, wait, admit_on_runner, admit_within_limits,
  admit_configured, cancel_orphan, admit_candidate, admit_body, admit_next_job,
}
use agent_board.Scheduler.Reviews.{insert_review, create_pending_review}
use agent_board.Scheduler.Runners.{runner_in, lock_runner_candidate}
use agent_board.Scheduler.Finalize.{
  resume_job, ensure_delegation_resume_job, continue_parent, parent_of, set_outcome, settle,
  finalize_delegation, finalize_delegated_run,
}
use agent_board.Scheduler.Delegations.{
  seal_agent_work_requests, close_agent_work_requests, delegation_terminal_outcome,
  bound_delegation_result, delegated_result_evidence, delegated_workspace_accepted,
}
use agent_board.Scheduler.Candidates.{
  terminal_parent_cleanup, candidate_of, candidates, configuration, next_candidate,
}
use agent_board.Scheduler.RunStates.{valid_scheduler_run_transition, scheduler_transition_effects}
use agent_board.Scheduler.Transition.{
  transition_fences, transition_consequences, release_job, transition_run, transition_body,
  transition_admitted_job,
}
use agent_board.Scheduler.Questions.{append_question_events, cleanup_terminal_questions}

unfoldable pub computes : Unit {0}
unfolding first any select count update delete trim_space is_blank text_eq btrim take_runes best
    pure fail ◌>>=◌ ◌>>◌ gets modify found scanned guard transact validate_event_references
    take_sequence append_event get_run update_run update_job set_runs set_jobs delete_leases
    delete_reservations insert_job release_ready_handoffs parent_terminal fence_delegation
    delegated_parent_terminal active_run_execution_session inactive_run_execution_occupied
    unfinished_parent_delegation lock_fenced_run release_ownership retry_run resolve_terminal
    yield_workspace recover_handoff resolve_outcome resolve_body resolve_reconciliation
    enqueue_again enqueue_inserted enqueue_body enqueue_job renew_body renew_lease release_lease
    release_capacity reserve_body reserve_capacity cancel_inactive_run_tx cancellation_fence
    cancel_body cancel_inactive_run workspace_admission_occupied lock_admission_resources
    insert_capacity_reservation defer_queued_job insert_lease claim_job wait admit_on_runner
    admit_within_limits admit_configured cancel_orphan admit_candidate admit_body admit_next_job
    insert_review create_pending_review runner_in lock_runner_candidate resume_job
    ensure_delegation_resume_job continue_parent parent_of set_outcome settle finalize_delegation
    finalize_delegated_run seal_agent_work_requests close_agent_work_requests
    delegation_terminal_outcome bound_delegation_result delegated_result_evidence
    delegated_workspace_accepted terminal_parent_cleanup candidate_of candidates configuration
    next_candidate valid_scheduler_run_transition scheduler_transition_effects transition_fences
    transition_consequences release_job transition_run transition_body transition_admitted_job
    append_question_events cleanup_terminal_questions
computes = tt
