-- ===== src/Scheduler/Frame/Transitions.antt =====
-- Transitions, reconciliations and the lease operations, under an invariant that fills `Frame`.
use agent_board.Prelude.{ℕ, refl, Option, none, some, List, [], ◌∷◌, Bool, true, false}
use agent_board.Prelude.Text.{Text}
use agent_board.Store.Types.{Run, RunStatus, JobState, SchedulerJob, Review, Question, Db, Env}
use agent_board.Store.Tx.{Tx}
use agent_board.Store.Rules.{Keeps}
use agent_board.Store.Keeps.{Keeps-then}
use agent_board.Store.Events.{append_event}
use agent_board.Scheduler.Questions.{
  question_event, append_question_events, cleanup_terminal_questions,
}
use agent_board.Scheduler.Reviews.{insert_review, create_pending_review}
use agent_board.Scheduler.Handoffs.{release_ready_handoffs}
use agent_board.Scheduler.Ownership.{lock_fenced_run, release_ownership}
use agent_board.Scheduler.RunStates.{Effects}
use agent_board.Scheduler.Transition.{
  Transition, when, transition_fences, transition_consequences, release_job, transition_run,
  transition_body,
}
use agent_board.Scheduler.Reconciliation.{
  Reconciliation, Outcome, retry_run, resolve_terminal, yield_workspace, recover_handoff,
  resolve_outcome, resolve_body,
}
use agent_board.Scheduler.Operations.{
  Enqueue, enqueue_again, enqueue_inserted, enqueue_body, renew_body,
}
use agent_board.Scheduler.Frame.{Frame, KeepsKeys, Unended}
use mathlib.Core.Option.{some-injective}
use agent_board.Prelude.{◌≡◌, refl, sym, ap, ◌∙◌, Bool-cases, inl, inr, arith}
use agent_board.Prelude.Rows.{first}
use agent_board.Store.Types.{is_terminal}
use agent_board.Store.Rules.{
  Ensures, Ensures-bind, Ensures-then, Ensures-gets, Ensures-found, Ensures-guard, Ensures-fail,
}
use agent_board.Store.Keeps.{
  keeps_rules, Keeps-guard, Keeps-found, Keeps-gets, Keeps-bind, Keeps-pure,
}
use agent_board.Store.Statements.{is_run, update_run}
use agent_board.Scheduler.Fences.{active_run_execution_session, unfinished_parent_delegation}
use agent_board.Scheduler.RunStates.{valid_scheduler_run_transition}
use agent_board.Scheduler.RunStates.Graph.{valid_scheduler_run_transition-terminal}
use agent_board.Scheduler.Transition.{transitioned}
use agent_board.Scheduler.Frame.Steps.{steps, append_event-Keeps}
use agent_board.Scheduler.Frame.Parts.{
  active_run_execution_session-Keeps, unfinished_parent_delegation-Keeps,
  delegated_parent_terminal-Keeps, finalize_delegated_run-Keeps,
}

-- A run that a transition may leave has not ended.
fenced-Unended :
    (run : Run) (to : RunStatus)
    → valid_scheduler_run_transition run.status to ≡ true
    → (x : Run) → some run ≡ some x
    → is_terminal x.status ≡ false
fenced-Unended run to valid x e = elim (Bool-cases (is_terminal run.status)) [
  | inl t ↦ absurd (ground (arith, valid, valid_scheduler_run_transition-terminal run.status to t))
  | inr t ↦ ap (λ (y : Run). is_terminal y.status) (sym (some-injective run x e)) ∙ t
]

module _ {P : Db → Type 0} (F : Frame P) where
  append_question_events-Keeps :
      (env : Env) (run : Run) (qs : List Question) → Keeps P (append_question_events env run qs)
  unfolding append_question_events
  append_question_events-Keeps env run [] = search steps
  append_question_events-Keeps env run (q ∷ qs) =
      Keeps-then (append_event env (question_event run q.id)) _ (append_event-Keeps F env _)
        (append_question_events-Keeps env run qs)

  cleanup_terminal_questions-Keeps :
      (env : Env) (run : Run) → Keeps P (cleanup_terminal_questions env run)
  unfolding cleanup_terminal_questions
  cleanup_terminal_questions-Keeps env run = search (F, steps, append_question_events-Keeps)

  insert_review-Keeps :
      (run : Run) (base review : Text) (o : Option Review)
      → Keeps P (insert_review run base review o)
  unfolding insert_review
  insert_review-Keeps run base review none = search (F, steps)
  insert_review-Keeps run base review (some r) = search steps

  create_pending_review-Keeps : (run : Run) → Keeps P (create_pending_review run)
  unfolding create_pending_review
  create_pending_review-Keeps run = search (steps, insert_review-Keeps) depth 12

  release_ready_handoffs-Keeps : (env : Env) (run : Run) → Keeps P (release_ready_handoffs env run)
  unfolding release_ready_handoffs
  release_ready_handoffs-Keeps env run = search (F, steps) depth 12

  lock_fenced_run-Keeps : (env : Env) (p j r t : ℕ) → Keeps P (lock_fenced_run env p j r t)
  unfolding lock_fenced_run
  lock_fenced_run-Keeps env p j r t = search steps depth 12

  release_ownership-Keeps : (p j t : ℕ) → Keeps P (release_ownership p j t)
  unfolding release_ownership
  release_ownership-Keeps p j t = search (F, steps)

  when-Keeps : (b : Bool) (m : Tx (Unit {0})) → Keeps P m → Keeps P (when b m)
  when-Keeps true m h = h
  when-Keeps false m h = search steps

  transition_fences-Keeps : (run : Run) (input : Transition) → Keeps P (transition_fences run input)
  unfolding transition_fences
  transition_fences-Keeps run input =
      search (F, steps, active_run_execution_session-Keeps, unfinished_parent_delegation-Keeps)
        depth 12

  transition_consequences-Keeps :
      (env : Env) (input : Transition) (e : Effects) (current run : Run)
      → Keeps P (transition_consequences env input e current run)
  unfolding transition_consequences
  transition_consequences-Keeps env input e current run =
      search
        (
          steps, when-Keeps, cleanup_terminal_questions-Keeps, create_pending_review-Keeps,
          release_ready_handoffs-Keeps, finalize_delegated_run-Keeps,
        )
        depth 12

  release_job-Keeps :
      (env : Env) (input : Transition) (e : Effects) → Keeps P (release_job env input e)
  unfolding release_job
  release_job-Keeps env input e = search (F, steps) depth 12

  -- The write of the new status, to a run that has not ended.
  update_run-fenced :
      (p r : ℕ) (change : Run → Run)
      → KeepsKeys change
      → Ensures (λ db. P db × Unended p r db) (update_run (is_run p r) change) (λ _ db. P db)
  unfolding update_run
  update_run-fenced p r change h =
      Ensures-bind _ _ (Keeps-gets _)
        λ row. Ensures-then _ _ (F.fenced p r change h) (Keeps-found _)

  -- The fences read, and write nothing.
  transition_fences-reads :
      {R : Db → Type 0} (run : Run) (input : Transition) → Keeps R (transition_fences run input)
  unfolding transition_fences active_run_execution_session unfinished_parent_delegation
  transition_fences-reads run input = search keeps_rules depth 12

  transition_run-Keeps :
      (env : Env) (input : Transition) (run : Run) (o : Option Effects)
      → Ensures
          (λ db. P db × Unended input.project_id input.run_id db)
          (transition_run env input run o)
          (λ _ db. P db)
  unfolding transition_run
  transition_run-Keeps env input run none = Ensures-fail _
  transition_run-Keeps env input run (some e) = Ensures-then _ _ (Keeps-guard _ _) (
      Ensures-then _ _ (transition_fences-reads run input) (
        Ensures-bind _ _
          (update_run-fenced input.project_id input.run_id (transitioned env input e)
            (λ r. (refl, refl)))
          λ updated.
            Keeps-bind _ _ (transition_consequences-Keeps env input e run updated) λ events.
              Keeps-then _ _ (when-Keeps e.release _ (release_job-Keeps env input e))
                (Keeps-pure _)))

  lock_fenced_run-finds :
      (env : Env) (p j r t : ℕ)
      → Ensures P
          (lock_fenced_run env p j r t)
          (λ run db. P db × (first (is_run p r) db.runs ≡ some run))
  unfolding lock_fenced_run
  lock_fenced_run-finds env p j r t = Ensures-bind _ _ (Keeps-gets _) λ job.
      Ensures-bind _ _ (Keeps-gets _) λ lease.
        Ensures-bind {Q = λ row db. P db × (first (is_run p r) db.runs ≡ row)} _ _
          (Ensures-gets _ (λ db h. (h, refl)))
          λ row. Ensures-found _ (λ run e db h. (h.0, ground (arith, h.1, e)))

  pub transition_body-Keeps : (env : Env) (input : Transition) → Keeps P (transition_body env input)
  unfolding transition_body
  transition_body-Keeps env input =
      Ensures-bind _ _
        (lock_fenced_run-finds env input.project_id input.job_id input.run_id input.lease_token)
        λ run.
          Ensures-then _ _
            (Ensures-guard _ _ (λ valid db h.
              (h.0, λ x e. fenced-Unended run input.run_status valid x (sym h.1 ∙ e))))
            (transition_run-Keeps env input run _)

  retry_run-Keeps : (env : Env) (input : Reconciliation) → Keeps P (retry_run env input)
  unfolding retry_run
  retry_run-Keeps env input = search (F, steps, release_ownership-Keeps) depth 14

  resolve_terminal-Keeps :
      (env : Env) (input : Reconciliation) (s : RunStatus) (j : JobState) (o : Option Text)
      → Keeps P (resolve_terminal env input s j o)
  unfolding resolve_terminal
  resolve_terminal-Keeps env input s j o =
      search (F, steps, finalize_delegated_run-Keeps, release_ownership-Keeps) depth 14

  yield_workspace-Keeps :
      (env : Env) (input : Reconciliation) (run : Run) → Keeps P (yield_workspace env input run)
  unfolding yield_workspace
  yield_workspace-Keeps env input run =
      search (F, steps, release_ready_handoffs-Keeps, release_ownership-Keeps) depth 14

  recover_handoff-Keeps :
      (env : Env) (input : Reconciliation) (run : Run) → Keeps P (recover_handoff env input run)
  unfolding recover_handoff
  recover_handoff-Keeps env input run =
      search (F, steps, active_run_execution_session-Keeps, yield_workspace-Keeps) depth 9

  resolve_outcome-Keeps :
      (env : Env) (input : Reconciliation) (run : Run) (o : Outcome)
      → Keeps P (resolve_outcome env input run o)
  unfolding resolve_outcome
  resolve_outcome-Keeps env input run Outcome.unknown = recover_handoff-Keeps env input run
  resolve_outcome-Keeps env input run Outcome.retry = retry_run-Keeps env input
  resolve_outcome-Keeps env input run Outcome.completed = resolve_terminal-Keeps env input _ _ _
  resolve_outcome-Keeps env input run Outcome.failed = search (steps, resolve_terminal-Keeps)
  resolve_outcome-Keeps env input run Outcome.cancelled = resolve_terminal-Keeps env input _ _ _
  resolve_outcome-Keeps env input run _ = search steps

  pub resolve_body-Keeps : (env : Env) (input : Reconciliation) → Keeps P (resolve_body env input)
  unfolding resolve_body
  resolve_body-Keeps env input =
      search (steps, lock_fenced_run-Keeps, delegated_parent_terminal-Keeps, resolve_outcome-Keeps)
        depth 9

  enqueue_again-Keeps :
      (input : Enqueue) (o : Option SchedulerJob) → Keeps P (enqueue_again input o)
  unfolding enqueue_again
  enqueue_again-Keeps input none = search steps
  enqueue_again-Keeps input (some job) = search steps

  enqueue_inserted-Keeps :
      (input : Enqueue) (o : Option SchedulerJob) → Keeps P (enqueue_inserted input o)
  unfolding enqueue_inserted
  enqueue_inserted-Keeps input none = search (steps, enqueue_again-Keeps)
  enqueue_inserted-Keeps input (some job) = search steps

  pub enqueue_body-Keeps : (env : Env) (input : Enqueue) → Keeps P (enqueue_body env input)
  unfolding enqueue_body
  enqueue_body-Keeps env input = search (F, steps, enqueue_inserted-Keeps) depth 12

  pub renew_body-Keeps : (env : Env) (p j t duration : ℕ) → Keeps P (renew_body env p j t duration)
  unfolding renew_body
  renew_body-Keeps env p j t duration = search (F, steps) depth 12
