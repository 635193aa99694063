-- ===== src/Scheduler/Questions.antt =====
-- interactive_question_terminal.go: the open questions of a run that ends while it waits.
use agent_board.Prelude.{ℕ, Bool, true, false, ◌&&◌, none, some, List, [], ◌∷◌, ◌==◌}
use agent_board.Prelude.Rows.{select, update}
use agent_board.Store.Types.{
  Run, QuestionStatus, Question, BindingState, EventType, Payload, Event, Env,
}
use agent_board.Store.Tx.{Tx, ◌>>=◌, ◌>>◌, pure, gets, modify}
use agent_board.Store.Events.{append_event}

abbrev pub is_open_question : ℕ → ℕ → Question → Bool
is_open_question project_id run_id q =
    q.project_id == project_id && q.run_id == run_id && is_open q.status
  where
    is_open : QuestionStatus → Bool
    is_open QuestionStatus.open_question = true
    is_open _ = false

abbrev pub is_unresolved : BindingState → Bool
is_unresolved BindingState.open_binding = true
is_unresolved BindingState.answered = true
is_unresolved _ = false

abbrev pub question_event : Run → ℕ → Event
question_event run question_id = record {
  id = 0;
  type = EventType.question_cancelled;
  occurred_at = 0;
  project_id = run.project_id;
  issue_id = some run.issue_id;
  run_id = some run.id;
  agent_id = run.agent_id;
  workspace_id = some run.workspace_id;
  parent_event_id = none;
  sequence = none;
  payload = Payload.question question_id;
}

unfoldable pub append_question_events : Env → Run → List Question → Tx (Unit {0})
append_question_events env run [] = pure tt
append_question_events env run (q ∷ qs) = do
  append_event env (question_event run q.id)
  append_question_events env run qs

abbrev pub cancel_question : Question → Question
cancel_question q = record q { status = QuestionStatus.cancelled }

-- cleanupTerminalInteractiveQuestions
unfoldable pub cleanup_terminal_questions : Env → Run → Tx (Unit {0})
unfolding append_question_events
cleanup_terminal_questions env run = do
  open_questions ← gets (λ db. select (is_open_question run.project_id run.id) db.questions)
  modify (λ db. record db {
    questions = update (is_open_question run.project_id run.id) cancel_question db.questions;
    bindings =
        update (λ b. b.project_id == run.project_id && b.run_id == run.id && is_unresolved b.state)
          (λ b. record b { state = BindingState.cancelled; updated_at = env.now }) db.bindings;
  })
  append_question_events env run open_questions
