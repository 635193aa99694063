-- ===== src/Scheduler/QuestionRecovery.antt =====
-- scheduler_question_reconciliation.go and interactive_question_recovery.go: a lost worker whose
-- run waits for an answer, or has the answer.
use agent_board.Prelude.{
  ℕ, Bool, true, false, not, ◌&&◌, Option, none, some, [], ◌∷◌, ◌++◌, ◌==◌, ltb, if◌then◌else◌,
}
use agent_board.Prelude.Rows.{any, select}
use agent_board.Prelude.Order.{best}
use agent_board.Store.Types.{
  Run, RunStatus, JobKind, JobState, IdempotencyKey, SchedulerJob, SchedulerLease, QuestionStatus,
  Question, BindingState, QuestionBinding, Db, Env, is_starting_or_running, same_key,
}
use agent_board.Store.Tx.{conflict, not_found, Tx, ◌>>=◌, ◌>>◌, pure, gets, modify, guard}
use agent_board.Store.Statements.{is_run, update_run, set_runs, set_jobs}
use agent_board.Scheduler.Ownership.{is_claim, release_ownership}
use agent_board.Scheduler.Questions.{is_open_question}

abbrev pub is_waiting_run : RunStatus → Bool
is_waiting_run RunStatus.waiting_for_input = true
is_waiting_run _ = false

abbrev pub is_answered : QuestionStatus → Bool
is_answered QuestionStatus.answered = true
is_answered _ = false

abbrev pub is_answered_binding : BindingState → Bool
is_answered_binding BindingState.answered = true
is_answered_binding _ = false

abbrev pub is_open_binding : BindingState → Bool
is_open_binding BindingState.open_binding = true
is_open_binding _ = false

abbrev pub of_question : Question → QuestionBinding → Bool
of_question q b = b.project_id == q.project_id && b.run_id == q.run_id && b.question_id == q.id

-- A blocking question of the run that is answered, where no binding of the run is open.
abbrev pub is_resumable : Run → Db → Question → Bool
is_resumable run db q =
    q.project_id == run.project_id
    && q.run_id == run.id
    && q.blocking
    && is_answered q.status
    && any (λ b. of_question q b && is_answered_binding b.state) db.bindings
    && not (
        any (λ b. b.project_id == q.project_id && b.run_id == q.run_id && is_open_binding b.state)
          db.bindings)

-- ORDER BY answered_at, id, in which NULL comes last.
abbrev pub answered_before : Question → Question → Bool
answered_before a b = by_time a.answered_at b.answered_at
  where
    by_time : Option ℕ → Option ℕ → Bool
    by_time none none = ltb a.id b.id
    by_time none (some y) = false
    by_time (some x) none = true
    by_time (some x) (some y) = if ltb x y then true else (if ltb y x then false else ltb a.id b.id)

-- `queue_reason`, `failure_reason` and `completed_at` are cleared with the status.
abbrev pub with_status : Env → RunStatus → Run → Run
with_status env status r = record r {
  status = status;
  queue_reason = none;
  failure_reason = none;
  completed_at = none;
  updated_at = env.now;
}

-- queueBlockingQuestionResume; a key that is taken is a conflict.
unfoldable pub queue_blocking_question_resume : Env → Question → Tx (Unit {0})
queue_blocking_question_resume env q = do
  run ←
      update_run (λ r. is_run q.project_id q.run_id r && is_waiting_run r.status)
        (with_status env RunStatus.queued)
  taken ←
      gets
        (λ db. any (λ j. same_key j.idempotency_key (IdempotencyKey.question_resume q.id)) db.jobs)
  guard (not taken) conflict
  id ← gets env.gen_random_uuid
  modify (λ db. record db {
    jobs =
        db.jobs
        ++ record {
          id = id;
          project_id = q.project_id;
          run_id = q.run_id;
          kind = JobKind.resume;
          state = JobState.queued;
          wait_reason = none;
          idempotency_key = IdempotencyKey.question_resume q.id;
          available_at = env.now;
          created_at = env.now;
          updated_at = env.now;
        }
          ∷ [];
  })

-- The claimed job is done, and nobody owns it.
unfoldable pub finish_claim : Env → SchedulerJob → Run → SchedulerLease → Tx (Unit {0})
finish_claim env job run lease = do
  changed ←
      set_jobs (is_claim job.project_id job.id job.run_id)
        (λ j. record j { state = JobState.done; wait_reason = none; updated_at = env.now })
  guard (changed == 1) not_found
  deleted ← release_ownership run.project_id job.id lease.lease_token
  guard (deleted == 1) not_found

unfoldable pub resume_answered :
    Env → SchedulerJob → Run → SchedulerLease → Option Question → Tx Bool
unfolding finish_claim queue_blocking_question_resume
resume_answered env job run lease none = pure false
resume_answered env job run lease (some q) = do
  finish_claim env job run lease
  queue_blocking_question_resume env q
  pure true

unfoldable pub wait_for_answer : Env → SchedulerJob → Run → SchedulerLease → Bool → Tx Bool
unfolding finish_claim
wait_for_answer env job run lease false = pure false
wait_for_answer env job run lease true = do
  set_runs (λ r. is_run run.project_id run.id r && is_starting_or_running r.status)
      (with_status env RunStatus.waiting_for_input)
  finish_claim env job run lease
  pure true

unfoldable pub resolve_by_status : Env → SchedulerJob → Run → SchedulerLease → RunStatus → Tx Bool
unfolding resume_answered wait_for_answer
resolve_by_status env job run lease RunStatus.waiting_for_input = do
  question ← gets (λ db. best answered_before none (select (is_resumable run db) db.questions))
  resume_answered env job run lease question
resolve_by_status env job run lease RunStatus.starting = do
  asked ←
      gets (λ db. any (λ q. is_open_question run.project_id run.id q && q.blocking) db.questions)
  wait_for_answer env job run lease asked
resolve_by_status env job run lease RunStatus.running = do
  asked ←
      gets (λ db. any (λ q. is_open_question run.project_id run.id q && q.blocking) db.questions)
  wait_for_answer env job run lease asked
resolve_by_status env job run lease _ = pure false

-- resolveExpiredBlockingQuestion
unfoldable pub resolve_expired_blocking_question :
    Env → SchedulerJob → Run → SchedulerLease → Tx Bool
unfolding resolve_by_status
resolve_expired_blocking_question env job run lease = resolve_by_status env job run lease run.status
