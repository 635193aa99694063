-- ===== src/Scheduler/Frame/Expiry.antt =====
-- Taking over an expired lease, under an invariant that fills `Frame`.
use agent_board.Prelude.{ℕ, Bool, true, false, Option, none, some}
use agent_board.Store.Types.{Run, RunStatus, SchedulerJob, SchedulerLease, Question, Db, Env}
use agent_board.Store.Rules.{Keeps}
use agent_board.Scheduler.Ownership.{release_ownership}
use agent_board.Scheduler.QuestionRecovery.{
  queue_blocking_question_resume, finish_claim, resume_answered, wait_for_answer, resolve_by_status,
  resolve_expired_blocking_question,
}
use agent_board.Scheduler.Expiry.{
  Expired, reset_invalid_queued_claim, take_over, claim_unresolved, claim_expired,
  claim_expired_body,
}
use agent_board.Scheduler.Frame.{Frame}
use agent_board.Scheduler.Frame.Steps.{steps}

module _ {P : Db → Type 0} (F : Frame P) where
  queue_blocking_question_resume-Keeps :
      (env : Env) (q : Question) → Keeps P (queue_blocking_question_resume env q)
  unfolding queue_blocking_question_resume
  queue_blocking_question_resume-Keeps env q = search (F, steps) depth 14

  finish_claim-Keeps :
      (env : Env) (job : SchedulerJob) (run : Run) (lease : SchedulerLease)
      → Keeps P (finish_claim env job run lease)
  unfolding finish_claim release_ownership
  finish_claim-Keeps env job run lease = search (F, steps) depth 14

  resume_answered-Keeps :
      (env : Env) (job : SchedulerJob) (run : Run) (lease : SchedulerLease) (o : Option Question)
      → Keeps P (resume_answered env job run lease o)
  unfolding resume_answered
  resume_answered-Keeps env job run lease none = search steps
  resume_answered-Keeps env job run lease (some q) =
      search (steps, finish_claim-Keeps, queue_blocking_question_resume-Keeps) depth 12

  wait_for_answer-Keeps :
      (env : Env) (job : SchedulerJob) (run : Run) (lease : SchedulerLease) (asked : Bool)
      → Keeps P (wait_for_answer env job run lease asked)
  unfolding wait_for_answer
  wait_for_answer-Keeps env job run lease false = search steps
  wait_for_answer-Keeps env job run lease true = search (F, steps, finish_claim-Keeps) depth 12

  resolve_by_status-Keeps :
      (env : Env) (job : SchedulerJob) (run : Run) (lease : SchedulerLease) (s : RunStatus)
      → Keeps P (resolve_by_status env job run lease s)
  unfolding resolve_by_status
  resolve_by_status-Keeps env job run lease RunStatus.waiting_for_input =
      search (steps, resume_answered-Keeps)
  resolve_by_status-Keeps env job run lease RunStatus.starting =
      search (steps, wait_for_answer-Keeps)
  resolve_by_status-Keeps env job run lease RunStatus.running =
      search (steps, wait_for_answer-Keeps)
  resolve_by_status-Keeps env job run lease _ = search steps

  reset_invalid_queued_claim-Keeps :
      (env : Env) (e : Expired) → Keeps P (reset_invalid_queued_claim env e)
  unfolding reset_invalid_queued_claim
  reset_invalid_queued_claim-Keeps env e = search (F, steps) depth 14

  take_over-Keeps :
      (env : Env) (owner duration : ℕ) (e : Expired) → Keeps P (take_over env owner duration e)
  unfolding take_over
  take_over-Keeps env owner duration e = search (F, steps) depth 14

  claim_unresolved-Keeps :
      (env : Env) (owner duration : ℕ) (e : Expired) (resolved : Bool)
      → Keeps P (claim_unresolved env owner duration e resolved)
  unfolding claim_unresolved
  claim_unresolved-Keeps env owner duration e true = search steps
  claim_unresolved-Keeps env owner duration e false =
      search (steps, reset_invalid_queued_claim-Keeps, take_over-Keeps) depth 12

  claim_expired-Keeps :
      (env : Env) (owner duration : ℕ) (o : Option Expired)
      → Keeps P (claim_expired env owner duration o)
  unfolding claim_expired resolve_expired_blocking_question
  claim_expired-Keeps env owner duration none = search steps
  claim_expired-Keeps env owner duration (some e) =
      search (steps, resolve_by_status-Keeps, claim_unresolved-Keeps) depth 12

  pub claim_expired_body-Keeps :
      (env : Env) (owner duration : ℕ) → Keeps P (claim_expired_body env owner duration)
  unfolding claim_expired_body
  claim_expired_body-Keeps env owner duration = search (steps, claim_expired-Keeps) depth 9
