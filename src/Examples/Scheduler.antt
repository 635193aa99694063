-- ===== src/Examples/Scheduler.antt =====
-- Admission, enqueueing and histories on the board.
use agent_board.Prelude.{some, none, ◌≡◌, refl, sym, ◌∙◌, false, List, [], ◌∷◌, inl, inr, arith}
use agent_board.Prelude.Rows.{In, count}
use agent_board.Store.Types.{RunStatus, WaitReason, Runner, SchedulerJob, Db}
use agent_board.Store.Tx.{ok}
use agent_board.Scheduler.Operations.{Enqueue, queued_job, enqueue_job}
use agent_board.Scheduler.Operations.Idempotent.{SameRequest, enqueue_job-again}
use agent_board.Scheduler.Candidates.{Candidate, next_candidate}
use agent_board.Scheduler.Candidates.Order.{
  IsRow, IsReady, ComesFirst, next_candidate-least, next_candidate-some,
}
use agent_board.Scheduler.Runners.Order.{IsUsable, RunnerFirst, runner_in-least}
use agent_board.Scheduler.Capacity.{Inv}
use agent_board.Scheduler.Capacity.History.{run_calls-Inv}
use agent_board.Prelude.Rows.{first}
use agent_board.Scheduler.Ended.{HasStatus, run_calls-HasStatus}
use agent_board.Scheduler.Expiry.{claim_expired_job_for_reconciliation}
use agent_board.Scheduler.Expiry.Survival.{TokenKey, claim_expired_job-Survives}
use agent_board.Scheduler.Calls.{enqueues, admits, transitions, Call, run_calls}
use agent_board.Examples.Board.{
  ended_board, lost_board, lease_for, board, agent_1, model_1, runner_1, project_1, at_time,
  enqueue_of, to_status, queued_run,
}
use agent_board.Examples.Computes.{computes}

one_row : {A : Type 0} (r x y : A) → In x (r ∷ []) → In y (r ∷ []) → x ≡ y
one_row r x y (inl p) (inl q) = p ∙ sym q
one_row r x y (inr m) j = absurd m
one_row r x y (inl p) (inr m) = absurd m

board-Inv : Inv board
unfolding count
board-Inv = record {
  keys = record {
    agent_key = λ a b i j e. one_row agent_1 a b i j;
    model_key = λ a b i j e. one_row model_1 a b i j;
    runner_key = λ a b i j e. one_row runner_1 a b i j;
  };
  within = record {
    agents_within = λ a i. omega arith;
    models_within = λ m limit i e. omega arith;
    runners_within = λ r i. omega arith;
  };
}

-- The second run waits for the agent until the first is completed.
abbrev calls : List Call
calls =
    enqueues (at_time 20) (enqueue_of 1)
    ∷ enqueues (at_time 21) (enqueue_of 2)
    ∷ admits (at_time 30) 7 1000 10
    ∷ admits (at_time 31) 7 1000 10
    ∷ transitions (at_time 40) (to_status RunStatus.completed)
    ∷ admits (at_time 60) 7 1000 10
    ∷ []

run_calls-Inv_example : Inv (run_calls board calls)
run_calls-Inv_example = run_calls-Inv board calls board-Inv

abbrev enqueued : Db
enqueued = (enqueue_job (at_time 20) (enqueue_of 1) board).1

abbrev job_1 : SchedulerJob
job_1 = queued_job (at_time 20) (enqueue_of 1) 100

-- The same job, asked for later, with a time and a wait reason.
abbrev asked_again : Enqueue
asked_again = record (enqueue_of 1) {
  available_at = some 95;
  wait_reason = some WaitReason.model_capacity;
}

asked_again-SameRequest : SameRequest (enqueue_of 1) asked_again
asked_again-SameRequest = record { key = refl; project = refl; run = refl; kind = refl }

enqueue_job-again_example : enqueue_job (at_time 90) asked_again enqueued ≡ (ok job_1, enqueued)
unfolding computes
enqueue_job-again_example =
    enqueue_job-again (at_time 20) (at_time 90) (enqueue_of 1) asked_again board enqueued job_1 refl
      asked_again-SameRequest refl

abbrev candidate_1 : Candidate
candidate_1 = record { job = job_1; run = queued_run 1 1; cleanup = false; priority = 3 }

next_candidate-least_example :
    IsRow enqueued enqueued.jobs candidate_1
    × IsReady (at_time 30) candidate_1
    × ((x : Candidate)
        → IsRow enqueued enqueued.jobs x
        → IsReady (at_time 30) x
        → ComesFirst candidate_1 x)
unfolding computes
next_candidate-least_example = next_candidate-least (at_time 30) enqueued candidate_1 refl

candidate_1-IsReady : IsReady (at_time 30) candidate_1
candidate_1-IsReady = record {
  job_queued = refl;
  run_queued = refl;
  due = inl (omega arith);
  unlocked = refl;
}

next_candidate-some_example : (c : Candidate) × (next_candidate (at_time 30) enqueued ≡ some c)
unfolding computes
next_candidate-some_example =
    next_candidate-some (at_time 30) enqueued candidate_1
      (next_candidate-least (at_time 30) enqueued candidate_1 refl).0 candidate_1-IsReady

-- A job that is not available yet.
too_early : next_candidate (at_time 19) enqueued ≡ none
unfolding computes
too_early = refl

runner_in-least_example :
    In runner_1 board.runners
    × IsUsable (at_time 30) board project_1 (1 ∷ []) runner_1
    × ((x : Runner)
        → In x board.runners
        → IsUsable (at_time 30) board project_1 (1 ∷ []) x
        → RunnerFirst runner_1 x)
unfolding computes
runner_in-least_example = runner_in-least (at_time 30) (1 ∷ []) board project_1 runner_1 refl

run_calls-HasStatus_example : HasStatus 1 1 RunStatus.completed (run_calls ended_board calls)
unfolding first
run_calls-HasStatus_example =
    run_calls-HasStatus 1 1 RunStatus.completed ended_board calls refl (record {
      row = record (queued_run 1 1) { status = RunStatus.completed };
      is_row = refl;
      is_status = refl;
    })

lost_board-TokenKey : TokenKey lost_board
lost_board-TokenKey a b (inl p) (inl q) e = p ∙ sym q
lost_board-TokenKey a b (inl p) (inr (inl q)) e = absurd (ground (arith, p, q, e))
lost_board-TokenKey a b (inl p) (inr (inr m)) e = absurd m
lost_board-TokenKey a b (inr (inl p)) (inl q) e = absurd (ground (arith, p, q, e))
lost_board-TokenKey a b (inr (inl p)) (inr (inl q)) e = p ∙ sym q
lost_board-TokenKey a b (inr (inl p)) (inr (inr m)) e = absurd m
lost_board-TokenKey a b (inr (inr m)) j e = absurd m

claim_expired_job-Survives_example :
    In
      (lease_for 100 101 500)
      (claim_expired_job_for_reconciliation (at_time 90) 8 1000 lost_board).1.leases
claim_expired_job-Survives_example =
    claim_expired_job-Survives (at_time 90) 8 1000 lost_board (lease_for 100 101 500)
      lost_board-TokenKey (inl refl) (omega arith)
