-- ===== src/Scheduler/Frame/Admission.antt =====
-- The parts of an admission, under an invariant that fills `Frame`, and all of it, where a new
-- reservation keeps the invariant too.
use agent_board.Prelude.{ℕ, Option, none, some}
use agent_board.Store.Types.{Db, Env, Run, SchedulerJob, WaitReason, ResourceKind}
use agent_board.Store.Tx.{Tx, ◌>>=◌, pure}
use agent_board.Store.Rules.{Keeps}
use agent_board.Store.Keeps.{keeps_rules, Keeps-bind, Keeps-pure}
use agent_board.Scheduler.Candidates.{Candidate}
use agent_board.Scheduler.Admission.{
  Admission, insert_capacity_reservation, insert_lease, claim_job, wait, defer_queued_job,
  workspace_admission_occupied, lock_admission_resources, admit_on_runner, admit_within_limits,
  admit_configured, cancel_orphan, admit_candidate, admit_body,
}
use agent_board.Scheduler.Runners.{lock_runner_candidate}
use agent_board.Scheduler.Frame.{Frame}
use agent_board.Scheduler.Frame.Steps.{steps}
use agent_board.Scheduler.Frame.Parts.{
  delegated_parent_terminal-Keeps, inactive_run_execution_occupied-Keeps,
  seal_agent_work_requests-Keeps, cancel_inactive_run_tx-Keeps,
}

module _ {P : Db → Type 0} (F : Frame P) where
  pub insert_lease-Keeps :
      (env : Env) (job owner duration : ℕ) → Keeps P (insert_lease env job owner duration)
  unfolding insert_lease
  insert_lease-Keeps env job owner duration = search (F, steps) depth 9

  pub wait-Keeps :
      (env : Env) (c : Candidate) (reason : WaitReason) (backoff : ℕ)
      → Keeps P (wait env c reason backoff)
  unfolding wait defer_queued_job
  wait-Keeps env c reason backoff = search (F, steps) depth 9

  pub workspace-Keeps : (run : Run) → Keeps P (workspace_admission_occupied run)
  unfolding workspace_admission_occupied
  workspace-Keeps run = search steps depth 9

  pub cancel_orphan-Keeps : (env : Env) (c : Candidate) → Keeps P (cancel_orphan env c)
  unfolding cancel_orphan
  cancel_orphan-Keeps env c =
      search (F, steps, inactive_run_execution_occupied-Keeps, cancel_inactive_run_tx-Keeps) depth 9

module _ {P : Db → Type 0} (F : Frame P)
    (reserve : (job : SchedulerJob) (run : Run) (kind : ResourceKind) (id : ℕ)
      → Keeps P (insert_capacity_reservation job run kind id)) where
  claim_job-Keeps :
      (env : Env) (owner duration : ℕ) (c : Candidate) (ids : ℕ × ℕ) (runner : ℕ)
      → Keeps P (claim_job env owner duration c ids runner)
  unfolding claim_job
  claim_job-Keeps env owner duration c (a, m) runner =
      search (F, reserve, steps, insert_lease-Keeps, seal_agent_work_requests-Keeps) depth 16

  on_runner-Keeps :
      (env : Env) (owner duration backoff : ℕ) (c : Candidate) (ids : ℕ × ℕ)
      → Keeps P (admit_on_runner env owner duration backoff c ids)
  unfolding admit_on_runner lock_runner_candidate
  on_runner-Keeps env owner duration backoff c (a, m) =
      Keeps-bind _ _ (search keeps_rules depth 9) λ runner. placed runner
    where
      placed :
          (o : Option ℕ)
          → Keeps P (elim o as (λ _. Tx (Option Admission)) [
            | none ↦ wait env c WaitReason.runner_capacity backoff
            | some runner_id ↦ do
              admission ← claim_job env owner duration c (a, m) runner_id
              pure (some admission)
          ])
      placed none = wait-Keeps F env c WaitReason.runner_capacity backoff
      placed (some r) =
          Keeps-bind _ _ (claim_job-Keeps env owner duration c (a, m) r) (λ admission. Keeps-pure _)

  within_limits-Keeps :
      (env : Env) (owner duration backoff : ℕ) (c : Candidate) (ids : ℕ × ℕ)
      → Keeps P (admit_within_limits env owner duration backoff c ids)
  unfolding admit_within_limits lock_admission_resources
  within_limits-Keeps env owner duration backoff c (a, m) =
      search (F, steps, wait-Keeps, on_runner-Keeps) depth 14

  configured-Keeps :
      (env : Env) (owner duration backoff : ℕ) (c : Candidate) (o : Option (ℕ × ℕ))
      → Keeps P (admit_configured env owner duration backoff c o)
  unfolding admit_configured
  configured-Keeps env owner duration backoff c none = search (F, steps, wait-Keeps)
  configured-Keeps env owner duration backoff c (some ids) =
      search (F, steps, wait-Keeps, workspace-Keeps, within_limits-Keeps) depth 9

  candidate-Keeps :
      (env : Env) (owner duration backoff : ℕ) (o : Option Candidate)
      → Keeps P (admit_candidate env owner duration backoff o)
  unfolding admit_candidate
  candidate-Keeps env owner duration backoff none = search steps
  candidate-Keeps env owner duration backoff (some c) =
      search (F, steps, delegated_parent_terminal-Keeps, cancel_orphan-Keeps, configured-Keeps)
        depth 9

  pub admit_body-Keeps :
      (env : Env) (owner duration backoff : ℕ) → Keeps P (admit_body env owner duration backoff)
  unfolding admit_body
  admit_body-Keeps env owner duration backoff = search (steps, candidate-Keeps)
