-- ===== src/Scheduler/Frame/Steps.antt =====
-- The statements, under an invariant that fills `Frame`.
use agent_board.Prelude.{ℕ, Option, none, some, List, Bool}
use agent_board.Store.Types.{
  Run, SchedulerJob, SchedulerLease, Reservation, Event, Db, Env, AgentWorkRequest, Review,
  Question, QuestionBinding, Delegation,
}
use agent_board.Store.Tx.{modify}
use agent_board.Store.Rules.{Keeps}
use agent_board.Store.Keeps.{keeps_rules, Keeps-modify}
use agent_board.Prelude.Rows.{update}
use agent_board.Store.Statements.{
  get_run, update_run, update_job, set_runs, set_jobs, delete_leases, delete_reservations,
  insert_job,
}
use agent_board.Store.Events.{validate_event_references, take_sequence, append_event}
use agent_board.Scheduler.Frame.Status.{statuses, next_sequence-KeepsStatus}
use agent_board.Scheduler.Frame.{Frame, KeepsStatus}

module _ {P : Db → Type 0} (F : Frame P) where
  pub jobs-Keeps : (g : Db → List SchedulerJob) → Keeps P (modify (λ db. record db { jobs = g db }))
  jobs-Keeps g = F.jobs g

  pub leases-Keeps :
      (g : Db → List SchedulerLease) → Keeps P (modify (λ db. record db { leases = g db }))
  leases-Keeps g = F.leases g

  pub events-Keeps : (g : Db → List Event) → Keeps P (modify (λ db. record db { events = g db }))
  events-Keeps g = F.events g

  pub work_requests-Keeps :
      (g : Db → List AgentWorkRequest) → Keeps P (modify (λ db. record db { work_requests = g db }))
  work_requests-Keeps g = F.work_requests g

  pub delegations-Keeps :
      (g : Db → List Delegation) → Keeps P (modify (λ db. record db { delegations = g db }))
  delegations-Keeps g = F.delegations g

  pub reviews-Keeps : (g : Db → List Review) → Keeps P (modify (λ db. record db { reviews = g db }))
  reviews-Keeps g = F.reviews g

  pub questions-Keeps :
      (g : Db → List Question) (h : Db → List QuestionBinding)
      → Keeps P (modify (λ db. record db { questions = g db; bindings = h db }))
  questions-Keeps g h = F.questions g h

  pub delete_reservations-Keeps : (test : Reservation → Bool) → Keeps P (delete_reservations test)
  delete_reservations-Keeps test = F.deletes test

  pub runs-Keeps :
      (test : Run → Bool) (change : Run → Run)
      → KeepsStatus test change
      → Keeps P (modify (λ db. record db { runs = update test change db.runs }))
  runs-Keeps test change h = F.runs test change h

pub ruleset writes = (
  jobs-Keeps, leases-Keeps, events-Keeps, work_requests-Keeps, delegations-Keeps, reviews-Keeps,
  questions-Keeps, delete_reservations-Keeps, runs-Keeps,
)

module _ {P : Db → Type 0} (F : Frame P) where
  pub get_run-Keeps : (p r : ℕ) → Keeps P (get_run p r)
  unfolding get_run
  get_run-Keeps p r = search (keeps_rules, writes)

  pub update_run-Keeps :
      (test : Run → Bool) (change : Run → Run)
      → KeepsStatus test change
      → Keeps P (update_run test change)
  unfolding update_run
  update_run-Keeps test change h = search (F, keeps_rules, writes)

  pub set_runs-Keeps :
      (test : Run → Bool) (change : Run → Run)
      → KeepsStatus test change
      → Keeps P (set_runs test change)
  unfolding set_runs
  set_runs-Keeps test change h = search (F, keeps_rules, writes)

  pub update_job-Keeps :
      (test : SchedulerJob → Bool) (change : SchedulerJob → SchedulerJob)
      → Keeps P (update_job test change)
  unfolding update_job
  update_job-Keeps test change = search (F, keeps_rules, writes)

  pub set_jobs-Keeps :
      (test : SchedulerJob → Bool) (change : SchedulerJob → SchedulerJob)
      → Keeps P (set_jobs test change)
  unfolding set_jobs
  set_jobs-Keeps test change = search (F, keeps_rules, writes)

  pub delete_leases-Keeps : (test : SchedulerLease → Bool) → Keeps P (delete_leases test)
  unfolding delete_leases
  delete_leases-Keeps test = search (F, keeps_rules, writes)

  pub insert_job-Keeps : (job : SchedulerJob) → Keeps P (insert_job job)
  unfolding insert_job
  insert_job-Keeps job = search (F, keeps_rules, writes)

  pub validate_event_references-Keeps : (e : Event) → Keeps P (validate_event_references e)
  unfolding validate_event_references
  validate_event_references-Keeps e = search (keeps_rules, writes)

  pub take_sequence-Keeps : (p : ℕ) (r : Option ℕ) → Keeps P (take_sequence p r)
  unfolding take_sequence
  take_sequence-Keeps p none = search keeps_rules
  take_sequence-Keeps p (some r) = search (keeps_rules, update_run-Keeps, next_sequence-KeepsStatus)

  pub append_event-Keeps : (env : Env) (e : Event) → Keeps P (append_event env e)
  unfolding append_event
  append_event-Keeps env e =
      search (F, keeps_rules, writes, validate_event_references-Keeps, take_sequence-Keeps)

pub ruleset steps = (
  keeps_rules, writes, delete_reservations-Keeps, get_run-Keeps, update_run-Keeps, set_runs-Keeps,
  update_job-Keeps, set_jobs-Keeps, delete_leases-Keeps, insert_job-Keeps, append_event-Keeps,
  statuses,
)
