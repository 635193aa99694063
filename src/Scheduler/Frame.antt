-- ===== src/Scheduler/Frame.antt =====
-- What an invariant has to put up with from every transaction of the scheduler but an admission.
-- `Frame` is the interface that a property of databases fills.
mod Status
pub mod Steps
pub mod Parts
pub mod Transitions
pub mod Expiry
pub mod Admission
pub mod History
use agent_board.Prelude.{ℕ, ◌≡◌, Option, some, List, Bool, true, false}
use agent_board.Prelude.Rows.{first, update}
use agent_board.Store.Types.{
  Run, SchedulerJob, SchedulerLease, Reservation, Event, AgentWorkRequest, Delegation, Review,
  Question, QuestionBinding, Db, is_terminal,
}
use agent_board.Store.Tx.{modify}
use agent_board.Store.Rules.{Ensures, Keeps}
use agent_board.Store.Statements.{is_run, delete_reservations}

-- A write to runs that leaves their keys, and the status of a run that has ended.
abbrev pub KeepsStatus : (Run → Bool) → (Run → Run) → Type 0
KeepsStatus test change =
    (r : Run)
    → test r ≡ true
    → ((change r).project_id ≡ r.project_id)
      × ((change r).id ≡ r.id)
      × (is_terminal r.status ≡ true → (change r).status ≡ r.status)

-- The run of these keys has not ended.
abbrev pub Unended : ℕ → ℕ → Db → Type 0
Unended project_id run_id db =
    (x : Run) → first (is_run project_id run_id) db.runs ≡ some x → is_terminal x.status ≡ false

abbrev pub KeepsKeys : (Run → Run) → Type 0
KeepsKeys change = (r : Run) → ((change r).project_id ≡ r.project_id) × ((change r).id ≡ r.id)

pub record Frame (P : Db → Type 0) : Type 0 where
  pub jobs : (g : Db → List SchedulerJob) → Keeps P (modify (λ db. record db { jobs = g db }))
  pub leases : (g : Db → List SchedulerLease) → Keeps P (modify (λ db. record db { leases = g db }))
  pub events : (g : Db → List Event) → Keeps P (modify (λ db. record db { events = g db }))
  pub work_requests :
      (g : Db → List AgentWorkRequest) → Keeps P (modify (λ db. record db { work_requests = g db }))
  pub delegations :
      (g : Db → List Delegation) → Keeps P (modify (λ db. record db { delegations = g db }))
  pub reviews : (g : Db → List Review) → Keeps P (modify (λ db. record db { reviews = g db }))
  pub questions :
      (g : Db → List Question) (h : Db → List QuestionBinding)
      → Keeps P (modify (λ db. record db { questions = g db; bindings = h db }))
  pub deletes : (test : Reservation → Bool) → Keeps P (delete_reservations test)
  pub runs :
      (test : Run → Bool) (change : Run → Run)
      → KeepsStatus test change
      → Keeps P (modify (λ db. record db { runs = update test change db.runs }))
  -- A write to a run that has not ended may give it any status.
  pub fenced :
      (project_id run_id : ℕ) (change : Run → Run)
      → KeepsKeys change
      → Ensures
          (λ db. P db × Unended project_id run_id db)
          (modify (λ db. record db { runs = update (is_run project_id run_id) change db.runs }))
          (λ _ db. P db)
