-- ===== src/Scheduler/Transition/Release.antt =====
-- transitionAdmittedJob: what a transition that ends the worker's part leaves of the job.
use agent_board.Prelude.{◌&&◌, ◌==◌, ◌≡◌, refl, Bool, true, false, Option, some, none, arith}
use agent_board.Prelude.Rows.{any}
use agent_board.Prelude.Updates.{any-delete, any-update}
use agent_board.Store.Types.{
  Run, RunStatus, SchedulerJob, SchedulerLease, Reservation, Db, Env, is_claimed,
}
use agent_board.Store.Tx.{ok, Tx}
use agent_board.Store.Rules.{
  Ensures, Ensures-bind, Ensures-then, Ensures-gets, Ensures-modify, Ensures-pure, Ensures-if,
  Ensures-fail, Ensures-before, transact-Ensures,
}
use agent_board.Store.Statements.{delete_reservations, delete_leases, set_jobs}
use agent_board.Scheduler.Ownership.{is_claim}
use agent_board.Scheduler.RunStates.{Effects, leaves_worker, scheduler_transition_effects}
use agent_board.Scheduler.Transition.Fencing.{missing_id}
use agent_board.Scheduler.Transition.{
  Transition, Mutation, when, release_job, transition_run, transition_body, transition_admitted_job,
}

abbrev pub reserves_job : Transition → Reservation → Bool
reserves_job input r = r.project_id == input.project_id && r.job_id == input.job_id

abbrev pub leases_job : Transition → SchedulerLease → Bool
leases_job input l = l.job_id == input.job_id && l.lease_token == input.lease_token

abbrev pub claims_job : Transition → SchedulerJob → Bool
claims_job input = is_claim input.project_id input.job_id input.run_id

-- Nothing of the worker's ownership is left.
pub record Released (input : Transition) (db : Db) : Type 0 where
  pub no_reservation : any (reserves_job input) db.reservations ≡ false
  pub no_claim : any (claims_job input) db.jobs ≡ false
  pub no_lease : any (leases_job input) db.leases ≡ false

abbrev pub Top : Db → Type 0
Top db = Unit {0}

-- The effects of a status release the job, into a state that no worker holds.
abbrev pub Releases : Option Effects → Type 0
Releases o = (e : Effects) → o ≡ some e → (e.release ≡ true) × (is_claimed e.job_state ≡ false)

effects-Releases :
    (s : RunStatus) → leaves_worker s ≡ true → Releases (scheduler_transition_effects s)
unfolding scheduler_transition_effects
effects-Releases RunStatus.waiting_for_input h e q = (ground arith, ground arith)
effects-Releases RunStatus.paused h e q = (ground arith, ground arith)
effects-Releases RunStatus.ready_for_review h e q = (ground arith, ground arith)
effects-Releases RunStatus.completed h e q = (ground arith, ground arith)
effects-Releases RunStatus.failed h e q = (ground arith, ground arith)
effects-Releases RunStatus.cancelled h e q = (ground arith, ground arith)
effects-Releases _ h e q = absurd (ground arith)

unclaimed :
    (input : Transition) (j : SchedulerJob)
    → is_claimed j.state ≡ false
    → claims_job input j ≡ false
unclaimed input j h = ground arith

claims-Ensures :
    (input : Transition) (change : SchedulerJob → SchedulerJob)
    → ((j : SchedulerJob) → is_claimed (change j).state ≡ false)
    → Ensures
        (λ db. any (reserves_job input) db.reservations ≡ false)
        (set_jobs (claims_job input) change)
        (λ _ db.
          (any (reserves_job input) db.reservations ≡ false)
          × (any (claims_job input) db.jobs ≡ false))
unfolding set_jobs
claims-Ensures input change h =
    Ensures-bind _ _
      (Ensures-gets {Q = λ _ db. any (reserves_job input) db.reservations ≡ false} _ (λ _ p. p))
      λ n.
        Ensures-then _ _
          (Ensures-modify _ (λ db p. (
            p,
            any-update (claims_job input) change db.jobs (λ j _. unclaimed input (change j) (h j)),
          )))
          (Ensures-pure n (λ _ p. p))

leases-Ensures :
    (input : Transition)
    → Ensures
        (λ db.
          (any (reserves_job input) db.reservations ≡ false)
          × (any (claims_job input) db.jobs ≡ false))
        (delete_leases (leases_job input))
        (λ _ db. Released input db)
unfolding delete_leases
leases-Ensures input =
    Ensures-bind _ _
      (Ensures-gets
        {Q = λ _ db.
          (any (reserves_job input) db.reservations ≡ false)
          × (any (claims_job input) db.jobs ≡ false)}
        _ (λ _ p. p))
      λ n.
        Ensures-then _ _
          (Ensures-modify _ (λ db p. record {
            no_reservation = p.0;
            no_claim = p.1;
            no_lease = any-delete (leases_job input) db.leases;
          }))
          (Ensures-pure n (λ _ p. p))

release_job-Released :
    (env : Env) (input : Transition) (e : Effects)
    → is_claimed e.job_state ≡ false
    → Ensures Top (release_job env input e) (λ _ db. Released input db)
unfolding release_job delete_reservations
release_job-Released env input e h =
    Ensures-then {Q = λ db. any (reserves_job input) db.reservations ≡ false} _ _
      (Ensures-modify _ (λ db _. any-delete (reserves_job input) db.reservations))
      (Ensures-then _ _ (claims-Ensures input _ (λ _. h))
        (Ensures-then _ _ (leases-Ensures input) (Ensures-pure tt (λ _ p. p))))

when-Released :
    (b : Bool) (m : Tx (Unit {0})) (input : Transition)
    → b ≡ true
    → Ensures Top m (λ _ db. Released input db)
    → Ensures Top (when b m) (λ _ db. Released input db)
when-Released true m input h r = r
when-Released false m input h r = absurd (ground arith)

transition_run-Released :
    (env : Env) (input : Transition) (current : Run) (o : Option Effects)
    → Releases o
    → Ensures Top (transition_run env input current o) (λ _ db. Released input db)
unfolding transition_run
transition_run-Released env input current none h = Ensures-fail _
transition_run-Released env input current (some e) h =
    Ensures-then {Q = Top} _ _ (Ensures-before _ (λ _ _. tt)) (
      Ensures-then {Q = Top} _ _ (Ensures-before _ (λ _ _. tt)) (
        Ensures-bind {Q = λ _. Top} _ _ (Ensures-before _ (λ _ _. tt)) λ run.
          Ensures-bind {Q = λ _. Top} _ _ (Ensures-before _ (λ _ _. tt)) λ events.
            Ensures-then _ _
              (when-Released e.release _ input (h e refl).0
                (release_job-Released env input e (h e refl).1))
              (Ensures-pure _ (λ _ p. p))))

-- After a transition that succeeds and takes the run away from its worker (to a question, a pause,
-- a review or an end), no capacity reservation of the job is left, the job is claimed by nobody,
-- and the lease of the token is gone.
pub transition_admitted_job-Released :
    (env : Env) (input : Transition) (db : Db) (m : Mutation) (db' : Db)
    → leaves_worker input.run_status ≡ true
    → transition_admitted_job env input db ≡ (ok m, db')
    → Released input db'
unfolding transition_admitted_job transition_body
transition_admitted_job-Released env input db m db' l e =
    transact-Ensures {P = Top} {Q = λ _ db. Released input db} _
      (Ensures-if (missing_id input) _ _ (λ _. Ensures-fail _)
        λ _. Ensures-bind {Q = λ _. Top} _ _ (Ensures-before _ (λ _ _. tt)) λ run.
          Ensures-then {Q = Top} _ _ (Ensures-before _ (λ _ _. tt))
            (transition_run-Released env input run _ (effects-Releases input.run_status l)))
      db tt m db' e
