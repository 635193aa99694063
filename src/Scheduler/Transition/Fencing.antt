-- ===== src/Scheduler/Transition/Fencing.antt =====
-- transitionAdmittedJob: who moves a run, and from which state to which.
use agent_board.Prelude.{ℕ, ◌||◌, ◌==◌, ◌≡◌, refl, sym, ap, Bool, true, false, some, arith}
use agent_board.Prelude.Rows.{first, any}
use agent_board.Store.Types.{Run, Db, Env}
use agent_board.Store.Tx.{ok, err, not_found, transact, ◌>>=◌, gets, found, fail}
use agent_board.Store.Rules.{
  Ensures, Ensures-bind, Ensures-then, Ensures-gets, Ensures-found, Ensures-if, Ensures-fail,
  Ensures-guard, Ensures-before, transact-Ensures,
}
use agent_board.Store.Statements.{is_run}
use agent_board.Scheduler.Ownership.{is_claim, is_held, lock_fenced_run}
use agent_board.Scheduler.RunStates.{valid_scheduler_run_transition}
use agent_board.Scheduler.Transition.{
  Transition, Mutation, transition_body, transition_admitted_job,
}

abbrev pub missing_id : Transition → Bool
missing_id input =
    input.project_id == 0 || input.job_id == 0 || input.run_id == 0 || input.lease_token == 0

-- A worker whose lease is gone, was taken over or has expired changes nothing: the call returns
-- ErrNotFound and the database is as it was, whatever it asks for.
pub transition_admitted_job-stale :
    (env : Env) (input : Transition) (db : Db)
    → missing_id input ≡ false
    → any (is_held env input.job_id input.lease_token) db.leases ≡ false
    → transition_admitted_job env input db ≡ (err not_found, db)
unfolding transition_admitted_job transition_body lock_fenced_run transact ◌>>=◌ gets found fail
transition_admitted_job-stale env input db ids stale = ground arith

-- What the database shows before a transition that succeeds: the run as it stood, the claimed job,
-- the unexpired lease of the token, and an edge of the graph of states.
pub record Fenced (env : Env) (input : Transition) (db : Db) : Type 0 where
  pub current : Run
  pub is_current : first (is_run input.project_id input.run_id) db.runs ≡ some current
  pub claimed : any (is_claim input.project_id input.job_id input.run_id) db.jobs ≡ true
  pub held : any (is_held env input.job_id input.lease_token) db.leases ≡ true
  pub edge : valid_scheduler_run_transition current.status input.run_status ≡ true

lock_fenced_run-Ensures :
    (env : Env) (p j r t : ℕ) (db : Db)
    → Ensures
        (λ d. d ≡ db)
        (lock_fenced_run env p j r t)
        (λ run _.
          (first (is_run p r) db.runs ≡ some run)
          × (any (is_claim p j r) db.jobs ≡ true)
          × (any (is_held env j t) db.leases ≡ true))
unfolding lock_fenced_run
lock_fenced_run-Ensures env p j r t db =
    Ensures-bind {Q = λ job d. (d ≡ db) × (any (is_claim p j r) db.jobs ≡ job)} _ _
      (Ensures-gets _ (λ d e. (e, ap (λ x. any (is_claim p j r) x.jobs) (sym e))))
      λ job.
        Ensures-bind
          {Q = λ lease d.
            (d ≡ db)
            × (any (is_claim p j r) db.jobs ≡ job)
            × (any (is_held env j t) db.leases ≡ lease)}
          _ _
          (Ensures-gets _ (λ d e. (e.0, e.1, ap (λ x. any (is_held env j t) x.leases) (sym e.0))))
          λ lease.
            Ensures-bind
              {Q = λ row d.
                (first (is_run p r) db.runs ≡ row)
                × (any (is_claim p j r) db.jobs ≡ job)
                × (any (is_held env j t) db.leases ≡ lease)}
              _ _
              (Ensures-gets _ (λ d e. (ap (λ x. first (is_run p r) x.runs) (sym e.0), e.1, e.2)))
              λ row. Ensures-found _ (λ run e d h. ground (arith, h.0, h.1, h.2))

-- A transition that succeeds has found its job claimed, its lease held and unexpired, and the run
-- in a state from which the graph leads to the new status.
pub transition_admitted_job-Fenced :
    (env : Env) (input : Transition) (db : Db) (m : Mutation) (db' : Db)
    → transition_admitted_job env input db ≡ (ok m, db')
    → Fenced env input db
unfolding transition_admitted_job transition_body
transition_admitted_job-Fenced env input db m db' e =
    transact-Ensures {P = λ d. d ≡ db} {Q = λ _ _. Fenced env input db} _
      (Ensures-if (missing_id input) _ _ (λ _. Ensures-fail _)
        λ _.
          Ensures-bind _ _
            (lock_fenced_run-Ensures env input.project_id input.job_id input.run_id
              input.lease_token db)
            λ run.
              Ensures-then {Q = λ _. Fenced env input db} _ _
                (Ensures-guard _ _ λ edge _ h. record {
                  current = run;
                  is_current = h.0;
                  claimed = h.1;
                  held = h.2;
                  edge = edge;
                })
                (Ensures-before _ (λ _ f. f)))
      db refl m db' e
