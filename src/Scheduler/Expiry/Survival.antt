-- ===== src/Scheduler/Expiry/Survival.antt =====
-- claimExpiredJobForReconciliation and the leases that have not expired.
use mathlib.Core.Path.{subst}
use agent_board.Prelude.{
  ℕ, ◌<◌, ◌≡◌, refl, sym, ap, ◌==◌, ==→eq, ◌&&◌, ◌||◌, Bool, true, false, Bool-cases, Option, none,
  some, List, [], ◌∷◌, inl, inr, arith, leb,
}
use agent_board.Prelude.Rows.{In, first, select, In-select, In-append}
use agent_board.Prelude.Updates.{delete-In, update-In}
use agent_board.Prelude.Order.{best-In}
use agent_board.Store.Types.{
  Run, RunStatus, SchedulerJob, SchedulerLease, Reservation, Question, Db, Env,
}
use agent_board.Store.Tx.{modify}
use agent_board.Store.Rules.{
  transact-leaves, Ensures-if, Ensures-fail, Ensures-pure, Keeps, Ensures, Ensures-bind,
  Ensures-gets,
}
use agent_board.Store.Keeps.{Keeps-then, Keeps-pure, Keeps-found, keeps_rules, Keeps-modify}
use agent_board.Store.Statements.{
  is_run, update_run, set_runs, set_jobs, delete_leases, delete_reservations,
}
use agent_board.Scheduler.Ownership.{release_ownership}
use agent_board.Scheduler.QuestionRecovery.{
  queue_blocking_question_resume, finish_claim, resume_answered, wait_for_answer, resolve_by_status,
  resolve_expired_blocking_question,
}
use agent_board.Scheduler.Expiry.{
  Expired, is_expired, joined, leased_jobs, expires_before, expired_candidate,
  reset_invalid_queued_claim, take_over, claim_unresolved, claim_expired, claim_expired_body,
  claim_expired_job_for_reconciliation,
}

-- The lease of the candidate is one of the table, and has expired.
joined-lease :
    (db : Db) (lease : SchedulerLease) (o : Option SchedulerJob) (e : Expired)
    → In e (joined db lease o)
    → e.lease ≡ lease
unfolding joined
joined-lease db lease none e m = absurd m
joined-lease db lease (some job) e m = row (first (is_run job.project_id job.run_id) db.runs) m
  where
    row :
        (o : Option Run)
        → In e
            (elim o [ none ↦ [] | some run ↦ record { lease = lease; job = job; run = run } ∷ [] ])
        → e.lease ≡ lease
    row none n = absurd n
    row (some run) (inl q) = ap (λ (x : Expired). x.lease) q
    row (some run) (inr n) = absurd n

leased_jobs-lease :
    (db : Db) (ls : List SchedulerLease) (e : Expired) → In e (leased_jobs db ls) → In e.lease ls
unfolding leased_jobs
leased_jobs-lease db [] e m = absurd m
leased_jobs-lease db (l ∷ ls) e m =
    elim (In-append (joined db l (first (λ j. j.id == l.job_id) db.jobs)) (leased_jobs db ls) e m) [
      | inl i ↦ inl (joined-lease db l _ e i)
      | inr i ↦ inr (leased_jobs-lease db ls e i)
    ]

-- The candidate's lease is one of the table, and it has expired.
expired_candidate-lease :
    (env : Env) (db : Db) (e : Expired)
    → expired_candidate env db ≡ some e
    → In e.lease db.leases × (leb e.lease.expires_at env.now ≡ true)
unfolding expired_candidate
expired_candidate-lease env db e h =
    elim (best-In expires_before none (select (is_expired env) (leased_jobs db db.leases)) e h) [
      | inl q ↦ absurd (ground arith)
      | inr i ↦
          let (j, t) = In-select (is_expired env) (leased_jobs db db.leases) e i in
          (leased_jobs-lease db db.leases e j, ground arith)
    ]

-- UNIQUE (lease_token).
abbrev pub TokenKey : Db → Type 0
TokenKey db =
    (a b : SchedulerLease) → In a db.leases → In b db.leases → a.lease_token ≡ b.lease_token → a ≡ b

module _ (l : SchedulerLease) where
  -- The lease is still there.
  abbrev Holds : Db → Type 0
  Holds db = In l db.leases

  runs-Holds : (g : Db → List Run) → Keeps Holds (modify (λ db. record db { runs = g db }))
  runs-Holds g = Keeps-modify _ (λ db m. m)

  jobs-Holds : (g : Db → List SchedulerJob) → Keeps Holds (modify (λ db. record db { jobs = g db }))
  jobs-Holds g = Keeps-modify _ (λ db m. m)

  reservations-Holds :
      (g : Db → List Reservation) → Keeps Holds (modify (λ db. record db { reservations = g db }))
  reservations-Holds g = Keeps-modify _ (λ db m. m)

  delete_leases-Holds :
      (test : SchedulerLease → Bool) → test l ≡ false → Keeps Holds (delete_leases test)
  unfolding delete_leases
  delete_leases-Holds test t =
      Ensures-bind _ _ (Ensures-gets {Q = λ _ db. Holds db} _ (λ db m. m))
        λ n. Keeps-then _ _ (Keeps-modify _ (λ db m. delete-In test db.leases l m t)) (Keeps-pure n)

ruleset frees = (runs-Holds, jobs-Holds, reservations-Holds)

module _ (l : SchedulerLease) (e : Expired)
    (other : (l.lease_token == e.lease.lease_token) ≡ false) where
  release-Holds : (p j : ℕ) → Keeps (Holds l) (release_ownership p j e.lease.lease_token)
  unfolding release_ownership delete_reservations
  release-Holds p j =
      Keeps-then _ _ (reservations-Holds l _) (delete_leases-Holds l _ (ground (arith, other)))

  delete-Holds :
      (j : ℕ)
      → Keeps (Holds l) (delete_leases (λ x. x.job_id == j && x.lease_token == e.lease.lease_token))
  delete-Holds j = delete_leases-Holds l _ (ground (arith, other))

  finish_claim-Holds :
      (env : Env) (job : SchedulerJob) (run : Run)
      → Keeps (Holds l) (finish_claim env job run e.lease)
  unfolding finish_claim set_jobs
  finish_claim-Holds env job run = search (keeps_rules, frees, release-Holds) depth 14

  resume-Holds : (env : Env) (q : Question) → Keeps (Holds l) (queue_blocking_question_resume env q)
  unfolding queue_blocking_question_resume update_run
  resume-Holds env q = search (keeps_rules, frees) depth 16

  resume_answered-Holds :
      (env : Env) (job : SchedulerJob) (run : Run) (o : Option Question)
      → Keeps (Holds l) (resume_answered env job run e.lease o)
  unfolding resume_answered
  resume_answered-Holds env job run none = search keeps_rules
  resume_answered-Holds env job run (some q) =
      search (keeps_rules, finish_claim-Holds, resume-Holds) depth 12

  wait_for_answer-Holds :
      (env : Env) (job : SchedulerJob) (run : Run) (asked : Bool)
      → Keeps (Holds l) (wait_for_answer env job run e.lease asked)
  unfolding wait_for_answer set_runs
  wait_for_answer-Holds env job run false = search keeps_rules
  wait_for_answer-Holds env job run true = search (keeps_rules, frees, finish_claim-Holds) depth 12

  resolve_by_status-Holds :
      (env : Env) (job : SchedulerJob) (run : Run) (s : RunStatus)
      → Keeps (Holds l) (resolve_by_status env job run e.lease s)
  unfolding resolve_by_status
  resolve_by_status-Holds env job run RunStatus.waiting_for_input =
      search (keeps_rules, resume_answered-Holds)
  resolve_by_status-Holds env job run RunStatus.starting =
      search (keeps_rules, wait_for_answer-Holds)
  resolve_by_status-Holds env job run RunStatus.running =
      search (keeps_rules, wait_for_answer-Holds)
  resolve_by_status-Holds env job run _ = search keeps_rules

  take_over-Holds :
      (env : Env) (owner duration : ℕ) → Keeps (Holds l) (take_over env owner duration e)
  unfolding take_over
  take_over-Holds env owner duration =
      Ensures-bind _ _ (Ensures-gets {Q = λ _ db. Holds l db} _ (λ db m. m)) λ token.
        Ensures-bind _ _ (Ensures-gets {Q = λ _ db. Holds l db} _ (λ db m. m)) λ row.
          Keeps-then _ _
            (Keeps-modify _ (λ db m. update-In _ _ db.leases l m (ground (arith, other))))
            (Keeps-found _)

  reset-Holds : (env : Env) → Keeps (Holds l) (reset_invalid_queued_claim env e)
  unfolding reset_invalid_queued_claim set_jobs set_runs delete_reservations
  reset-Holds env = search (keeps_rules, frees, delete-Holds) depth 16

  claim_unresolved-Holds :
      (env : Env) (owner duration : ℕ) (resolved : Bool)
      → Keeps (Holds l) (claim_unresolved env owner duration e resolved)
  unfolding claim_unresolved
  claim_unresolved-Holds env owner duration true = search keeps_rules
  claim_unresolved-Holds env owner duration false =
      search (keeps_rules, reset-Holds, take_over-Holds) depth 12

  claim-Holds :
      (env : Env) (owner duration : ℕ) → Keeps (Holds l) (claim_expired env owner duration (some e))
  unfolding claim_expired resolve_expired_blocking_question
  claim-Holds env owner duration =
      search (keeps_rules, resolve_by_status-Holds, claim_unresolved-Holds) depth 9

other_token :
    (env : Env) (db : Db) (l : SchedulerLease) (e : Expired)
    → TokenKey db
    → In l db.leases
    → env.now < l.expires_at
    → expired_candidate env db ≡ some e
    → (l.lease_token == e.lease.lease_token) ≡ false
other_token env db l e key m live c = elim (Bool-cases (l.lease_token == e.lease.lease_token)) [
  | inl t ↦
      let (i, x) = expired_candidate-lease env db e c in
      let same : l.expires_at ≡ e.lease.expires_at =
        ap (λ (a : SchedulerLease). a.expires_at) (key l e.lease m i (==→eq _ _ t)) in
      absurd (ground (arith, same, x, live))
  | inr t ↦ t
]

candidate-Holds :
    (env : Env) (owner duration : ℕ) (db : Db) (l : SchedulerLease)
    → TokenKey db
    → In l db.leases
    → env.now < l.expires_at
    → (o : Option Expired)
    → Ensures
        (λ d. Holds l d × (expired_candidate env db ≡ o))
        (claim_expired env owner duration o)
        (λ _ d. Holds l d)
unfolding claim_expired
candidate-Holds env owner duration db l key m live none = Ensures-pure none (λ d p. p.0)
candidate-Holds env owner duration db l key m live (some e) = record {
  at = λ d p. (claim-Holds l e (other_token env db l e key m live p.1) env owner duration).at d p.0;
}

-- Taking over expired jobs leaves a lease that has not expired where it is: where no two leases
-- share a token, every unexpired lease of the table is in the table after the call, unchanged.
pub claim_expired_job-Survives :
    (env : Env) (owner_id lease_duration : ℕ) (db : Db) (l : SchedulerLease)
    → TokenKey db
    → In l db.leases
    → env.now < l.expires_at
    → In l (claim_expired_job_for_reconciliation env owner_id lease_duration db).1.leases
unfolding claim_expired_job_for_reconciliation claim_expired_body
claim_expired_job-Survives env owner duration db l key m live =
    transact-leaves {P = λ d. d ≡ db} {R = Holds l} _
      (Ensures-if (owner == 0 || duration == 0) _ _ (λ _. Ensures-fail _)
        λ _.
          Ensures-bind {Q = λ o d. Holds l d × (expired_candidate env db ≡ o)} _ _
            (Ensures-gets _
              (λ d q. (subst (λ x. Holds l x) (sym q) m, ap (expired_candidate env) (sym q))))
            λ o. candidate-Holds env owner duration db l key m live o)
      db refl m
