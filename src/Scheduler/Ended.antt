-- ===== src/Scheduler/Ended.antt =====
-- The status of a run that has ended.
use agent_board.Prelude.{
  ℕ, ◌≡◌, refl, ap, ◌∙◌, ◌==◌, ◌||◌, Bool, true, Bool-cases, some, List, inl, inr, arith,
  if◌then◌else◌,
}
use agent_board.Prelude.Rows.{In-first, first, update}
use agent_board.Prelude.Updates.{first-update}
use agent_board.Store.Types.{
  Run, RunStatus, SchedulerJob, Reservation, ResourceKind, Db, Env, is_terminal,
}
use agent_board.Scheduler.Frame.History.{run_calls-Keeps}
use agent_board.Store.Tx.{modify, invalid_argument}
use agent_board.Store.Rules.{Keeps, Ensures-modify}
use agent_board.Store.Keeps.{keeps_rules, Keeps-modify, Keeps-if, Keeps-fail, transact-Keeps}
use agent_board.Store.Statements.{is_run, delete_reservations}
use agent_board.Scheduler.Admission.{insert_capacity_reservation, admit_next_job}
use agent_board.Scheduler.Calls.{Call, run_calls}
use agent_board.Scheduler.Frame.{Frame, Unended}
use agent_board.Scheduler.Frame.Admission.{admit_body-Keeps}

-- The run of these keys is there, in this status.
pub record HasStatus (project_id run_id : ℕ) (status : RunStatus) (db : Db) : Type 0 where
  pub row : Run
  pub is_row : first (is_run project_id run_id) db.runs ≡ some row
  pub is_status : row.status ≡ status

same_keys :
    (p r : ℕ) (change : Run → Run) (x : Run)
    → ((change x).project_id ≡ x.project_id) × ((change x).id ≡ x.id)
    → is_run p r (change x) ≡ is_run p r x
same_keys p r change x k = rw (k.0, k.1) refl

-- A database with the same runs.
moved :
    {p r : ℕ} {s : RunStatus} (db : Db) (db' : Db)
    → db'.runs ≡ db.runs
    → HasStatus p r s db
    → HasStatus p r s db'
moved db db' same h = record {
  row = h.row;
  is_row = ap (first _) same ∙ h.is_row;
  is_status = h.is_status;
}

module _ (p r : ℕ) (s : RunStatus) (t : is_terminal s ≡ true) where
  rewritten-HasStatus :
      (test : Run → Bool) (change : Run → Run) (db : Db) (h : HasStatus p r s db)
      → ((x : Run)
          → test x ≡ true
          → ((change x).project_id ≡ x.project_id) × ((change x).id ≡ x.id))
      → (test h.row ≡ true → (change h.row).status ≡ s)
      → HasStatus p r s (record db { runs = update test change db.runs })
  rewritten-HasStatus test change db h k q = record {
    row = if test h.row then change h.row else h.row;
    is_row =
        first-update (is_run p r) test change db.runs {y = h.row}
          (λ x u. same_keys p r change x (k x u)) h.is_row;
    is_status = elim (Bool-cases (test h.row)) [
      | inl u ↦ rw (u) (q u)
      | inr u ↦ rw (u) h.is_status
    ];
  }

  ended_row : (db : Db) (h : HasStatus p r s db) → is_terminal h.row.status ≡ true
  ended_row db h = rw (h.is_status) t

  -- The row of the keys is the one that a fenced write finds.
  fenced_row :
      (p' r' : ℕ) (db : Db) (h : HasStatus p r s db)
      → Unended p' r' db
      → is_run p' r' h.row ≡ true
      → ⊥
  fenced_row p' r' db h n u =
      let mine = (In-first (is_run p r) db.runs {x = h.row} h.is_row).1 in
      let same_p : p ≡ p' = ground (arith, mine, u) in
      let same_r : r ≡ r' = ground (arith, mine, u) in
      let found : first (is_run p' r') db.runs ≡ some h.row = rw (← same_p, ← same_r) h.is_row in
      absurd (ground (arith, n h.row found, ended_row db h))

  HasStatus-Frame : Frame (HasStatus p r s)
  unfolding delete_reservations
  HasStatus-Frame = record {
    jobs = λ g. Keeps-modify _ (λ db h. moved db _ refl h);
    leases = λ g. Keeps-modify _ (λ db h. moved db _ refl h);
    events = λ g. Keeps-modify _ (λ db h. moved db _ refl h);
    work_requests = λ g. Keeps-modify _ (λ db h. moved db _ refl h);
    delegations = λ g. Keeps-modify _ (λ db h. moved db _ refl h);
    reviews = λ g. Keeps-modify _ (λ db h. moved db _ refl h);
    questions = λ g q. Keeps-modify _ (λ db h. moved db _ refl h);
    deletes = λ test. Keeps-modify _ (λ db h. moved db _ refl h);
    runs = λ test change k. Keeps-modify _ λ db h.
        rewritten-HasStatus test change db h (λ x u. ((k x u).0, (k x u).1))
          (λ u. (k h.row u).2 (ended_row db h) ∙ h.is_status);
    fenced = λ p' r' change k. Ensures-modify _ λ db h.
        rewritten-HasStatus (is_run p' r') change db h.0 (λ x u. k x)
          (λ u. absurd (fenced_row p' r' db h.0 h.1 u));
  }

  reservations-HasStatus :
      (g : Db → List Reservation)
      → Keeps (HasStatus p r s) (modify (λ db. record db { reservations = g db }))
  reservations-HasStatus g = Keeps-modify _ (λ db h. moved db _ refl h)

  reserve-HasStatus :
      (job : SchedulerJob) (run : Run) (kind : ResourceKind) (id : ℕ)
      → Keeps (HasStatus p r s) (insert_capacity_reservation job run kind id)
  unfolding insert_capacity_reservation
  reserve-HasStatus job run kind id = search (keeps_rules, reservations-HasStatus) depth 9

  admit-HasStatus :
      (env : Env) (owner lease backoff : ℕ) (db : Db)
      → HasStatus p r s db
      → HasStatus p r s (admit_next_job env owner lease backoff db).1
  unfolding admit_next_job
  admit-HasStatus env owner lease backoff db h =
      transact-Keeps _
        (Keeps-if (owner == 0 || lease == 0 || backoff == 0) _ _ (Keeps-fail invalid_argument)
          (admit_body-Keeps HasStatus-Frame reserve-HasStatus env owner lease backoff))
        db h

-- A run that is COMPLETED, FAILED or CANCELLED keeps that status through every history of
-- enqueues, admissions, lease renewals, transitions, claims of expired jobs, reconciliations,
-- cancellations and releases.
pub run_calls-HasStatus :
    (project_id run_id : ℕ) (status : RunStatus) (db : Db) (calls : List Call)
    → is_terminal status ≡ true
    → HasStatus project_id run_id status db
    → HasStatus project_id run_id status (run_calls db calls)
run_calls-HasStatus p r s db calls t h =
    run_calls-Keeps (HasStatus-Frame p r s t) (admit-HasStatus p r s t) db calls h
