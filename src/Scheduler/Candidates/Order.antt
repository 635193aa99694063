-- ===== src/Scheduler/Candidates/Order.antt =====
-- lockNextAdmissionCandidate: the row that the ordered query returns, in words of the tables.
use mathlib.Core.Path.{subst}
use agent_board.Prelude.{
  ◌≤◌, ◌≡◌, refl, sym, ◌⊎◌, ◌&&◌, ◌==◌, true, false, Bool-cases, Option, Option-cases, some, none,
  List, [], ◌∷◌, inl, inr, arith,
}
use agent_board.Prelude.Rows.{In, In-append, first, select, In-select}
use agent_board.Prelude.Updates.{select-In, In-append_left, In-append_right}
use agent_board.Prelude.Order.{IsOrder, best-In, best-none, best-least}
use agent_board.Store.Types.{
  Run, RunStatus, JobState, SchedulerJob, Issue, Db, Env, is_queued_job, is_queued_run,
}
use agent_board.Store.Statements.{is_run}
use agent_board.Scheduler.Candidates.{
  Candidate, goes_before, eligible, candidates, candidate_of, next_candidate,
  terminal_parent_cleanup,
}

-- A row of the query: a job, its run, the priority of the run's issue, and whether the run is to be
-- cleaned up after a parent that has ended.
pub record IsRow (db : Db) (jobs : List SchedulerJob) (c : Candidate) : Type 0 where
  pub job : In c.job jobs
  pub run : first (is_run c.job.project_id c.job.run_id) db.runs ≡ some c.run
  pub issue : Issue
  pub is_issue :
      first (λ i. i.project_id == c.run.project_id && i.id == c.run.issue_id) db.issues ≡ some issue
  pub priority : c.priority ≡ issue.priority
  pub cleanup : c.cleanup ≡ terminal_parent_cleanup db c.run

-- The conditions of the query.
pub record IsReady (env : Env) (c : Candidate) : Type 0 where
  pub job_queued : c.job.state ≡ JobState.queued
  pub run_queued : c.run.status ≡ RunStatus.queued
  pub due : (c.job.available_at ≤ env.now) ⊎ (c.cleanup ≡ true)
  pub unlocked : env.is_locked c.job.id ≡ false

-- The order of the query: a row to clean up, then the higher priority, then the job that is
-- available earlier, then the older one, then the smaller id.
pub record ComesFirst (c x : Candidate) : Type 0 where
  pub cleanup : x.cleanup ≡ true → c.cleanup ≡ true
  pub priority : x.cleanup ≡ c.cleanup → x.priority ≤ c.priority
  pub available :
      x.cleanup ≡ c.cleanup → x.priority ≡ c.priority → c.job.available_at ≤ x.job.available_at
  pub created :
      x.cleanup ≡ c.cleanup
      → x.priority ≡ c.priority
      → c.job.available_at ≡ x.job.available_at
      → c.job.created_at ≤ x.job.created_at
  pub id :
      x.cleanup ≡ c.cleanup
      → x.priority ≡ c.priority
      → c.job.available_at ≡ x.job.available_at
      → c.job.created_at ≡ x.job.created_at
      → c.job.id ≤ x.job.id

is_queued_job_lem : (s : JobState) → is_queued_job s ≡ true → s ≡ JobState.queued
is_queued_job_lem JobState.queued h = refl
is_queued_job_lem s h = absurd (ground (arith, h))

is_queued_run_lem : (s : RunStatus) → is_queued_run s ≡ true → s ≡ RunStatus.queued
is_queued_run_lem RunStatus.queued h = refl
is_queued_run_lem s h = absurd (ground (arith, h))

eligible-IsReady : (env : Env) (c : Candidate) → eligible env c ≡ true → IsReady env c
eligible-IsReady env c h = record {
  job_queued = is_queued_job_lem c.job.state (ground (arith, h));
  run_queued = is_queued_run_lem c.run.status (ground (arith, h));
  due = elim (Bool-cases (c.cleanup)) [ inl t ↦ inr t | inr t ↦ inl (ground (arith, h, t)) ];
  unlocked = ground (arith, h);
}

IsReady-eligible : (env : Env) (c : Candidate) → IsReady env c → eligible env c ≡ true
IsReady-eligible env c r =
    rw (r.job_queued, r.run_queued, r.unlocked)
      (elim (r.due) [ inl l ↦ ground (arith, l) | inr t ↦ ground (arith, t) ])

goes_before-ComesFirst : (c x : Candidate) → goes_before x c ≡ false → ComesFirst c x
goes_before-ComesFirst c x h = record {
  cleanup =
      λ t. elim (Bool-cases (c.cleanup)) [ inl u ↦ u | inr u ↦ absurd (ground (arith, h, t, u)) ];
  priority = λ a. ground (arith, h, a);
  available = λ a b. ground (arith, h, a, b);
  created = λ a b d. ground (arith, h, a, b, d);
  id = λ a b d e. ground (arith, h, a, b, d, e);
}

goes_before-IsOrder : IsOrder goes_before
goes_before-IsOrder = record {
  irreflexive = λ a. ground arith;
  transitive = λ a b c h k. ground arith;
}

module _ (db : Db) where
  candidate_of-IsRow :
      (jobs : List SchedulerJob) (job : SchedulerJob) (o : Option Run) (c : Candidate)
      → In job jobs
      → first (is_run job.project_id job.run_id) db.runs ≡ o
      → In c (candidate_of db job o)
      → IsRow db jobs c
  unfolding candidate_of
  candidate_of-IsRow jobs job none c m e i = absurd i
  candidate_of-IsRow jobs job (some run) c m e i =
      elim (Option-cases
        (first (λ (x : Issue). x.project_id == run.project_id && x.id == run.issue_id) db.issues)) [
          | inl n ↦
              let f : In c (candidate_of db job (some run)) → IsRow db jobs c =
                rw (candidate_of, n) (λ j. absurd j) in
              f i
          | inr (issue, q) ↦
              let f : In c (candidate_of db job (some run)) → IsRow db jobs c =
                rw (candidate_of, q)
                  (λ j. elim j [
                    | inl w ↦ subst (IsRow db jobs) (sym w) (record {
                      job = m;
                      run = e;
                      issue = issue;
                      is_issue = q;
                      priority = refl;
                      cleanup = refl;
                    })
                    | inr w ↦ absurd w
                  ]) in
              f i
        ]

  candidates-IsRow :
      (jobs : List SchedulerJob) (c : Candidate) → In c (candidates db jobs) → IsRow db jobs c
  unfolding candidates
  candidates-IsRow [] c m = absurd m
  candidates-IsRow (job ∷ jobs) c m =
      elim (In-append (candidate_of db job (first (is_run job.project_id job.run_id) db.runs)) _ c
        m) [
          | inl i ↦ candidate_of-IsRow (job ∷ jobs) job _ c (inl refl) refl i
          | inr i ↦
              let r = candidates-IsRow jobs c i in
              record {
                job = inr r.job;
                run = r.run;
                issue = r.issue;
                is_issue = r.is_issue;
                priority = r.priority;
                cleanup = r.cleanup;
              }
        ]

  -- The row of a job is the one that the joins make.
  IsRow-candidate_of :
      (jobs : List SchedulerJob) (c : Candidate)
      → IsRow db jobs c
      → In c (candidate_of db c.job (first (is_run c.job.project_id c.job.run_id) db.runs))
  unfolding candidate_of
  IsRow-candidate_of jobs c r =
      rw (r.run, candidate_of, r.is_issue)
        (inl (λ i. record c { cleanup = r.cleanup i; priority = r.priority i }))

  joined :
      (jobs : List SchedulerJob) (job : SchedulerJob) (c : Candidate)
      → In job jobs
      → In c (candidate_of db job (first (is_run job.project_id job.run_id) db.runs))
      → In c (candidates db jobs)
  unfolding candidates
  joined [] job c m i = absurd m
  joined (x ∷ jobs) job c (inl e) i =
      In-append_left (candidate_of db x (first (is_run x.project_id x.run_id) db.runs)) _ c (
        subst
          (λ (j : SchedulerJob).
            In c (candidate_of db j (first (is_run j.project_id j.run_id) db.runs)))
          e i)
  joined (x ∷ jobs) job c (inr m) i =
      In-append_right (candidate_of db x (first (is_run x.project_id x.run_id) db.runs)) _ c
        (joined jobs job c m i)

  IsRow-candidates : (c : Candidate) → IsRow db db.jobs c → In c (candidates db db.jobs)
  IsRow-candidates c r = joined db.jobs c.job c r.job (IsRow-candidate_of db.jobs c r)

-- The candidate of an admission is a row of the tables (a job, its run and the run's issue) whose
-- job and run are queued, that is available or is to be cleaned up after a parent that has ended,
-- and that no other transaction has locked; and it comes first among all such rows: those to clean
-- up, then the higher priority, then the job available earlier, the older one, the smaller id.
pub next_candidate-least :
    (env : Env) (db : Db) (c : Candidate)
    → next_candidate env db ≡ some c
    → IsRow db db.jobs c
      × IsReady env c
      × ((x : Candidate) → IsRow db db.jobs x → IsReady env x → ComesFirst c x)
unfolding next_candidate
next_candidate-least env db c e =
    elim (best-In goes_before none (select (eligible env) (candidates db db.jobs)) c e) [
      | inl q ↦ absurd (ground arith)
      | inr i ↦
          let (j, t) = In-select (eligible env) (candidates db db.jobs) c i in
          (
            candidates-IsRow db db.jobs c j,
            eligible-IsReady env c t,
            λ x k u. goes_before-ComesFirst c x (
                best-least goes_before goes_before-IsOrder _ c x e (
                  select-In (eligible env) _ x (IsRow-candidates db x k)
                    (IsReady-eligible env x u))),
          )
    ]

-- The query is not empty while there is a row whose job and run are queued, that is available or is
-- to be cleaned up after a parent that has ended, and that no other transaction has locked.
pub next_candidate-some :
    (env : Env) (db : Db) (x : Candidate)
    → IsRow db db.jobs x
    → IsReady env x
    → (c : Candidate) × (next_candidate env db ≡ some c)
unfolding next_candidate
next_candidate-some env db x k u = elim (Option-cases (next_candidate env db)) [
  | inl e ↦ absurd (
      best-none goes_before _ x e
        (select-In (eligible env) _ x (IsRow-candidates db x k) (IsReady-eligible env x u)))
  | inr found ↦ found
]
