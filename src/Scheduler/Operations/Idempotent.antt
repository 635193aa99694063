-- ===== src/Scheduler/Operations/Idempotent.antt =====
-- EnqueueJob: jobs and their idempotency keys.
use agent_board.Prelude.{
  ℕ, ◌&&◌, ◌==◌, ==_refl, ◌≡◌, refl, ap, ◌∙◌, Bool, true, false, Bool-cases, Option, some, none,
  inl, inr, arith,
}
use agent_board.Prelude.Rows.{any, first}
use agent_board.Prelude.Updates.{first-any, first-append}
use agent_board.Store.Types.{JobKind, IdempotencyKey, SchedulerJob, Db, Env, same_key}
use agent_board.Store.Tx.{ok, ◌>>=◌, ◌>>◌, gets, pure, fail, transact}
use agent_board.Store.Rules.{
  Ensures, Ensures-bind, Ensures-then, Ensures-gets, Ensures-modify, Ensures-pure, Ensures-if,
  Ensures-fail, Ensures-before, transact-Ensures,
}
use agent_board.Store.Statements.{is_run, insert_job}
use agent_board.Scheduler.Operations.{
  Enqueue, is_blank_key, same_job_kind, kind_of, is_runnable, queued_job, enqueue_again,
  enqueue_inserted, enqueue_body, enqueue_job,
}

abbrev pub has_key : Enqueue → SchedulerJob → Bool
has_key input j = same_key j.idempotency_key input.idempotency_key

abbrev pub answers : Enqueue → SchedulerJob → Bool
answers input job =
    job.project_id == input.project_id
    && job.run_id == input.run_id
    && same_job_kind job.kind (kind_of input)

-- The key's job, and the job is what the caller asked for.
pub record Holds (input : Enqueue) (job : SchedulerJob) (db : Db) : Type 0 where
  pub holder : first (has_key input) db.jobs ≡ some job
  pub asked : answers input job ≡ true

same_key_refl : (k : IdempotencyKey) → same_key k k ≡ true
same_key_refl (IdempotencyKey.given a) = ==_refl a
same_key_refl (IdempotencyKey.delegation_resume a) = ==_refl a
same_key_refl (IdempotencyKey.question_resume a) = ==_refl a

same_job_kind_refl : (k : JobKind) → same_job_kind k k ≡ true
same_job_kind_refl JobKind.start = refl
same_job_kind_refl JobKind.resume = refl

queued_job-answers :
    (env : Env) (input : Enqueue) (id : ℕ) → answers input (queued_job env input id) ≡ true
queued_job-answers env input id =
    ground
      (arith, ==_refl input.project_id, ==_refl input.run_id, same_job_kind_refl (kind_of input))

enqueue_again-Holds :
    (input : Enqueue) (o : Option SchedulerJob)
    → Ensures
        (λ db. first (has_key input) db.jobs ≡ o)
        (enqueue_again input o)
        (λ job db. Holds input job db)
unfolding enqueue_again
enqueue_again-Holds input (some existing) =
    Ensures-if (answers input existing) _ _
      (λ t. Ensures-pure existing (λ db e. record { holder = e; asked = t })) (λ _. Ensures-fail _)
enqueue_again-Holds input none =
    Ensures-bind {Q = λ _ _. Unit {0}} _ _ (Ensures-before _ (λ _ _. tt))
      λ b. Ensures-if b _ _ (λ _. Ensures-fail _) (λ _. Ensures-fail _)

-- What an insertion leaves: the new job under its key, or nothing new.
abbrev pub Inserted : Enqueue → Option SchedulerJob → Db → Type 0
Inserted input none db = Unit {0}
Inserted input (some job) db = Holds input job db

enqueue_inserted-Holds :
    (input : Enqueue) (o : Option SchedulerJob)
    → Ensures (Inserted input o) (enqueue_inserted input o) (λ job db. Holds input job db)
unfolding enqueue_inserted
enqueue_inserted-Holds input (some job) = Ensures-pure job (λ db h. h)
enqueue_inserted-Holds input none =
    Ensures-bind {Q = λ o db. first (has_key input) db.jobs ≡ o} _ _ (Ensures-gets _ (λ _ _. refl))
      (enqueue_again-Holds input)

insert_job-Inserted :
    (env : Env) (input : Enqueue) (id : ℕ)
    → Ensures (λ _. Unit {0}) (insert_job (queued_job env input id)) (Inserted input)
unfolding insert_job
insert_job-Inserted env input id =
    Ensures-bind {Q = λ taken db. any (has_key input) db.jobs ≡ taken} _ _
      (Ensures-gets _ (λ _ _. refl))
      λ taken.
        Ensures-if taken _ _ (λ _. Ensures-pure none (λ _ _. tt))
          λ free.
            Ensures-then {Q = Inserted input (some (queued_job env input id))} _ _
              (Ensures-modify _ (λ db e. record {
                holder =
                    first-append (has_key input) db.jobs (queued_job env input id) (e ∙ free)
                      (same_key_refl input.idempotency_key);
                asked = queued_job-answers env input id;
              }))
              (Ensures-pure _ (λ _ h. h))

enqueue_body-Holds :
    (env : Env) (input : Enqueue)
    → Ensures (λ _. Unit {0}) (enqueue_body env input) (λ job db. Holds input job db)
unfolding enqueue_body
enqueue_body-Holds env input =
    Ensures-bind {Q = λ _ _. Unit {0}} _ _ (Ensures-before _ (λ _ _. tt)) λ runnable.
      Ensures-bind {Q = λ _ _. Unit {0}} _ _ (Ensures-before _ (λ _ _. tt)) λ id.
        Ensures-bind {Q = Inserted input} _ _
          (Ensures-if runnable (insert_job (queued_job env input id)) (pure none)
            (λ _. insert_job-Inserted env input id) (λ _. Ensures-pure none (λ _ _. tt)))
          (enqueue_inserted-Holds input)

-- Where the key's job is what the caller asks for, the call returns it and writes nothing.
enqueue_job-holder :
    (env : Env) (input : Enqueue) (db : Db) (job : SchedulerJob)
    → is_blank_key input.idempotency_key ≡ false
    → Holds input job db
    → enqueue_job env input db ≡ (ok job, db)
unfolding enqueue_job enqueue_body insert_job enqueue_inserted enqueue_again transact ◌>>=◌ ◌>>◌
    gets pure fail
enqueue_job-holder env input db job k h =
    elim (Bool-cases
      (is_runnable input db (first (is_run input.project_id input.run_id) db.runs))) [
        | inl r ↦
            ground
              (arith, first-any (has_key input) db.jobs {x = job} h.holder, h.holder, h.asked, r)
        | inr r ↦ ground (arith, h.holder, h.asked, r)
      ]

-- The same job is asked for: the wait and the time may differ.
pub record SameRequest (input input' : Enqueue) : Type 0 where
  pub key : input'.idempotency_key ≡ input.idempotency_key
  pub project : input'.project_id ≡ input.project_id
  pub run : input'.run_id ≡ input.run_id
  pub kind : kind_of input' ≡ kind_of input

SameRequest-Holds :
    (input input' : Enqueue) (job : SchedulerJob) (db : Db)
    → SameRequest input input'
    → Holds input job db
    → Holds input' job db
SameRequest-Holds input input' job db s h = record {
  holder =
      ap (λ k. first (λ (j : SchedulerJob). same_key j.idempotency_key k) db.jobs) s.key ∙ h.holder;
  asked = rw (s.project, s.run, s.kind) h.asked;
}

-- Enqueueing is idempotent: after a call that succeeds, a call with the same key, project, run and
-- kind, whatever its wait reason and its time, made on the database that the first one leaves, at
-- any time and with whatever ids, returns the same job and changes nothing.
pub enqueue_job-again :
    (env env' : Env) (input input' : Enqueue) (db db' : Db) (job : SchedulerJob)
    → is_blank_key input.idempotency_key ≡ false
    → SameRequest input input'
    → enqueue_job env input db ≡ (ok job, db')
    → enqueue_job env' input' db' ≡ (ok job, db')
unfolding enqueue_job
enqueue_job-again env env' input input' db db' job k same e =
    enqueue_job-holder env' input' db' job (ap is_blank_key same.key ∙ k) (
      SameRequest-Holds input input' job db' same (
        transact-Ensures {P = λ _. Unit {0}} {Q = λ job db. Holds input job db} _
          (Ensures-if (is_blank_key input.idempotency_key) _ _ (λ _. Ensures-fail _)
            (λ _. enqueue_body-Holds env input))
          db tt job db' e))
