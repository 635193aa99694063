-- ===== src/Scheduler/Capacity/Limits.antt =====
-- The parts of admission: the claim of a job, the locked limits, the chosen runner.
use agent_board.Prelude.{ℕ, ◌≡◌, refl, sym, ap, ◌∙◌, ◌==◌, ==→eq, Option, some}
use agent_board.Prelude.Rows.{In, In-first, first}
use agent_board.Store.Types.{Agent, ModelProfile, Db, Env}
use agent_board.Store.Rules.{
  Ensures, Ensures-bind, Ensures-gets, Ensures-found, Ensures-pure, Ensures-then,
}
use agent_board.Scheduler.Candidates.{Candidate}
use agent_board.Scheduler.Admission.{lock_admission_resources, claim_job}
use agent_board.Scheduler.Capacity.{Inv, Keeps-Inv}
use agent_board.Scheduler.Capacity.Steps.{Shrinks-Frame}
use agent_board.Scheduler.Frame.Steps.{steps}
use agent_board.Scheduler.Frame.Admission.{insert_lease-Keeps}
use agent_board.Scheduler.Frame.Parts.{seal_agent_work_requests-Keeps}
use agent_board.Scheduler.Capacity.Room.{
  AgentRoom, ModelRoom, RunnerRoom, insert_runner-Ensures, insert_agent-Ensures,
  insert_model-Ensures,
}

-- Admission's three reservations, its lease and its claim.
pub claim_job-Inv :
    (env : Env) (owner duration : ℕ) (c : Candidate) (a m r : ℕ)
    → Ensures
        (λ db. Inv db × AgentRoom a db × ModelRoom m db × RunnerRoom r db)
        (claim_job env owner duration c (a, m) r)
        (λ _ db. Inv db)
unfolding claim_job
claim_job-Inv env owner duration c a m r =
    Ensures-then _ _ (insert_runner-Ensures c.job c.run a m r) (
      Ensures-then _ _ (insert_agent-Ensures c.job c.run a m) (
        Ensures-then _ _ (insert_model-Ensures c.job c.run m) (
          Keeps-Inv _ (λ d.
            search (Shrinks-Frame, steps, insert_lease-Keeps, seal_agent_work_requests-Keeps) depth
              12))))

-- What the locked limits say of every agent and model profile of that key.
abbrev pub LimitsOf : ℕ → ℕ → ℕ × Option ℕ → Db → Type 0
LimitsOf a m limits db =
    ((x : Agent) → In x db.agents → x.id ≡ a → x.concurrency_limit ≡ limits.0)
    × ((x : ModelProfile) → In x db.models → x.id ≡ m → x.max_concurrent ≡ limits.1)

agent_limit :
    (a : ℕ) (db : Db) (y : Agent)
    → Inv db
    → first (λ (x : Agent). x.id == a) db.agents ≡ some y
    → (x : Agent) → In x db.agents
    → x.id ≡ a
    → x.concurrency_limit ≡ y.concurrency_limit
agent_limit a db y v e x i k =
    let (j, t) = In-first _ db.agents {x = y} e in
    ap (λ (z : Agent). z.concurrency_limit) (v.keys.agent_key x y i j (k ∙ sym (==→eq y.id a t)))

model_limit :
    (m : ℕ) (db : Db) (y : ModelProfile)
    → Inv db
    → first (λ (x : ModelProfile). x.id == m) db.models ≡ some y
    → (x : ModelProfile) → In x db.models
    → x.id ≡ m
    → x.max_concurrent ≡ y.max_concurrent
model_limit m db y v e x i k =
    let (j, t) = In-first _ db.models {x = y} e in
    ap (λ (z : ModelProfile). z.max_concurrent)
      (v.keys.model_key x y i j (k ∙ sym (==→eq y.id m t)))

pub lock_limits :
    (a m : ℕ)
    → Ensures Inv (lock_admission_resources a m) (λ limits db. Inv db × LimitsOf a m limits db)
unfolding lock_admission_resources
lock_limits a m =
    Ensures-bind {Q = λ row db. Inv db × (first (λ (x : Agent). x.id == a) db.agents ≡ row)} _ _
      (Ensures-gets _ (λ db v. (v, refl)))
      λ row.
        Ensures-bind {Q = λ y db. Inv db × (first (λ (x : Agent). x.id == a) db.agents ≡ some y)} _
          _ (Ensures-found row (λ y e db p. (p.0, p.1 ∙ e)))
          λ y.
            Ensures-bind
              {Q = λ row' db.
                Inv db
                × (first (λ (x : Agent). x.id == a) db.agents ≡ some y)
                × (first (λ (x : ModelProfile). x.id == m) db.models ≡ row')}
              _ _ (Ensures-gets _ (λ db p. (p.0, p.1, refl)))
              λ row'.
                Ensures-bind
                  {Q = λ z db.
                    Inv db
                    × (first (λ (x : Agent). x.id == a) db.agents ≡ some y)
                    × (first (λ (x : ModelProfile). x.id == m) db.models ≡ some z)}
                  _ _ (Ensures-found row' (λ z e db p. (p.0, p.1, p.2 ∙ e)))
                  λ z.
                    Ensures-pure _
                      (λ db p. (p.0, (agent_limit a db y p.0 p.1, model_limit m db z p.0 p.2)))
