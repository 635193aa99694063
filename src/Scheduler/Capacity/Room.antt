-- ===== src/Scheduler/Capacity/Room.antt =====
-- Room for one more reservation, and what a reservation takes of it.
use agent_board.Prelude.{
  ℕ, ◌+◌, ◌≤◌, ◌<◌, ◌≡◌, refl, false, some, [], ◌∷◌, ◌++◌, arith, ◌==◌, if◌then◌else◌, ◌&&◌,
}
use agent_board.Prelude.Rows.{In, count, count-append}
use agent_board.Store.Types.{
  ResourceKind, Reservation, Agent, ModelProfile, Runner, Run, SchedulerJob, Db, same_kind,
}
use agent_board.Store.Tx.{◌>>◌}
use agent_board.Store.Rules.{Ensures, Ensures-bind, Ensures-gets, Ensures-guard, Ensures-modify}
use agent_board.Scheduler.Admission.{insert_capacity_reservation}
use agent_board.Scheduler.Runners.{reserved, reserves, runner_limit}
use agent_board.Scheduler.Capacity.{Inv}

abbrev pub AgentRoom : ℕ → Db → Type 0
AgentRoom id db =
    (a : Agent)
    → In a db.agents
    → a.id ≡ id
    → reserved ResourceKind.agent id db < a.concurrency_limit

abbrev pub ModelRoom : ℕ → Db → Type 0
ModelRoom id db =
    (m : ModelProfile) (limit : ℕ)
    → In m db.models
    → m.id ≡ id
    → m.max_concurrent ≡ some limit
    → reserved ResourceKind.model_profile id db < limit

abbrev pub RunnerRoom : ℕ → Db → Type 0
RunnerRoom id db =
    (r : Runner) → In r db.runners → r.id ≡ id → reserved ResourceKind.runner id db < runner_limit r

abbrev pub HasRoom : ResourceKind → ℕ → Db → Type 0
HasRoom ResourceKind.agent = AgentRoom
HasRoom ResourceKind.model_profile = ModelRoom
HasRoom ResourceKind.runner = RunnerRoom

abbrev reservation : SchedulerJob → Run → ResourceKind → ℕ → Reservation
reservation job run kind id = record {
  project_id = job.project_id;
  job_id = job.id;
  run_id = run.id;
  resource_kind = kind;
  resource_id = id;
}

abbrev with_reservation : SchedulerJob → Run → ResourceKind → ℕ → Db → Db
with_reservation job run kind id db = record db {
  reservations = db.reservations ++ reservation job run kind id ∷ [];
}

-- One more of its own kind and resource, and as many as before of any other.
reserved-with :
    (job : SchedulerJob) (run : Run) (kind kind' : ResourceKind) (id id' : ℕ) (db : Db)
    → reserved kind' id' (with_reservation job run kind id db)
      ≡ reserved kind' id' db + (if same_kind kind kind' && id == id' then 1 else 0)
unfolding count
reserved-with job run kind kind' id id' db =
    ground
      (arith, count-append (reserves kind' id') db.reservations (reservation job run kind id ∷ []))

module _ (job : SchedulerJob) (run : Run) where
  insert-Ensures :
      {P Q : Db → Type 0} (kind : ResourceKind) (id : ℕ)
      → ((db : Db) → P db → Q (with_reservation job run kind id db))
      → Ensures P (insert_capacity_reservation job run kind id) (λ _ db. Q db)
  unfolding insert_capacity_reservation ◌>>◌
  insert-Ensures {P} kind id h =
      Ensures-bind {Q = λ _ db. P db} _ _ (Ensures-gets _ (λ db p. p)) (λ taken.
        Ensures-bind {Q = λ _ db. P db} _ _ (Ensures-guard _ _ (λ e db p. p))
          (λ _. Ensures-modify _ h))

  agents-with :
      (kind : ResourceKind) (id : ℕ) (db : Db)
      → Inv db
      → HasRoom kind id db
      → (a : Agent) → In a db.agents
      → reserved ResourceKind.agent a.id (with_reservation job run kind id db) ≤ a.concurrency_limit
  agents-with ResourceKind.agent id db v room a i = ground (
    arith,
    reserved-with job run ResourceKind.agent ResourceKind.agent id a.id db,
    v.within.agents_within a i,
    room a i,
  )
  agents-with kind id db v room a i =
      ground (
        arith,
        reserved-with job run kind ResourceKind.agent id a.id db,
        v.within.agents_within a i,
      )

  models-with :
      (kind : ResourceKind) (id : ℕ) (db : Db)
      → Inv db
      → HasRoom kind id db
      → (m : ModelProfile) (limit : ℕ) → In m db.models
      → m.max_concurrent ≡ some limit
      → reserved ResourceKind.model_profile m.id (with_reservation job run kind id db) ≤ limit
  models-with ResourceKind.model_profile id db v room m limit i e = ground (
    arith,
    reserved-with job run ResourceKind.model_profile ResourceKind.model_profile id m.id db,
    v.within.models_within m limit i e,
    room m limit i,
  )
  models-with kind id db v room m limit i e = ground (
    arith,
    reserved-with job run kind ResourceKind.model_profile id m.id db,
    v.within.models_within m limit i e,
  )

  runners-with :
      (kind : ResourceKind) (id : ℕ) (db : Db)
      → Inv db
      → HasRoom kind id db
      → (r : Runner) → In r db.runners
      → reserved ResourceKind.runner r.id (with_reservation job run kind id db) ≤ runner_limit r
  runners-with ResourceKind.runner id db v room r i = ground (
    arith,
    reserved-with job run ResourceKind.runner ResourceKind.runner id r.id db,
    v.within.runners_within r i,
    room r i,
  )
  runners-with kind id db v room r i = ground (
    arith,
    reserved-with job run kind ResourceKind.runner id r.id db,
    v.within.runners_within r i,
  )

  -- A reservation that there is room for.
  with-Inv :
      (kind : ResourceKind) (id : ℕ) (db : Db)
      → Inv db
      → HasRoom kind id db
      → Inv (with_reservation job run kind id db)
  with-Inv kind id db v room = record {
    keys = record {
      agent_key = v.keys.agent_key;
      model_key = v.keys.model_key;
      runner_key = v.keys.runner_key;
    };
    within = record {
      agents_within = agents-with kind id db v room;
      models_within = models-with kind id db v room;
      runners_within = runners-with kind id db v room;
    };
  }

  AgentRoom-with :
      (kind : ResourceKind) (id a : ℕ) (db : Db)
      → same_kind kind ResourceKind.agent ≡ false
      → AgentRoom a db
      → AgentRoom a (with_reservation job run kind id db)
  AgentRoom-with kind id a db other room x i e =
      ground (arith, reserved-with job run kind ResourceKind.agent id a db, room x i e)

  ModelRoom-with :
      (kind : ResourceKind) (id m : ℕ) (db : Db)
      → same_kind kind ResourceKind.model_profile ≡ false
      → ModelRoom m db
      → ModelRoom m (with_reservation job run kind id db)
  ModelRoom-with kind id m db other room x limit i e f =
      ground
        (arith, reserved-with job run kind ResourceKind.model_profile id m db, room x limit i e f)

  -- The three reservations of an admission, each with room made sure of beforehand.
  pub insert_runner-Ensures :
      (a m r : ℕ)
      → Ensures
          (λ db. Inv db × AgentRoom a db × ModelRoom m db × RunnerRoom r db)
          (insert_capacity_reservation job run ResourceKind.runner r)
          (λ _ db. Inv db × AgentRoom a db × ModelRoom m db)
  insert_runner-Ensures a m r = insert-Ensures ResourceKind.runner r λ db p. (
    with-Inv ResourceKind.runner r db p.0 p.3,
    AgentRoom-with ResourceKind.runner r a db refl p.1,
    ModelRoom-with ResourceKind.runner r m db refl p.2,
  )

  pub insert_agent-Ensures :
      (a m : ℕ)
      → Ensures
          (λ db. Inv db × AgentRoom a db × ModelRoom m db)
          (insert_capacity_reservation job run ResourceKind.agent a)
          (λ _ db. Inv db × ModelRoom m db)
  insert_agent-Ensures a m = insert-Ensures ResourceKind.agent a λ db p.
      (with-Inv ResourceKind.agent a db p.0 p.1, ModelRoom-with ResourceKind.agent a m db refl p.2)

  pub insert_model-Ensures :
      (m : ℕ)
      → Ensures
          (λ db. Inv db × ModelRoom m db)
          (insert_capacity_reservation job run ResourceKind.model_profile m)
          (λ _ db. Inv db)
  insert_model-Ensures m =
      insert-Ensures ResourceKind.model_profile m
        λ db p. with-Inv ResourceKind.model_profile m db p.0 p.1
