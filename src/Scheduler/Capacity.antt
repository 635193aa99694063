-- ===== src/Scheduler/Capacity.antt =====
-- Capacity: the reservations of each agent, model profile and runner, and its limit.
mod Steps
mod Room
mod Limits
pub mod Admission
pub mod History
use native.Mathlib.Nat.{le_trans}
use mathlib.Core.Path.{subst}
use agent_board.Prelude.{ℕ, ◌≤◌, ◌≡◌, refl, List, some, Option, Bool, arith}
use agent_board.Prelude.Rows.{In, count-delete-le}
use agent_board.Store.Types.{ResourceKind, Reservation, Agent, ModelProfile, Runner, Db}
use agent_board.Store.Tx.{Tx}
use agent_board.Store.Rules.{Keeps}
use agent_board.Scheduler.Runners.{reserved, reserves, runner_limit}

-- The primary keys of the tables that hold limits.
pub record HasKeys (db : Db) : Type 0 where
  pub agent_key : (a b : Agent) → In a db.agents → In b db.agents → a.id ≡ b.id → a ≡ b
  pub model_key : (a b : ModelProfile) → In a db.models → In b db.models → a.id ≡ b.id → a ≡ b
  pub runner_key : (a b : Runner) → In a db.runners → In b db.runners → a.id ≡ b.id → a ≡ b

pub record WithinCapacity (db : Db) : Type 0 where
  pub agents_within :
      (a : Agent) → In a db.agents → reserved ResourceKind.agent a.id db ≤ a.concurrency_limit
  pub models_within :
      (m : ModelProfile) (limit : ℕ)
      → In m db.models
      → m.max_concurrent ≡ some limit
      → reserved ResourceKind.model_profile m.id db ≤ limit
  pub runners_within :
      (r : Runner) → In r db.runners → reserved ResourceKind.runner r.id db ≤ runner_limit r

-- From `d`, the limits are as they were and no resource has more reservations.
pub record Shrinks (d db : Db) : Type 0 where
  pub same_agents : db.agents ≡ d.agents
  pub same_models : db.models ≡ d.models
  pub same_runners : db.runners ≡ d.runners
  pub fewer : (kind : ResourceKind) (id : ℕ) → reserved kind id db ≤ reserved kind id d

pub Shrinks-refl : (d : Db) → Shrinks d d
Shrinks-refl d = record {
  same_agents = refl;
  same_models = refl;
  same_runners = refl;
  fewer = λ kind id. omega arith;
}

pub Shrinks-delete :
    (test : Reservation → Bool) (d db : Db)
    → Shrinks d db
    → Shrinks d (record db { reservations = agent_board.Prelude.Rows.delete test db.reservations })
Shrinks-delete test d db s = record {
  same_agents = s.same_agents;
  same_models = s.same_models;
  same_runners = s.same_runners;
  fewer = λ kind id.
      omega (arith, s.fewer kind id, count-delete-le (reserves kind id) test db.reservations);
}

pub Shrinks-WithinCapacity : (d db : Db) → Shrinks d db → WithinCapacity d → WithinCapacity db
Shrinks-WithinCapacity d db s w = record {
  agents_within = λ a m.
      le_trans (s.fewer ResourceKind.agent a.id) (w.agents_within a (subst (In a) s.same_agents m));
  models_within = λ m limit i e.
      le_trans (s.fewer ResourceKind.model_profile m.id)
        (w.models_within m limit (subst (In m) s.same_models i) e);
  runners_within = λ r m.
      le_trans (s.fewer ResourceKind.runner r.id)
        (w.runners_within r (subst (In r) s.same_runners m));
}

-- The invariant of the store: keys and limits.
pub record Inv (db : Db) : Type 0 where
  pub keys : HasKeys db
  pub within : WithinCapacity db

pub Shrinks-Inv : (d db : Db) → Shrinks d db → Inv d → Inv db
Shrinks-Inv d db s v = record {
  keys = record {
    agent_key = λ a b i j.
        v.keys.agent_key a b (subst (In a) s.same_agents i) (subst (In b) s.same_agents j);
    model_key = λ a b i j.
        v.keys.model_key a b (subst (In a) s.same_models i) (subst (In b) s.same_models j);
    runner_key = λ a b i j.
        v.keys.runner_key a b (subst (In a) s.same_runners i) (subst (In b) s.same_runners j);
  };
  within = Shrinks-WithinCapacity d db s v.within;
}

-- A transaction that frees capacity at most keeps the invariant.
pub Keeps-Inv : {A : Type 0} (m : Tx A) → ((d : Db) → Keeps (Shrinks d) m) → Keeps Inv m
Keeps-Inv m h = record {
  at = λ db v a db' e. Shrinks-Inv db db' ((h db).at db (Shrinks-refl db) a db' e) v;
}
