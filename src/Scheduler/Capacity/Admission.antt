-- ===== src/Scheduler/Capacity/Admission.antt =====
-- Admission and the limits of the resources.
use mathlib.Core.Option
use agent_board.Prelude.Order.{best-In}
use mathlib.Core.Option.{some-injective}
use mathlib.Core.Path.{subst}
use agent_board.Prelude.{
  ℕ, leb, ltb, ltb→lt, ◌||◌, ◌≡◌, refl, ◌==◌, true, false, Option, none, some, List, arith, inl,
  inr,
}
use agent_board.Prelude.Rows.{In, select, In-select}
use agent_board.Store.Types.{
  Project, Agent, ModelProfile, Runner, WaitReason, ResourceKind, Db, Env,
}
use agent_board.Store.Tx.{Tx, fail, invalid_argument, ◌>>=◌, pure, scanned}
use agent_board.Store.Rules.{
  Ensures, Keeps, Ensures-bind, Ensures-gets, Ensures-pure, Ensures-if, Ensures-weaken,
}
use agent_board.Store.Keeps.{
  transact-Keeps, Keeps-scanned, Keeps-if, Keeps-fail, Keeps-bind, Keeps-gets,
}
use agent_board.Scheduler.Candidates.{Candidate}
use agent_board.Scheduler.Admission.{
  Admission, at_limit, claim_job, wait, admit_on_runner, admit_within_limits, admit_configured,
  cancel_orphan, admit_candidate, admit_body, admit_next_job,
}
use agent_board.Scheduler.Runners.{
  reserved, runner_limit, lock_runner_candidate, runner_in, usable, runner_before,
}
use agent_board.Scheduler.Capacity.{Inv, Keeps-Inv}
use agent_board.Scheduler.Frame.Admission.{wait-Keeps, workspace-Keeps, cancel_orphan-Keeps}
use agent_board.Scheduler.Capacity.Steps.{Shrinks-Frame}
use agent_board.Scheduler.Frame.Parts.{delegated_parent_terminal-Keeps}
use agent_board.Scheduler.Capacity.Limits.{claim_job-Inv, LimitsOf, lock_limits}
use agent_board.Scheduler.Capacity.Room.{AgentRoom, ModelRoom, RunnerRoom}

agent_room :
    (a limit used : ℕ) (db : Db)
    → leb limit used ≡ false
    → used ≡ reserved ResourceKind.agent a db
    → ((x : Agent) → In x db.agents → x.id ≡ a → x.concurrency_limit ≡ limit)
    → AgentRoom a db
agent_room a limit used db free e h x i k = ground (arith, h x i k)

model_room :
    (m : ℕ) (limit : Option ℕ) (used : ℕ) (db : Db)
    → at_limit used limit ≡ false
    → used ≡ reserved ResourceKind.model_profile m db
    → ((x : ModelProfile) → In x db.models → x.id ≡ m → x.max_concurrent ≡ limit)
    → ModelRoom m db
model_room m limit used db free e h x l i k q = ground (arith, h x i k)

-- A runner that the query returns has room; every runner of that id is the same one.
chosen_room :
    (env : Env) (ids : List ℕ) (db : Db) (project : Option Project)
    → Inv db
    → (r : Runner) → runner_in env ids db project ≡ some r
    → RunnerRoom r.id db
unfolding runner_in
chosen_room env ids db none v r e x i k = absurd (ground arith)
chosen_room env ids db (some project) v r e x i k =
    elim (best-In runner_before none (select (usable env db project ids) db.runners) r e) [
      | inl h ↦ absurd (ground arith)
      | inr j ↦
          let (member, fits) = In-select (usable env db project ids) db.runners r j in
          ground
            (arith, v.keys.runner_key x r i member k, ltb→lt _ _ (fit env db project ids r fits))
    ]
  where
    fit :
        (env : Env) (db : Db) (project : Project) (ids : List ℕ) (r : Runner)
        → usable env db project ids r ≡ true
        → ltb (reserved ResourceKind.runner r.id db) (runner_limit r) ≡ true
    fit env db project ids r h = ground arith

-- A chosen runner is one with room.
lock_runner-room :
    (env : Env) (project a m : ℕ)
    → Ensures
        (λ db. Inv db × AgentRoom a db × ModelRoom m db)
        (lock_runner_candidate env project a)
        (λ o db.
          Inv db × AgentRoom a db × ModelRoom m db × ((r : ℕ) → o ≡ some r → RunnerRoom r db))
unfolding lock_runner_candidate
lock_runner-room env project a m =
    Ensures-bind _ _ (Ensures-gets {Q = λ _ db. Before db} _ (λ db p. p)) λ row.
      Ensures-bind {Q = λ _ db. Before db} _ _ (scanned-Keeps row) λ agent.
        Ensures-bind {Q = λ o db. Before db × ((r : Runner) → o ≡ some r → RunnerRoom r.id db)} _ _
          (Ensures-gets _
            (λ db p. (p, chosen_room env (env.runner_candidates agent.engine) db _ p.0)))
          λ runner. Ensures-pure _ (λ db p. (p.0.0, p.0.1, p.0.2, room_of runner db p.1))
  where
    Before : Db → Type 0
    Before db = Inv db × AgentRoom a db × ModelRoom m db

    scanned-Keeps : (o : Option Agent) → Ensures Before (scanned o) (λ _ db. Before db)
    scanned-Keeps o = Keeps-scanned o

    room_of :
        (o : Option Runner) (db : Db)
        → ((r : Runner) → o ≡ some r → RunnerRoom r.id db)
        → (r : ℕ) → Option.map (λ (x : Runner). x.id) o ≡ some r
        → RunnerRoom r db
    room_of none db h r e = absurd (ground arith)
    room_of (some x) db h r e = subst (λ k. RunnerRoom k db) (some-injective x.id r e) (h x refl)

admit_on_runner-Inv :
    (env : Env) (owner duration backoff : ℕ) (c : Candidate) (a m : ℕ)
    → Ensures
        (λ db. Inv db × AgentRoom a db × ModelRoom m db)
        (admit_on_runner env owner duration backoff c (a, m))
        (λ _ db. Inv db)
unfolding admit_on_runner
admit_on_runner-Inv env owner duration backoff c a m =
    Ensures-bind _ _ (lock_runner-room env c.run.project_id a m) λ runner. go runner
  where
    go :
        (o : Option ℕ)
        → Ensures
            (λ db.
              Inv db × AgentRoom a db × ModelRoom m db × ((r : ℕ) → o ≡ some r → RunnerRoom r db))
            (elim o as (λ _. Tx (Option Admission)) [
              | none ↦ wait env c WaitReason.runner_capacity backoff
              | some runner_id ↦ do
                admission ← claim_job env owner duration c (a, m) runner_id
                pure (some admission)
            ])
            (λ _ db. Inv db)
    go none =
        Ensures-weaken _ (λ db p. p.0)
          (Keeps-Inv _ (λ d. wait-Keeps (Shrinks-Frame d) env c WaitReason.runner_capacity backoff))
    go (some r) =
        Ensures-bind _ _
          (Ensures-weaken _ (λ db p. (p.0, p.1, p.2, p.3 r refl))
            (claim_job-Inv env owner duration c a m r))
          (λ admission. Ensures-pure _ (λ db v. v))

admit_within_limits-Inv :
    (env : Env) (owner duration backoff : ℕ) (c : Candidate) (ids : ℕ × ℕ)
    → Keeps Inv (admit_within_limits env owner duration backoff c ids)
unfolding admit_within_limits
admit_within_limits-Inv env owner duration backoff c (a, m) =
    Ensures-bind _ _ (lock_limits a m) λ limits.
      Ensures-bind
        {Q = λ used db. Inv db × LimitsOf a m limits db × (used ≡ reserved ResourceKind.agent a db)}
        _ _ (Ensures-gets _ (λ db p. (p.0, p.1, refl)))
        λ agent_used.
          Ensures-bind
            {Q = λ used db.
              Inv db
              × LimitsOf a m limits db
              × (agent_used ≡ reserved ResourceKind.agent a db)
              × (used ≡ reserved ResourceKind.model_profile m db)}
            _ _ (Ensures-gets _ (λ db p. (p.0, p.1, p.2, refl)))
            λ model_used.
              Ensures-if (leb limits.0 agent_used) (wait env c WaitReason.agent_capacity backoff) _
                (λ _.
                  Ensures-weaken _ (λ db p. p.0)
                    (Keeps-Inv _
                      (λ d. wait-Keeps (Shrinks-Frame d) env c WaitReason.agent_capacity backoff)))
                (λ agent_free.
                  Ensures-if (at_limit model_used limits.1)
                    (wait env c WaitReason.model_capacity backoff) _
                    (λ _.
                      Ensures-weaken _ (λ db p. p.0)
                        (Keeps-Inv _ (λ d.
                          wait-Keeps (Shrinks-Frame d) env c WaitReason.model_capacity backoff)))
                    (λ model_free.
                      Ensures-weaken _
                        (λ db p. (
                          p.0,
                          agent_room a limits.0 agent_used db agent_free p.2 p.1.0,
                          model_room m limits.1 model_used db model_free p.3 p.1.1,
                        ))
                        (admit_on_runner-Inv env owner duration backoff c a m)))

admit_configured-Inv :
    (env : Env) (owner duration backoff : ℕ) (c : Candidate) (o : Option (ℕ × ℕ))
    → Keeps Inv (admit_configured env owner duration backoff c o)
unfolding admit_configured
admit_configured-Inv env owner duration backoff c none =
    Keeps-Inv _ (λ d. wait-Keeps (Shrinks-Frame d) env c _ backoff)
admit_configured-Inv env owner duration backoff c (some ids) =
    Ensures-bind _ _ (Keeps-Inv _ (λ d. workspace-Keeps (Shrinks-Frame d) c.run)) λ occupied.
      Ensures-if occupied (wait env c WaitReason.workspace_occupied backoff) _
        (λ _.
          Keeps-Inv _
            (λ d. wait-Keeps (Shrinks-Frame d) env c WaitReason.workspace_occupied backoff))
        (λ _. admit_within_limits-Inv env owner duration backoff c ids)

admit_candidate-Inv :
    (env : Env) (owner duration backoff : ℕ) (o : Option Candidate)
    → Keeps Inv (admit_candidate env owner duration backoff o)
unfolding admit_candidate
admit_candidate-Inv env owner duration backoff none = Ensures-pure _ (λ db v. v)
admit_candidate-Inv env owner duration backoff (some c) =
    Ensures-bind _ _ (Ensures-gets {Q = λ _ db. Inv db} _ (λ db v. v)) λ configured.
      Ensures-bind _ _ (Keeps-Inv _ (λ d. delegated_parent_terminal-Keeps (Shrinks-Frame d) c.run))
        λ ended.
          Ensures-if ended (cancel_orphan env c) _
            (λ _. Keeps-Inv _ (λ d. cancel_orphan-Keeps (Shrinks-Frame d) env c))
            (λ _. admit_configured-Inv env owner duration backoff c configured)

-- Admission keeps the capacity invariant, whatever it does with the candidate that it finds.
pub admit_next_job-Inv :
    (env : Env) (owner duration backoff : ℕ) (db : Db)
    → Inv db
    → Inv (admit_next_job env owner duration backoff db).1
unfolding admit_next_job admit_body
admit_next_job-Inv env owner duration backoff db v =
    transact-Keeps _
      (Keeps-if (owner == 0 || duration == 0 || backoff == 0) (fail invalid_argument) _
        (Keeps-fail _)
        (Keeps-bind _ _ (Keeps-gets _) (λ o. admit_candidate-Inv env owner duration backoff o)))
      db v
