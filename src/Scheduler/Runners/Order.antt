-- ===== src/Scheduler/Runners/Order.antt =====
-- lockRunnerCandidate: the runner that the ordered query returns, in words of the tables.
use agent_board.Prelude.{
  ℕ, ◌<◌, ◌≤◌, ◌≡◌, refl, sym, ap, ◌⊎◌, ◌&&◌, ◌==◌, ==→eq, ==_refl, Bool, true, false, Bool-cases,
  Option, some, none, inl, inr, arith, List, [], ◌∷◌, is_null,
}
use agent_board.Prelude.Rows.{In, In-any, any, select, In-select}
use agent_board.Prelude.Updates.{select-In, any-some}
use agent_board.Prelude.Order.{IsOrder, best-In, best-least}
use agent_board.Store.Types.{Runner, Project, ProjectRunner, ResourceKind, Db, Env}
use agent_board.Scheduler.Runners.{
  usable, may_use, member, in_project, reserved, runner_limit, runner_before, runner_in,
}

-- A shared runner is open to a project that names no runners, or names this one.
pub data IsShared (db : Db) (project : Project) (r : Runner) : Type 0 where
  names_none :
      ((p : ProjectRunner) → In p db.project_runners → (p.project_id == project.id) ≡ false)
      → IsShared db project r
  names_it :
      (p : ProjectRunner)
      → In p db.project_runners
      → p.project_id ≡ project.id
      → p.runner_id ≡ r.id
      → IsShared db project r

-- Why the project may use the runner.
pub data HasAccess (db : Db) (project : Project) (r : Runner) : Type 0 where
  internally : r.internal ≡ true → project.allow_internal_runner ≡ true → HasAccess db project r
  own : r.internal ≡ false → r.project_id ≡ some project.id → HasAccess db project r
  shared : r.internal ≡ false → r.project_id ≡ none → IsShared db project r → HasAccess db project r

-- The conditions of the query.
pub record IsUsable (env : Env) (db : Db) (project : Project) (ids : List ℕ) (r : Runner)
    : Type 0 where
  pub connected : In r.id ids
  pub not_deleted : r.deleted ≡ false
  pub not_revoked : r.revoked ≡ false
  pub access : HasAccess db project r
  pub has_room : reserved ResourceKind.runner r.id db < runner_limit r
  pub unlocked : env.is_locked r.id ≡ false

-- The order of the query: runners that are not internal, then the older one, then the smaller id.
pub record RunnerFirst (r x : Runner) : Type 0 where
  pub internal : x.internal ≡ false → r.internal ≡ false
  pub created : x.internal ≡ r.internal → r.created_at ≤ x.created_at
  pub id : x.internal ≡ r.internal → r.created_at ≡ x.created_at → r.id ≤ x.id

member-In : (a : ℕ) (ids : List ℕ) → member a ids ≡ true → In a ids
unfolding any
member-In a [] h = absurd (ground (arith, h))
member-In a (b ∷ ids) h = elim (Bool-cases (b == a)) [
  | inl t ↦ inl (sym (==→eq b a t))
  | inr t ↦ inr (member-In a ids (ground (arith, h, t)))
]

In-member : (a : ℕ) (ids : List ℕ) → In a ids → member a ids ≡ true
In-member a ids m = In-any (λ b. b == a) ids a m (==_refl a)

any-false :
    {A : Type 0} (p : A → Bool) (xs : List A) → any p xs ≡ false → (x : A) → In x xs → p x ≡ false
any-false p xs h x m = elim (Bool-cases (p x)) [
  | inl t ↦ absurd (ground (arith, h, In-any p xs x m t))
  | inr t ↦ t
]

in_project_lem : (o : Option ℕ) (p : ℕ) → in_project o p ≡ true → o ≡ some p
in_project_lem none p h = absurd (ground (arith, h))
in_project_lem (some q) p h = ap some (==→eq q p h)

is_null_lem : (o : Option ℕ) → is_null o ≡ true → o ≡ none
is_null_lem none h = refl
is_null_lem (some q) h = absurd (ground (arith, h))

module _ (db : Db) (project : Project) (r : Runner) where
  abbrev names : ProjectRunner → Bool
  names p = p.project_id == project.id

  abbrev names_this : ProjectRunner → Bool
  names_this p = p.project_id == project.id && p.runner_id == r.id

  any-IsShared :
      (any names db.project_runners ≡ false) ⊎ (any names_this db.project_runners ≡ true)
      → IsShared db project r
  any-IsShared (inl n) = names_none (any-false names db.project_runners n)
  any-IsShared (inr t) =
      let (p, m, e) = any-some names_this db.project_runners t in
      names_it p m (==→eq _ _ (ground (arith, e))) (==→eq _ _ (ground (arith, e)))

  IsShared-any :
      IsShared db project r
      → (any names db.project_runners ≡ false) ⊎ (any names_this db.project_runners ≡ true)
  IsShared-any (names_none n) = elim (Bool-cases (any names db.project_runners)) [
    | inl t ↦
        let (p, m, e) = any-some names db.project_runners t in absurd (ground (arith, e, n p m))
    | inr f ↦ inl f
  ]
  IsShared-any (names_it p m e f) = inr (
      In-any names_this db.project_runners p m
        (rw (e, f) (ground (arith, ==_refl project.id, ==_refl r.id))))

  may_use-HasAccess : may_use db project r ≡ true → HasAccess db project r
  may_use-HasAccess h = elim (Bool-cases (r.internal)) [
    | inl t ↦ internally t (ground (arith, h, t))
    | inr f ↦ elim (Bool-cases (in_project r.project_id project.id)) [
      | inl t ↦ own f (in_project_lem r.project_id project.id t)
      | inr n ↦ shared f (is_null_lem r.project_id (ground (arith, h, f, n))) (
          any-IsShared (elim (Bool-cases (any names db.project_runners)) [
            | inl t ↦ inr (ground (arith, h, f, n, t))
            | inr t ↦ inl t
          ]))
    ]
  ]

  HasAccess-may_use : HasAccess db project r → may_use db project r ≡ true
  HasAccess-may_use (internally a b) = ground (arith, a, b)
  HasAccess-may_use (own a b) = rw (b) (ground (arith, a, ==_refl project.id))
  HasAccess-may_use (shared a b s) = elim (IsShared-any s) [
    | inl n ↦ rw (b) (ground (arith, a, n))
    | inr t ↦ rw (b) (ground (arith, a, t))
  ]

runner_before-IsOrder : IsOrder runner_before
runner_before-IsOrder = record {
  irreflexive = λ a. ground arith;
  transitive = λ a b c h k. ground arith;
}

usable-IsUsable :
    (env : Env) (db : Db) (project : Project) (ids : List ℕ) (r : Runner)
    → usable env db project ids r ≡ true
    → IsUsable env db project ids r
usable-IsUsable env db project ids r h = record {
  connected = member-In r.id ids (ground (arith, h));
  not_deleted = ground (arith, h);
  not_revoked = ground (arith, h);
  access = may_use-HasAccess db project r (ground (arith, h));
  has_room = ground (arith, h);
  unlocked = ground (arith, h);
}

IsUsable-usable :
    (env : Env) (db : Db) (project : Project) (ids : List ℕ) (r : Runner)
    → IsUsable env db project ids r
    → usable env db project ids r ≡ true
IsUsable-usable env db project ids r u =
    let m = In-member r.id ids u.connected in
    let a = HasAccess-may_use db project r u.access in
    ground (arith, m, a, u.not_deleted, u.not_revoked, u.has_room, u.unlocked)

runner_before-RunnerFirst : (r x : Runner) → runner_before x r ≡ false → RunnerFirst r x
runner_before-RunnerFirst r x h = record {
  internal =
      λ t. elim (Bool-cases (r.internal)) [ inl u ↦ absurd (ground (arith, h, t, u)) | inr u ↦ u ];
  created = λ a. ground (arith, h, a);
  id = λ a b. ground (arith, h, a, b);
}

-- The runner of an admission is connected, neither deleted nor revoked nor locked by another
-- transaction, with room for one more session, and one that the project may use: an internal one
-- that it allows, its own, or a shared one where it names no runners or names this one. It comes
-- first among all such runners: those that are not internal, then the older one, the smaller id.
pub runner_in-least :
    (env : Env) (ids : List ℕ) (db : Db) (project : Project) (r : Runner)
    → runner_in env ids db (some project) ≡ some r
    → In r db.runners
      × IsUsable env db project ids r
      × ((x : Runner) → In x db.runners → IsUsable env db project ids x → RunnerFirst r x)
unfolding runner_in
runner_in-least env ids db project r e =
    elim (best-In runner_before none (select (usable env db project ids) db.runners) r e) [
      | inl q ↦ absurd (ground arith)
      | inr i ↦
          let (j, t) = In-select (usable env db project ids) db.runners r i in
          (
            j,
            usable-IsUsable env db project ids r t,
            λ x k u. runner_before-RunnerFirst r x (
                best-least runner_before runner_before-IsOrder _ r x e (
                  select-In (usable env db project ids) _ x k
                    (IsUsable-usable env db project ids x u))),
          )
    ]
