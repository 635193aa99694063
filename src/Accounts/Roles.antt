-- ===== src/Accounts/Roles.antt =====
-- effective_role_sql.go and app/project_access.go: what a role permits, said of the grants.
use mathlib.Core.Path.{subst}
use agent_board.Prelude.{
  ℕ, ◌≤◌, ◌≡◌, refl, ◌⊎◌, ◌↔◌, Bool, true, false, ◌&&◌, Bool-cases, Option-cases, none, some, List,
  [], ◌∷◌, ◌++◌, ◌==◌, inl, inr, if◌then◌else◌, arith,
}
use agent_board.Prelude.Rows.{In, In-append, In-picked, first, any}
use agent_board.Prelude.Updates.{In-append_left, In-append_right}
use agent_board.Prelude.Order.{best-In, best-none, best-least, IsOrder}
use agent_board.Store.Tx.{ok}
use agent_board.Accounts.Types.{
  User, ProjectRole, ProjectUserAccess, ProjectGroupAccess, AccountDb, is_deployment_admin,
  is_active, valid_project_role, project_role_rank,
}
use agent_board.Accounts.Users.{is_user}
use agent_board.Accounts.Projects.{
  direct_grants, group_grants, higher_role, granted_role, checked_role, effective_project_role,
  permitted, require_role,
}

module _ (p u : ℕ) where
  abbrev is_mine : ProjectUserAccess → Bool
  is_mine a = a.project_id == p && a.user_id == u

  abbrev is_groups : AccountDb → ProjectGroupAccess → Bool
  is_groups db a =
      a.project_id == p && any (λ m. m.group_id == a.group_id && m.user_id == u) db.group_members

  -- A row of either table gives the user the role in the project.
  abbrev pub Granted : AccountDb → ProjectRole → Type 0
  Granted db r =
      ((a : ProjectUserAccess) × In a db.user_access × (is_mine a ≡ true) × (r ≡ a.role))
      ⊎ ((a : ProjectGroupAccess) × In a db.group_access × (is_groups db a ≡ true) × (r ≡ a.role))

  -- What a permission rests on.
  pub record Grounds (minimum : ProjectRole) (db : AccountDb) : Type 0 where
    pub user : User
    pub is_row : first (is_user u) db.users ≡ some user
    pub has_project : any (λ q. q == p) db.projects ≡ true
    pub is_role : valid_project_role minimum ≡ true
    pub grant :
        (is_deployment_admin user.deployment_role ≡ true)
        ⊎ ((r : ProjectRole) × Granted db r × (project_role_rank minimum ≤ project_role_rank r))

  In-direct :
      (xs : List ProjectUserAccess) (r : ProjectRole)
      → In r (direct_grants p u xs)
      → (a : ProjectUserAccess) × In a xs × (is_mine a ≡ true) × (r ≡ a.role)
  unfolding direct_grants
  In-direct [] r m = absurd m
  In-direct (x ∷ xs) r m = elim (In-picked (is_mine x) x.role (direct_grants p u xs) r m) [
    | inl (t, e) ↦ (x, inl refl, t, e)
    | inr n ↦ let ih = In-direct xs r n in (ih.0, inr ih.1, ih.2, ih.3)
  ]

  direct-In :
      (xs : List ProjectUserAccess) (a : ProjectUserAccess)
      → In a xs
      → is_mine a ≡ true
      → In a.role (direct_grants p u xs)
  unfolding direct_grants
  direct-In [] a m t = absurd m
  direct-In (x ∷ xs) a (inl e) t = rw (← e, t) (inl refl)
  direct-In (x ∷ xs) a (inr m) t = elim (Bool-cases (is_mine x)) [
    | inl v ↦ rw (v) (inr (direct-In xs a m t))
    | inr v ↦ rw (v) (direct-In xs a m t)
  ]

  In-group :
      (db : AccountDb) (xs : List ProjectGroupAccess) (r : ProjectRole)
      → In r (group_grants p u db xs)
      → (a : ProjectGroupAccess) × In a xs × (is_groups db a ≡ true) × (r ≡ a.role)
  unfolding group_grants
  In-group db [] r m = absurd m
  In-group db (x ∷ xs) r m = elim (In-picked (is_groups db x) x.role (group_grants p u db xs) r m) [
    | inl (t, e) ↦ (x, inl refl, t, e)
    | inr n ↦ let ih = In-group db xs r n in (ih.0, inr ih.1, ih.2, ih.3)
  ]

  group-In :
      (db : AccountDb) (xs : List ProjectGroupAccess) (a : ProjectGroupAccess)
      → In a xs
      → is_groups db a ≡ true
      → In a.role (group_grants p u db xs)
  unfolding group_grants
  group-In db [] a m t = absurd m
  group-In db (x ∷ xs) a (inl e) t = rw (← e, t) (inl refl)
  group-In db (x ∷ xs) a (inr m) t = elim (Bool-cases (is_groups db x)) [
    | inl v ↦ rw (v) (inr (group-In db xs a m t))
    | inr v ↦ rw (v) (group-In db xs a m t)
  ]

  abbrev grants : AccountDb → List ProjectRole
  grants db = direct_grants p u db.user_access ++ group_grants p u db db.group_access

  Granted-In : (db : AccountDb) (r : ProjectRole) → Granted db r → In r (grants db)
  Granted-In db r (inl (a, m, t, e)) =
      rw (e) (
        In-append_left (direct_grants p u db.user_access) _ a.role (direct-In db.user_access a m t))
  Granted-In db r (inr (a, m, t, e)) = rw (e) (
      In-append_right (direct_grants p u db.user_access) _ a.role
        (group-In db db.group_access a m t))

  In-Granted : (db : AccountDb) (r : ProjectRole) → In r (grants db) → Granted db r
  In-Granted db r m = elim (In-append (direct_grants p u db.user_access) _ r m) [
    | inl a ↦ inl (In-direct db.user_access r a)
    | inr b ↦ inr (In-group db db.group_access r b)
  ]

higher_role-IsOrder : IsOrder higher_role
higher_role-IsOrder = record {
  irreflexive = λ a. ground arith;
  transitive = λ a b c f g. ground (arith, f, g);
}

valid-rank : (r : ProjectRole) → 1 ≤ project_role_rank r → valid_project_role r ≡ true
valid-rank ProjectRole.viewer l = refl
valid-rank ProjectRole.member l = refl
valid-rank ProjectRole.admin l = refl
valid-rank ProjectRole.other_role l = absurd (omega (arith, l))

rank-valid :
    (r : ProjectRole)
    → valid_project_role r ≡ true
    → (1 ≤ project_role_rank r) × (project_role_rank r ≤ 3)
rank-valid ProjectRole.viewer l = (omega arith, omega arith)
rank-valid ProjectRole.member l = (omega arith, omega arith)
rank-valid ProjectRole.admin l = (omega arith, omega arith)
rank-valid ProjectRole.other_role l = absurd (ground (arith, l))

module _ (p u : ℕ) (minimum : ProjectRole) (db : AccountDb) where
  permitted-rank :
      (r : ProjectRole)
      → permitted minimum (checked_role (some r)) ≡ true
      → project_role_rank minimum ≤ project_role_rank r
  permitted-rank r h = elim (Bool-cases (valid_project_role r)) [
    | inl t ↦ ground (arith, t, h)
    | inr t ↦ absurd (ground (arith, t, h))
  ]

  -- The highest of the grants permits exactly what one of them does.
  permitted-Granted :
      valid_project_role minimum ≡ true
      → permitted minimum (checked_role (granted_role p u db)) ≡ true
      → (r : ProjectRole) × Granted p u db r × (project_role_rank minimum ≤ project_role_rank r)
  unfolding granted_role
  permitted-Granted v h = elim (Option-cases (granted_role p u db)) [
    | inl n ↦ absurd (ground (arith, n, h))
    | inr (r, e) ↦ (
      r,
      In-Granted p u db r (elim (best-In higher_role none (grants p u db) r e) [
        | inl x ↦ absurd (ground (arith, x))
        | inr m ↦ m
      ]),
      permitted-rank r (subst (λ o. permitted minimum (checked_role o) ≡ true) e h),
    )
  ]

  Granted-permitted :
      valid_project_role minimum ≡ true
      → (r : ProjectRole) → Granted p u db r
      → project_role_rank minimum ≤ project_role_rank r
      → permitted minimum (checked_role (granted_role p u db)) ≡ true
  unfolding granted_role
  Granted-permitted v r g l = elim (Option-cases (granted_role p u db)) [
    | inl n ↦ absurd (best-none higher_role (grants p u db) r n (Granted-In p u db r g))
    | inr (c, e) ↦
        let least =
          best-least higher_role higher_role-IsOrder (grants p u db) c r e
            (Granted-In p u db r g) in
        let above : project_role_rank minimum ≤ project_role_rank c = ground (arith, least, l) in
        let at_one : 1 ≤ project_role_rank minimum = (rank-valid minimum v).0 in
        rw (e, valid-rank c (omega (arith, above, at_one))) (ground (arith, above, at_one))
  ]

  effective :
      (user : User)
      → first (is_user u) db.users ≡ some user
      → any (λ q. q == p) db.projects ≡ true
      → effective_project_role p u db ≡ (
          if is_deployment_admin user.deployment_role
          then ok ProjectRole.admin
          else checked_role (granted_role p u db))
  unfolding effective_project_role
  effective user e t = rw (e, t, effective_project_role) refl

  unknown_project :
      any (λ q. q == p) db.projects ≡ false
      → permitted minimum (effective_project_role p u db) ≡ false
  unfolding effective_project_role
  unknown_project n = elim (Option-cases (first (is_user u) db.users)) [
    | inl e ↦ rw (e, effective_project_role, permitted) refl
    | inr (user, e) ↦ rw (e, n, effective_project_role, permitted) refl
  ]

  unknown_user :
      first (is_user u) db.users ≡ none → permitted minimum (effective_project_role p u db) ≡ false
  unfolding effective_project_role
  unknown_user e = rw (e, effective_project_role, permitted) refl

  known_Grounds :
      (user : User)
      → first (is_user u) db.users ≡ some user
      → any (λ q. q == p) db.projects ≡ true
      → valid_project_role minimum ≡ true
      → permitted minimum (effective_project_role p u db) ≡ true
      → Grounds p u minimum db
  known_Grounds user e t v h = record {
    user = user;
    is_row = e;
    has_project = t;
    is_role = v;
    grant = elim (Bool-cases (is_deployment_admin user.deployment_role)) [
      | inl d ↦ inl d
      | inr d ↦ inr (permitted-Granted v (ground (arith, h, effective user e t, d)))
    ];
  }

  permitted-Grounds :
      valid_project_role minimum ≡ true
      → permitted minimum (effective_project_role p u db) ≡ true
      → Grounds p u minimum db
  permitted-Grounds v w = elim (Option-cases (first (is_user u) db.users)) [
    | inl e ↦ absurd (ground (arith, w, unknown_user e))
    | inr (user, e) ↦ elim (Bool-cases (any (λ q. q == p) db.projects)) [
      | inl t ↦ known_Grounds user e t v w
      | inr t ↦ absurd (ground (arith, w, unknown_project t))
    ]
  ]

  Grounds-permitted :
      Grounds p u minimum db → permitted minimum (effective_project_role p u db) ≡ true
  Grounds-permitted g = elim (Bool-cases (is_deployment_admin g.user.deployment_role)) [
    | inl d ↦
        rw (effective g.user g.is_row g.has_project, d)
          (ground (arith, rank-valid minimum g.is_role))
    | inr d ↦
        rw (effective g.user g.is_row g.has_project, d)
          (elim (g.grant) [
            | inl d' ↦ absurd (ground (arith, d, d'))
            | inr (r, w, l) ↦ Granted-permitted g.is_role r w l
          ])
  ]

-- The actor is a user with an id, active, who need not change the password.
pub record IsNormal (actor : User) : Type 0 where
  pub has_id : (actor.id == 0) ≡ false
  pub has_status : is_active actor.status ≡ true
  pub keeps_password : actor.force_password_change ≡ false

-- RequireRole lets an actor on exactly where the actor is active, with an id and no password to
-- change, the actor's row and the project exist, the role asked for is one of the three, and the
-- row is that of an administrator of the deployment or has a grant, direct or by a group, of a role
-- that ranks at least as high.
pub require_role-Grounds :
    (project_id : ℕ) (actor : User) (minimum : ProjectRole) (db : AccountDb)
    → (require_role project_id actor minimum db ≡ true)
      ↔ (IsNormal actor × Grounds project_id actor.id minimum db)
unfolding require_role
require_role-Grounds p actor minimum db = (
  λ h. (
    record {
      has_id = ground (arith, h);
      has_status = ground (arith, h);
      keeps_password = ground (arith, h);
    },
    permitted-Grounds p actor.id minimum db (ground (arith, h)) (ground (arith, h)),
  ),
  λ g.
      let w = Grounds-permitted p actor.id minimum db g.1 in
      ground (arith, w, g.0.has_id, g.0.has_status, g.0.keeps_password, g.1.is_role),
)
