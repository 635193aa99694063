-- ===== src/Accounts/Admins.antt =====
-- project_access.go and auth.go: the active direct admins of a project.
pub mod History
use agent_board.Prelude.{
  ℕ, ◌+◌, ◌≡◌, refl, sym, ap, ◌∙◌, Bool, true, false, not, ◌&&◌, ◌||◌, Bool-cases, Option,
  Option-cases, none, some, List, [], ◌∷◌, ◌++◌, ◌==◌, ==→eq, ==_refl, inl, inr, if◌then◌else◌, leb,
  arith, and-left, and-right,
}
use agent_board.Prelude.Rows.{In, In-any, In-first, any-In, first, any, count, update, delete}
use agent_board.Prelude.Updates.{
  first-update, first-update_other, first-append_found, any-some, any_mono, update-In, delete-In,
}
use agent_board.Store.Tx.{TxOn, pure, fail, ◌>>=◌, ◌>>◌, gets, modify, found, guard, transact}
use agent_board.Store.Rules.{
  Keeps, Ensures, Ensures-bind, Ensures-then, Ensures-gets, Ensures-found, Ensures-guard,
  Ensures-modify, Ensures-pure, Ensures-weaken,
}
use agent_board.Store.Keeps.{
  Keeps-pure, Keeps-found, Keeps-gets, Keeps-guard, Keeps-bind, Keeps-then, Keeps-if, Keeps-modify,
  keeps_rules, transact-Keeps,
}
use agent_board.Accounts.Types.{
  UserStatus, User, AuthSession, ProjectRole, ProjectUserAccess, AccountDb, AccountEnv, is_active,
  is_project_admin, is_deployment_admin,
}
use agent_board.Accounts.Users.{is_user, update_user, revoke_sessions, insert_user}
use agent_board.Accounts.Passwords.{
  is_active_user, has_other_admin, user_is_sole_active_direct_admin, is_active_admin,
  change_user_status,
}
use agent_board.Accounts.Projects.{
  is_direct_admin, ensure_active_direct_project_admin, create_project_with_admin, same_access,
  upsert_project_user_access, delete_project_user_access,
}
use agent_board.Accounts.Frame.{AccountFrame, Improves}
use agent_board.Accounts.Frame.Statements.{
  insert_user-Keeps, update_user-Keeps, revoke_sessions-Keeps, change_user_status-Keeps,
  create_auth_session-Keeps, rotate_auth_session-Keeps, create_project_with_admin-Keeps,
  upsert_project_user_access-Keeps, delete_project_user_access-Keeps,
}

active_user :
    (db : AccountDb) (id : ℕ)
    → is_active_user db id ≡ true
    → (u : User) × (first (is_user id) db.users ≡ some u) × (is_active u.status ≡ true)
active_user db id h = elim (Option-cases (first (is_user id) db.users)) [
  | inl n ↦ absurd (ground (arith, n, h))
  | inr (u, e) ↦ (u, e, ground (arith, e, h))
]

user_active :
    (db : AccountDb) (id : ℕ) (u : User)
    → first (is_user id) db.users ≡ some u
    → is_active u.status ≡ true
    → is_active_user db id ≡ true
user_active db id u e h = rw (e, is_active_user) h

-- The users of the other database are active where those of the first are, and the access is the
-- same.
module _ (p : ℕ) where
  abbrev pub HasAdmin : AccountDb → Type 0
  HasAdmin db = any (is_direct_admin db p) db.user_access ≡ true

  more-HasAdmin :
      (db : AccountDb) (users : List User)
      → ((id : ℕ)
          → is_active_user db id ≡ true
          → is_active_user (record db { users = users }) id ≡ true)
      → HasAdmin db
      → HasAdmin (record db { users = users })
  more-HasAdmin db users m =
      any_mono (is_direct_admin db p) (is_direct_admin (record db { users = users }) p)
        db.user_access (λ a h. ground (arith, h, m a.user_id))

  append-HasAdmin :
      (db : AccountDb) (u : User)
      → HasAdmin db
      → HasAdmin (record db { users = db.users ++ u ∷ [] })
  append-HasAdmin db u = more-HasAdmin db _ λ id h.
      let (v, e, s) = active_user db id h in
      user_active (record db { users = db.users ++ u ∷ [] }) id v
        (first-append_found (is_user id) db.users (u ∷ []) e) s

  update-HasAdmin :
      (db : AccountDb) (test : User → Bool) (change : User → User)
      → Improves change
      → HasAdmin db
      → HasAdmin (record db { users = update test change db.users })
  update-HasAdmin db test change i = more-HasAdmin db _ λ id h.
      let (v, e, s) = active_user db id h in
      let e' =
        first-update (is_user id) test change db.users (λ x t. ap (λ n. n == id) (i.keeps_id x))
          e in
      user_active (record db { users = update test change db.users }) id _ e'
        (elim (Bool-cases (test v)) [ inl t ↦ rw (t) (i.stays_active v s) | inr t ↦ rw (t) s ])

  pub update_user-HasAdmin :
      (test : User → Bool) (change : User → User)
      → Improves change
      → Keeps HasAdmin (update_user test change)
  update_user-HasAdmin test change i =
      update_user-Keeps test change (λ db h. update-HasAdmin db test change i h)

  pub insert_user-HasAdmin : (env : AccountEnv) (u : User) → Keeps HasAdmin (insert_user env u)
  insert_user-HasAdmin env u = insert_user-Keeps env u append-HasAdmin

  pub revoke_sessions-HasAdmin :
      (test : AuthSession → Bool) (now : ℕ) → Keeps HasAdmin (revoke_sessions test now)
  revoke_sessions-HasAdmin test now = revoke_sessions-Keeps test now (λ db h. h)

  -- Before the status of a user is changed: the user as it stands, and, where an active one leaves,
  -- not the sole active direct admin of any project.
  record Leaving (id : ℕ) (current : User) (status : UserStatus) (db : AccountDb) : Type 0 where
    has_admin : HasAdmin db
    is_current : first (is_user id) db.users ≡ some current
    not_sole :
        ((is_active current.status && not (is_active status))
          && user_is_sole_active_direct_admin current.id db)
        ≡ false

  abbrev to_status : UserStatus → User → User
  to_status status u = record u { status = status; auth_version = u.auth_version + 1 }

  abbrev changed : (id : ℕ) → UserStatus → AccountDb → AccountDb
  changed id status db = record db { users = update (is_user id) (to_status status) db.users }

  others-changed :
      (cid : ℕ) (status : UserStatus) (db : AccountDb) (id : ℕ)
      → (id == cid) ≡ false
      → is_active_user db id ≡ true
      → is_active_user (changed cid status db) id ≡ true
  others-changed cid status db id n h =
      let (u, e, s) = active_user db id h in
      user_active (changed cid status db) id u
        (first-update_other (is_user id) (is_user cid) (to_status status) db.users
            (λ x t. (ground (arith, n, t), ground (arith, n, t)))
          ∙ e)
        s

  self-changed :
      (status : UserStatus) (db : AccountDb) (id : ℕ) (u : User)
      → first (is_user id) db.users ≡ some u
      → is_active status ≡ true
      → is_active_user (changed id status db) id ≡ true
  self-changed status db id u e s =
      let t : is_user id u ≡ true = (In-first (is_user id) db.users e).1 in
      user_active (changed id status db) id _
        (first-update (is_user id) (is_user id) (to_status status) db.users (λ x t. refl) e)
        (rw (t) s)

  other-HasAdmin :
      (status : UserStatus) (db : AccountDb) (cid q : ℕ)
      → has_other_admin db q cid ≡ true
      → (q == p) ≡ true
      → HasAdmin (changed cid status db)
  unfolding has_other_admin
  other-HasAdmin status db cid q h same =
      any_mono _ (is_direct_admin (changed cid status db) p) db.user_access
        (λ b t. ground (arith, t, same, others-changed cid status db b.user_id)) h

  changed-HasAdmin :
      (id : ℕ) (current : User) (status : UserStatus) (db : AccountDb)
      → Leaving id current status db
      → HasAdmin (changed current.id status db)
  unfolding user_is_sole_active_direct_admin
  changed-HasAdmin id current status db l =
      let (a, i, t) = any-some (is_direct_admin db p) db.user_access l.has_admin in
      let here : current.id ≡ id =
        ==→eq current.id id (In-first (is_user id) db.users l.is_current).1 in
      elim (Bool-cases (a.user_id == current.id)) [
        | inr n ↦
            In-any (is_direct_admin (changed current.id status db) p) db.user_access a i
              (ground (arith, t, n, others-changed current.id status db a.user_id))
        | inl m ↦
            let (u, e, s) = active_user db a.user_id (ground (arith, t)) in
            let mine : a.user_id ≡ current.id = ==→eq _ _ m in
            let first_here : first (is_user current.id) db.users ≡ some current =
              ap (λ n. first (is_user n) db.users) here ∙ l.is_current in
            let same : u ≡ current =
              ground (arith, sym e ∙ ap (λ n. first (is_user n) db.users) mine ∙ first_here) in
            elim (Bool-cases (is_active status)) [
              | inl w ↦
                  In-any (is_direct_admin (changed current.id status db) p) db.user_access a i (
                    ground (arith, t, mine, self-changed status db current.id current first_here w))
              | inr w ↦
                  let was : is_active current.status ≡ true =
                    ap (λ (x : User). is_active x.status) (sym same) ∙ s in
                  let not_sole : user_is_sole_active_direct_admin current.id db ≡ false =
                    ground (arith, was, w, l.not_sole) in
                  let mine_not = any-In _ db.user_access a not_sole i in
                  other-HasAdmin status db current.id a.project_id (ground (arith, t, m, mine_not))
                    (ground (arith, t))
            ]
      ]
