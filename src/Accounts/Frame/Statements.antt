-- ===== src/Accounts/Frame/Statements.antt =====
-- What the transactions keep, given what each of their statements keeps.
use agent_board.Prelude.{ℕ, ◌+◌, Bool, some, List, [], ◌∷◌, ◌++◌, ◌&&◌, ◌==◌, is_null}
use agent_board.Prelude.Rows.{update}
use agent_board.Store.Tx.{◌>>=◌, ◌>>◌, modify}
use agent_board.Store.Rules.{Keeps}
use agent_board.Store.Keeps.{
  Keeps-pure, Keeps-gets, Keeps-found, Keeps-guard, Keeps-bind, Keeps-then, Keeps-modify,
  keeps_rules, transact-Keeps,
}
use agent_board.Accounts.Types.{
  UserStatus, User, AuthSession, RefreshToken, ProjectUserAccess, AccountDb, AccountEnv,
}
use agent_board.Accounts.Users.{is_user, update_user, revoke_sessions, insert_user}
use agent_board.Accounts.Passwords.{change_user_status}
use agent_board.Accounts.Sessions.{create_auth_session, rotate_auth_session, insert_refresh_token}
use agent_board.Accounts.Projects.{
  ensure_active_direct_project_admin, create_project_with_admin, upsert_project_user_access,
  delete_project_user_access,
}

module _ {P : AccountDb → Type 0} where
  pub insert_user-Keeps :
      (env : AccountEnv) (u : User)
      → ((db : AccountDb) (v : User) → P db → P (record db { users = db.users ++ v ∷ [] }))
      → Keeps P (insert_user env u)
  unfolding insert_user
  insert_user-Keeps env u inserted = Keeps-bind _ _ (Keeps-gets _) λ taken.
      Keeps-then _ _ (Keeps-guard _ _) (
        Keeps-then _ _ (Keeps-guard _ _) (
          Keeps-then _ _ (Keeps-guard _ _)
            (Keeps-then _ _ (Keeps-modify _ (λ db p. inserted db _ p)) (Keeps-pure _))))

  pub update_user-Keeps :
      (test : User → Bool) (change : User → User)
      → ((db : AccountDb) → P db → P (record db { users = update test change db.users }))
      → Keeps P (update_user test change)
  unfolding update_user
  update_user-Keeps test change updated = Keeps-bind _ _ (Keeps-gets _) λ row.
      Keeps-bind _ _ (Keeps-found row) λ user.
        Keeps-then _ _ (Keeps-guard _ _) (
          Keeps-then _ _ (Keeps-guard _ _) (Keeps-then _ _ (Keeps-modify _ updated) (Keeps-pure _)))

  pub revoke_sessions-Keeps :
      (test : AuthSession → Bool) (now : ℕ)
      → ((db : AccountDb)
          → P db
          → P (record db {
            sessions =
                update
                  (λ s. test s && is_null s.revoked_at)
                  (λ s. record s { revoked_at = some now })
                  db.sessions;
          }))
      → Keeps P (revoke_sessions test now)
  unfolding revoke_sessions
  revoke_sessions-Keeps test now revoked =
      Keeps-bind _ _ (Keeps-gets _) λ n. Keeps-then _ _ (Keeps-modify _ revoked) (Keeps-pure _)

  pub change_user_status-Keeps :
      (env : AccountEnv) (current : User) (status : UserStatus)
      → Keeps P (
          update_user
            (is_user current.id)
            (λ u. record u { status = status; auth_version = u.auth_version + 1 }))
      → Keeps P (revoke_sessions (λ s. s.user_id == current.id) env.now)
      → Keeps P (change_user_status env current status)
  unfolding change_user_status ◌>>=◌ ◌>>◌
  change_user_status-Keeps env current status updated revoked =
      Keeps-bind _ _ (Keeps-gets _) λ sole. Keeps-then _ _ (Keeps-guard _ _) (
        Keeps-bind _ _ (Keeps-gets _) λ admins.
          Keeps-then _ _ (Keeps-guard _ _)
            (Keeps-bind _ _ updated λ user. Keeps-bind _ _ revoked λ k. Keeps-pure user))

  module _
      (to_sessions : (g : AccountDb → List AuthSession)
        → Keeps P (modify (λ db. record db { sessions = g db })))
      (to_tokens : (g : AccountDb → List RefreshToken)
        → Keeps P (modify (λ db. record db { refresh_tokens = g db }))) where
    pub create_auth_session-Keeps :
        (env : AccountEnv) (u h x : ℕ) (db : AccountDb)
        → P db
        → P (create_auth_session env u h x db).1
    unfolding create_auth_session insert_refresh_token
    create_auth_session-Keeps env u h x = transact-Keeps {P = P} _ (search (keeps_rules) depth 16)

    pub rotate_auth_session-Keeps :
        (s old new x now : ℕ) (db : AccountDb) → P db → P (rotate_auth_session s old new x now db).1
    unfolding rotate_auth_session insert_refresh_token
    rotate_auth_session-Keeps s old new x now =
        transact-Keeps {P = P} _ (search (keeps_rules) depth 16)

  pub create_project_with_admin-Keeps :
      (env : AccountEnv) (v : Bool) (u : ℕ)
      → ((db : AccountDb) (id : ℕ) → P db → P (record db { projects = id ∷ db.projects }))
      → ((db : AccountDb) (a : ProjectUserAccess)
          → P db
          → P (record db { user_access = a ∷ db.user_access }))
      → (db : AccountDb) → P db
      → P (create_project_with_admin env v u db).1
  unfolding create_project_with_admin
  create_project_with_admin-Keeps env v u projected granted = transact-Keeps {P = P} _ (
      Keeps-then _ _ (Keeps-guard _ _) (
        Keeps-bind _ _ (Keeps-gets _) λ row. Keeps-bind _ _ (Keeps-found row) λ user.
          Keeps-then _ _ (Keeps-guard _ _) (
            Keeps-bind _ _ (Keeps-gets _) λ taken. Keeps-then _ _ (Keeps-guard _ _) (
              Keeps-then _ _ (Keeps-modify _ (λ db p. projected db _ p))
                (Keeps-then _ _ (Keeps-modify _ (λ db p. granted db _ p)) (Keeps-pure _))))))

  module _
      (to_access : (g : AccountDb → List ProjectUserAccess)
        → Keeps P (modify (λ db. record db { user_access = g db }))) where
    pub upsert_project_user_access-Keeps :
        (input : ProjectUserAccess) (db : AccountDb)
        → P db
        → P (upsert_project_user_access input db).1
    unfolding upsert_project_user_access ensure_active_direct_project_admin
    upsert_project_user_access-Keeps input =
        transact-Keeps {P = P} _ (search (keeps_rules) depth 16)

    pub delete_project_user_access-Keeps :
        (p u : ℕ) (db : AccountDb) → P db → P (delete_project_user_access p u db).1
    unfolding delete_project_user_access ensure_active_direct_project_admin
    delete_project_user_access-Keeps p u = transact-Keeps {P = P} _ (search (keeps_rules) depth 16)
