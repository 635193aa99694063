-- ===== src/Accounts/Frame/History.antt =====
-- Calls and histories, under a property that fills `AccountFrame`.
use agent_board.Prelude.{ℕ, ◌≡◌, refl, ◌∙◌, Bool, Option, none, some, List, [], ◌∷◌, if◌then◌else◌}
use agent_board.Prelude.Rows.{first}
use agent_board.Store.Tx.{pure}
use agent_board.Store.Rules.{
  Ensures, Ensures-bind, Ensures-gets, Ensures-found, Ensures-if, Ensures-pure,
}
use agent_board.Store.Keeps.{keeps_rules, transact-Keeps}
use agent_board.Accounts.Types.{
  UserStatus, TokenPurpose, User, AuthSession, PasswordToken, ProjectGroupAccess, AccountDb,
  AccountEnv, same_status,
}
use agent_board.Accounts.Users.{
  is_user, revoke_outstanding_password_tokens, ensure_login_identifiers_available, bootstrap_user,
  create_user,
}
use agent_board.Accounts.Passwords.{
  insert_password_token, create_pending_user_with_setup_token, update_user_identity,
  change_user_status, set_user_status, set_user_password, create_password_token,
  complete_password_token,
}
use agent_board.Accounts.Sessions.{
  rotation, refresh, revoke_auth_session_by_refresh_hash, revoke_user_auth_sessions,
  revoke_auth_session, revoke_other_auth_sessions,
}
use agent_board.Accounts.Projects.{
  upsert_project_group_access, delete_project_group_access, add_group_member, remove_group_member,
}
use agent_board.Accounts.Calls.{
  AccountCall, bootstraps, creates_user, invites, renames, sets_status, sets_password,
  offers_password_token, completes_password_token, logs_in, refreshes, logs_out, revokes_user,
  revokes_session, revokes_others, creates_project, grants_user, withdraws_user, grants_group,
  withdraws_group, joins_group, leaves_group, step, run_account_calls,
}
use agent_board.Accounts.Frame.{AccountFrame, leaves, revoke}

module _ {P : AccountDb → Type 0} (F : AccountFrame P) where
  bootstrap-Keeps :
      (env : AccountEnv) (u : User) (db : AccountDb) → P db → P (bootstrap_user env u db).1
  unfolding bootstrap_user ensure_login_identifiers_available
  bootstrap-Keeps env u = transact-Keeps _ (search (F, leaves, keeps_rules) depth 12)

  create_user-Keeps :
      (env : AccountEnv) (u : User) (db : AccountDb) → P db → P (create_user env u db).1
  unfolding create_user ensure_login_identifiers_available
  create_user-Keeps env u = transact-Keeps _ (search (F, leaves, keeps_rules) depth 12)

  invite-Keeps :
      (env : AccountEnv) (u : User) (t : PasswordToken) (db : AccountDb)
      → P db
      → P (create_pending_user_with_setup_token env u t db).1
  unfolding create_pending_user_with_setup_token ensure_login_identifiers_available
      insert_password_token
  invite-Keeps env u t = transact-Keeps _ (search (F, leaves, keeps_rules) depth 14)

  rename-Keeps : (id a b c : ℕ) (db : AccountDb) → P db → P (update_user_identity id a b c db).1
  unfolding update_user_identity
  rename-Keeps id a b c = transact-Keeps _ (search (F, leaves, keeps_rules) depth 12)

  to_status :
      (env : AccountEnv) (id : ℕ) (current : User) (wanted : UserStatus)
      → Ensures
          (λ db. P db × (first (is_user id) db.users ≡ some current))
          (if same_status current.status wanted
            then pure current
            else change_user_status env current wanted)
          (λ _ db. P db)
  to_status env id current wanted =
      Ensures-if (same_status current.status wanted) _ _ (λ _. Ensures-pure current (λ db h. h.0))
        (λ _. F.changes_status env id current wanted)

  set_user_status-Keeps :
      (env : AccountEnv) (id : ℕ) (status : UserStatus) (derive : Bool) (db : AccountDb)
      → P db
      → P (set_user_status env id status derive db).1
  unfolding set_user_status
  set_user_status-Keeps env id status derive = transact-Keeps _ (
      Ensures-bind {Q = λ row db. P db × (first (is_user id) db.users ≡ row)} _ _
        (Ensures-gets _ (λ db p. (p, refl)))
        λ row.
          Ensures-bind {Q = λ current db. P db × (first (is_user id) db.users ≡ some current)} _ _
            (Ensures-found row (λ current e db h. (h.0, h.1 ∙ e)))
            λ current. to_status env id current _)

  set_user_password-Keeps :
      (env : AccountEnv) (id : ℕ) (expected : Option ℕ) (hash : ℕ) (force : Bool) (db : AccountDb)
      → P db
      → P (set_user_password env id expected hash force db).1
  unfolding set_user_password revoke_outstanding_password_tokens
  set_user_password-Keeps env id expected hash force =
      transact-Keeps _ (search (F, leaves, keeps_rules) depth 14)

  create_password_token-Keeps :
      (env : AccountEnv) (t : PasswordToken) (db : AccountDb)
      → P db
      → P (create_password_token env t db).1
  unfolding create_password_token insert_password_token
  create_password_token-Keeps env t = transact-Keeps _ (search (F, leaves, keeps_rules) depth 14)

  complete_password_token-Keeps :
      (env : AccountEnv) (hash : ℕ) (purpose : TokenPurpose) (password : ℕ) (db : AccountDb)
      → P db
      → P (complete_password_token env hash purpose password db).1
  unfolding complete_password_token revoke_outstanding_password_tokens
  complete_password_token-Keeps env hash purpose password =
      transact-Keeps _ (search (F, leaves, keeps_rules) depth 16)

  rotation-Keeps :
      (env : AccountEnv) (old new : ℕ) (o : Option AuthSession) (db : AccountDb)
      → P db
      → P (rotation env old new o db).1
  rotation-Keeps env old new none db p = p
  rotation-Keeps env old new (some s) db p = F.rotates s.id old new s.expires_at env.now db p

  refresh-Keeps :
      (env : AccountEnv) (old : Option ℕ) (new : ℕ) (db : AccountDb)
      → P db
      → P (refresh env old new db).1
  unfolding refresh
  refresh-Keeps env none new db p = p
  refresh-Keeps env (some old) new db p = rotation-Keeps env old new _ db p

  logout-Keeps :
      (hash now : ℕ) (db : AccountDb) → P db → P (revoke_auth_session_by_refresh_hash hash now db).1
  unfolding revoke_auth_session_by_refresh_hash
  logout-Keeps hash now = transact-Keeps _ (search (F, leaves, keeps_rules) depth 12)

  revoke_user-Keeps :
      (user now : ℕ) (db : AccountDb) → P db → P (revoke_user_auth_sessions user now db).1
  unfolding revoke_user_auth_sessions
  revoke_user-Keeps user now = transact-Keeps _ (revoke F _ now)

  revoke_session-Keeps :
      (user id now : ℕ) (db : AccountDb) → P db → P (revoke_auth_session user id now db).1
  unfolding revoke_auth_session
  revoke_session-Keeps user id now = transact-Keeps _ (search (F, leaves, keeps_rules) depth 12)

  revoke_others-Keeps :
      (user id now : ℕ) (db : AccountDb) → P db → P (revoke_other_auth_sessions user id now db).1
  unfolding revoke_other_auth_sessions
  revoke_others-Keeps user id now = transact-Keeps _ (revoke F _ now)

  grant_group-Keeps :
      (input : ProjectGroupAccess) (db : AccountDb)
      → P db
      → P (upsert_project_group_access input db).1
  unfolding upsert_project_group_access
  grant_group-Keeps input = transact-Keeps _ (search (F, leaves, keeps_rules) depth 12)

  withdraw_group-Keeps :
      (p g : ℕ) (db : AccountDb) → P db → P (delete_project_group_access p g db).1
  unfolding delete_project_group_access
  withdraw_group-Keeps p g = transact-Keeps _ (search (F, leaves, keeps_rules) depth 12)

  join-Keeps : (g u : ℕ) (db : AccountDb) → P db → P (add_group_member g u db).1
  unfolding add_group_member
  join-Keeps g u = transact-Keeps _ (search (F, leaves, keeps_rules) depth 14)

  leave-Keeps : (g u : ℕ) (db : AccountDb) → P db → P (remove_group_member g u db).1
  unfolding remove_group_member
  leave-Keeps g u = transact-Keeps _ (search (F, leaves, keeps_rules) depth 12)

  pub step-Keeps : (db : AccountDb) (c : AccountCall) → P db → P (step db c)
  unfolding step
  step-Keeps db (bootstraps env u) = bootstrap-Keeps env u db
  step-Keeps db (creates_user env u) = create_user-Keeps env u db
  step-Keeps db (invites env u t) = invite-Keeps env u t db
  step-Keeps db (renames id a b c) = rename-Keeps id a b c db
  step-Keeps db (sets_status env id status derive) = set_user_status-Keeps env id status derive db
  step-Keeps db (sets_password env id expected hash force) =
      set_user_password-Keeps env id expected hash force db
  step-Keeps db (offers_password_token env t) = create_password_token-Keeps env t db
  step-Keeps db (completes_password_token env hash purpose password) =
      complete_password_token-Keeps env hash purpose password db
  step-Keeps db (logs_in env u h x) = F.creates_session env u h x db
  step-Keeps db (refreshes env h n) = refresh-Keeps env h n db
  step-Keeps db (logs_out h now) = logout-Keeps h now db
  step-Keeps db (revokes_user u now) = revoke_user-Keeps u now db
  step-Keeps db (revokes_session u s now) = revoke_session-Keeps u s now db
  step-Keeps db (revokes_others u s now) = revoke_others-Keeps u s now db
  step-Keeps db (creates_project env v u) = F.makes_project env v u db
  step-Keeps db (grants_user input) = F.upserts input db
  step-Keeps db (withdraws_user p u) = F.deletes p u db
  step-Keeps db (grants_group input) = grant_group-Keeps input db
  step-Keeps db (withdraws_group p g) = withdraw_group-Keeps p g db
  step-Keeps db (joins_group g u) = join-Keeps g u db
  step-Keeps db (leaves_group g u) = leave-Keeps g u db

  pub run_account_calls-Keeps :
      (db : AccountDb) (calls : List AccountCall) → P db → P (run_account_calls db calls)
  unfolding run_account_calls
  run_account_calls-Keeps db [] p = p
  run_account_calls-Keeps db (c ∷ calls) p =
      run_account_calls-Keeps (step db c) calls (step-Keeps db c p)
