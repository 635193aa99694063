-- ===== src/Accounts/Calls.antt =====
-- The calls that change users, sessions, tokens and access, and the histories that they make.
use agent_board.Prelude.{ℕ, Bool, Option, List, [], ◌∷◌}
use agent_board.Accounts.Types.{
  UserStatus, TokenPurpose, User, PasswordToken, ProjectUserAccess, ProjectGroupAccess, AccountDb,
  AccountEnv,
}
use agent_board.Accounts.Users.{bootstrap_user, create_user}
use agent_board.Accounts.Passwords.{
  create_pending_user_with_setup_token, update_user_identity, set_user_status, set_user_password,
  create_password_token, complete_password_token,
}
use agent_board.Accounts.Sessions.{
  create_auth_session, refresh, revoke_auth_session_by_refresh_hash, revoke_user_auth_sessions,
  revoke_auth_session, revoke_other_auth_sessions,
}
use agent_board.Accounts.Projects.{
  create_project_with_admin, upsert_project_user_access, delete_project_user_access,
  upsert_project_group_access, delete_project_group_access, add_group_member, remove_group_member,
}

pub data AccountCall : Type 0 where
  bootstraps : AccountEnv → User → AccountCall
  creates_user : AccountEnv → User → AccountCall
  invites : AccountEnv → User → PasswordToken → AccountCall
  renames : (id username email display_name : ℕ) → AccountCall
  sets_status : AccountEnv → ℕ → UserStatus → (derive_enabled_status : Bool) → AccountCall
  sets_password : AccountEnv → ℕ → Option ℕ → ℕ → Bool → AccountCall
  offers_password_token : AccountEnv → PasswordToken → AccountCall
  completes_password_token :
      AccountEnv → (hash : ℕ) → TokenPurpose → (password_hash : ℕ) → AccountCall
  logs_in : AccountEnv → (user_id refresh_token_hash expires_at : ℕ) → AccountCall
  refreshes : AccountEnv → Option ℕ → (new_hash : ℕ) → AccountCall
  logs_out : (hash now : ℕ) → AccountCall
  revokes_user : (user_id now : ℕ) → AccountCall
  revokes_session : (user_id session_id now : ℕ) → AccountCall
  revokes_others : (user_id keep_session_id now : ℕ) → AccountCall
  creates_project : AccountEnv → Bool → (user_id : ℕ) → AccountCall
  grants_user : ProjectUserAccess → AccountCall
  withdraws_user : (project_id user_id : ℕ) → AccountCall
  grants_group : ProjectGroupAccess → AccountCall
  withdraws_group : (project_id group_id : ℕ) → AccountCall
  joins_group : (group_id user_id : ℕ) → AccountCall
  leaves_group : (group_id user_id : ℕ) → AccountCall

unfoldable pub step : AccountDb → AccountCall → AccountDb
step db (bootstraps env u) = (bootstrap_user env u db).1
step db (creates_user env u) = (create_user env u db).1
step db (invites env u t) = (create_pending_user_with_setup_token env u t db).1
step db (renames id username email display_name) =
    (update_user_identity id username email display_name db).1
step db (sets_status env id status derive) = (set_user_status env id status derive db).1
step db (sets_password env id expected hash force) =
    (set_user_password env id expected hash force db).1
step db (offers_password_token env t) = (create_password_token env t db).1
step db (completes_password_token env hash purpose password) =
    (complete_password_token env hash purpose password db).1
step db (logs_in env user_id hash expires_at) =
    (create_auth_session env user_id hash expires_at db).1
step db (refreshes env hash new_hash) = (refresh env hash new_hash db).1
step db (logs_out hash now) = (revoke_auth_session_by_refresh_hash hash now db).1
step db (revokes_user user_id now) = (revoke_user_auth_sessions user_id now db).1
step db (revokes_session user_id session_id now) = (revoke_auth_session user_id session_id now db).1
step db (revokes_others user_id keep now) = (revoke_other_auth_sessions user_id keep now db).1
step db (creates_project env valid user_id) = (create_project_with_admin env valid user_id db).1
step db (grants_user input) = (upsert_project_user_access input db).1
step db (withdraws_user project_id user_id) = (delete_project_user_access project_id user_id db).1
step db (grants_group input) = (upsert_project_group_access input db).1
step db (withdraws_group project_id group_id) =
    (delete_project_group_access project_id group_id db).1
step db (joins_group group_id user_id) = (add_group_member group_id user_id db).1
step db (leaves_group group_id user_id) = (remove_group_member group_id user_id db).1

unfoldable pub run_account_calls : AccountDb → List AccountCall → AccountDb
unfolding step
run_account_calls db [] = db
run_account_calls db (c ∷ calls) = run_account_calls (step db c) calls
