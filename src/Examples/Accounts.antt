-- ===== src/Examples/Accounts.antt =====
-- Two users, a project and a group.
use agent_board.Prelude.{inl, ◌↔◌, ◌≡◌, refl, true, false, none, some, List, [], ◌∷◌, arith}
use agent_board.Prelude.Rows.{In, first, any, count, update}
use agent_board.Prelude.Order.{best}
use agent_board.Store.Tx.{ok, pure, ◌>>=◌, ◌>>◌, gets, modify, found, guard, transact}
use agent_board.Accounts.Types.{
  UserStatus, DeploymentRole, ProjectRole, TokenPurpose, User, PasswordToken, AuthSession,
  AccountDb, AccountEnv,
}
use agent_board.Accounts.Users.{update_user, revoke_sessions, revoke_outstanding_password_tokens}
use agent_board.Accounts.Passwords.{set_user_password, complete_password_token}
use agent_board.Accounts.Passwords.Renewal.{
  HasPassword, IsShut, set_user_password-IsShut, complete_password_token-IsShut,
}
use agent_board.Accounts.Sessions.{
  AccessClaims, authenticate_access_token, create_auth_session, insert_refresh_token, refresh,
  rotate_auth_session, had_token, revoke_auth_session_by_refresh_hash,
}
use agent_board.Accounts.Projects.{
  direct_grants, group_grants, granted_role, effective_project_role, require_role,
}
use agent_board.Accounts.Calls.{
  AccountCall, sets_status, withdraws_user, logs_in, logs_out, refreshes, step, run_account_calls,
}
use agent_board.Accounts.Admins.{HasAdmin}
use agent_board.Accounts.Admins.History.{run_account_calls-HasAdmin}
use agent_board.Accounts.Versions.Refusal.{Only, set_user_password-refuses}
use agent_board.Accounts.Rotation.Once.{refresh-once}
use agent_board.Accounts.Rotation.Logout.{logout-ends}
use agent_board.Accounts.Roles.{IsNormal, Grounds, require_role-Grounds}

abbrev ada : User
ada = record {
  id = 1;
  username = 11;
  email = 12;
  display_name = 13;
  password_hash = some 14;
  deployment_role = DeploymentRole.member;
  status = UserStatus.active;
  force_password_change = false;
  auth_version = 3;
}

abbrev bob : User
bob = record {
  id = 2;
  username = 21;
  email = 22;
  display_name = 23;
  password_hash = some 24;
  deployment_role = DeploymentRole.member;
  status = UserStatus.active;
  force_password_change = false;
  auth_version = 1;
}

-- Ada is the direct admin of the project 50; the group 60, with Bob in it, may view it.
abbrev accounts : AccountDb
accounts = record {
  users = ada ∷ bob ∷ [];
  sessions = [];
  refresh_tokens = [];
  password_tokens = [];
  projects = 50 ∷ [];
  groups = 60 ∷ [];
  group_members = record { group_id = 60; user_id = 2 } ∷ [];
  user_access = record { project_id = 50; user_id = 1; role = ProjectRole.admin } ∷ [];
  group_access = record { project_id = 50; group_id = 60; role = ProjectRole.viewer } ∷ [];
}

abbrev env : AccountEnv
env = record { now = 1000; gen_random_uuid = 70 }

abbrev attempts : List AccountCall
attempts = sets_status env 1 UserStatus.disabled false ∷ withdraws_user 50 1 ∷ []

accounts-HasAdmin : HasAdmin 50 accounts
unfolding any first
accounts-HasAdmin = refl

run_account_calls-HasAdmin_example : HasAdmin 50 (run_account_calls accounts attempts)
run_account_calls-HasAdmin_example =
    run_account_calls-HasAdmin 50 accounts attempts accounts-HasAdmin

-- Ada's password is set, and an old token of hers is refused after that.
abbrev ada_after : User
ada_after = record ada { password_hash = some 15; auth_version = 4 }

abbrev accounts_after : AccountDb
accounts_after = record accounts { users = ada_after ∷ bob ∷ [] }

ada-Only : Only 1 ada accounts
unfolding first count
ada-Only = record { is_old = refl; is_only = refl }

password_set : set_user_password env 1 none 15 false accounts ≡ (ok ada_after, accounts_after)
unfolding set_user_password update_user revoke_sessions revoke_outstanding_password_tokens transact
    ◌>>=◌ ◌>>◌ gets modify found guard pure first any count update
password_set = refl

abbrev old_claims : AccessClaims
old_claims = record {
  subject = 1;
  auth_version = 3;
  is_ours = true;
  issued_at = 0;
  expires_at = 99;
}

-- The token was good before.
token_good : authenticate_access_token 1000 (some old_claims) accounts ≡ some ada
unfolding authenticate_access_token first
token_good = refl

set_user_password-refuses_example :
    authenticate_access_token 1000 (some old_claims) (run_account_calls accounts_after attempts)
    ≡ none
set_user_password-refuses_example =
    set_user_password-refuses env 1 ada none 15 false accounts ada-Only ada_after accounts_after
      password_set attempts 1000 old_claims refl (omega arith)

set_user_password-IsShut_example : HasPassword 1 15 ada_after × IsShut 1 accounts_after
set_user_password-IsShut_example =
    set_user_password-IsShut env 1 none 15 false accounts ada_after accounts_after password_set

-- Ada, who has a session, completes a password token for a reset.
abbrev ada_token : PasswordToken
ada_token = record {
  id = 90;
  user_id = 1;
  purpose = TokenPurpose.reset;
  token_hash = 91;
  expires_at = 2000;
  consumed_at = none;
  revoked_at = none;
}

abbrev ada_session : AuthSession
ada_session = record {
  id = 71;
  user_id = 1;
  refresh_token_hash = 84;
  expires_at = 5000;
  revoked_at = none;
  created_at = 900;
  last_used_at = none;
}

abbrev ada_resets : AccountDb
ada_resets = record accounts { sessions = ada_session ∷ []; password_tokens = ada_token ∷ [] }

abbrev ada_reset : AccountDb
ada_reset = record accounts {
  users = ada_after ∷ bob ∷ [];
  sessions = record ada_session { revoked_at = some 1000 } ∷ [];
  password_tokens = record ada_token { consumed_at = some 1000 } ∷ [];
}

token_completed :
    complete_password_token env 91 TokenPurpose.reset 15 ada_resets ≡ (ok ada_after, ada_reset)
unfolding complete_password_token update_user revoke_sessions revoke_outstanding_password_tokens
    transact ◌>>=◌ ◌>>◌ gets modify found guard pure first any count update
token_completed = refl

complete_password_token-IsShut_example : (ada_after.password_hash ≡ some 15) × IsShut 1 ada_reset
complete_password_token-IsShut_example =
    complete_password_token-IsShut env 91 TokenPurpose.reset 15 ada_resets ada_after ada_reset
      token_completed

-- Bob logs in with the token 80, which is refreshed to 81.
abbrev login : List AccountCall
login = logs_in env 2 80 5000 ∷ []

refreshed : (refresh env (some 80) 81 (run_account_calls accounts login)).0 ≡ true
unfolding run_account_calls step create_auth_session insert_refresh_token refresh
    rotate_auth_session transact ◌>>=◌ ◌>>◌ gets modify found guard pure first any count update
refreshed = refl

abbrev later_calls : List AccountCall
later_calls = logs_in env 1 82 5000 ∷ logs_out 81 1001 ∷ []

refresh-once_example :
    refresh env (some 80) 83 (
      run_account_calls (refresh env (some 80) 81 (run_account_calls accounts login)).1 later_calls)
    ≡ (
      false,
      run_account_calls (refresh env (some 80) 81 (run_account_calls accounts login)).1 later_calls,
    )
refresh-once_example = refresh-once accounts login later_calls env env 80 81 83 refl refreshed

-- Bob logs out with the token 80, after it was refreshed to 81.
abbrev login_refresh : List AccountCall
login_refresh = logs_in env 2 80 5000 ∷ refreshes env (some 80) 81 ∷ []

abbrev bob_session : AuthSession
bob_session = record {
  id = 70;
  user_id = 2;
  refresh_token_hash = 81;
  expires_at = 5000;
  revoked_at = none;
  created_at = 1000;
  last_used_at = some 1000;
}

abbrev logged_out : AccountDb
logged_out =
    (revoke_auth_session_by_refresh_hash 80 1001 (run_account_calls accounts login_refresh)).1

bob_session-In : In bob_session (run_account_calls accounts login_refresh).sessions
unfolding run_account_calls step create_auth_session insert_refresh_token refresh
    rotate_auth_session transact ◌>>=◌ ◌>>◌ gets modify found guard pure first any count update
bob_session-In = inl refl

bob_session_had : had_token (run_account_calls accounts login_refresh) 80 bob_session ≡ true
unfolding run_account_calls step create_auth_session insert_refresh_token refresh
    rotate_auth_session transact ◌>>=◌ ◌>>◌ gets modify found guard pure first any count update
bob_session_had = refl

logout_succeeds :
    revoke_auth_session_by_refresh_hash 80 1001 (run_account_calls accounts login_refresh)
    ≡ (ok tt, logged_out)
unfolding run_account_calls step create_auth_session insert_refresh_token refresh
    rotate_auth_session revoke_auth_session_by_refresh_hash revoke_sessions transact ◌>>=◌ ◌>>◌ gets
    modify found guard pure first any count update
logout_succeeds = refl

-- The token 81 was good before.
token_before : (refresh env (some 81) 83 (run_account_calls accounts login_refresh)).0 ≡ true
unfolding run_account_calls step create_auth_session insert_refresh_token refresh
    rotate_auth_session transact ◌>>=◌ ◌>>◌ gets modify found guard pure first any count update
token_before = refl

logout-ends_example :
    refresh env (some 81) 83 (run_account_calls logged_out (logs_in env 1 82 5000 ∷ []))
    ≡ (false, run_account_calls logged_out (logs_in env 1 82 5000 ∷ []))
logout-ends_example =
    logout-ends accounts login_refresh (logs_in env 1 82 5000 ∷ []) 80 1001 bob_session env 83 refl
      bob_session-In bob_session_had

-- Bob may view the project by the group, and no more.
bob_may_view : require_role 50 bob ProjectRole.viewer accounts ≡ true
unfolding require_role effective_project_role granted_role direct_grants group_grants best first any
bob_may_view = refl

bob_may_not_edit : require_role 50 bob ProjectRole.member accounts ≡ false
unfolding require_role effective_project_role granted_role direct_grants group_grants best first any
bob_may_not_edit = refl

-- A disabled user, and one who has to change the password.
bob_disabled :
    require_role 50 (record bob { status = UserStatus.disabled }) ProjectRole.viewer accounts
    ≡ false
unfolding require_role
bob_disabled = refl

bob_changes_password :
    require_role 50 (record bob { force_password_change = true }) ProjectRole.viewer accounts
    ≡ false
unfolding require_role
bob_changes_password = refl

require_role-Grounds_example :
    (require_role 50 bob ProjectRole.viewer accounts ≡ true)
    ↔ (IsNormal bob × Grounds 50 2 ProjectRole.viewer accounts)
require_role-Grounds_example = require_role-Grounds 50 bob ProjectRole.viewer accounts
