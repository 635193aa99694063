-- ===== src/Accounts/Passwords.antt =====
-- auth.go and auth_management.go: invitations, names, status, passwords and password tokens.
pub mod Renewal
use agent_board.Prelude.{
  ℕ, ◌+◌, Bool, true, false, not, ◌&&◌, ◌||◌, Option, none, some, [], ◌∷◌, ◌++◌, ◌==◌, ltb, leb,
  is_null, if◌then◌else◌,
}
use agent_board.Prelude.Rows.{first, any, count, update}
use agent_board.Store.Tx.{
  Result, TxOn, invalid_argument, conflict, last_project_admin, pure, ◌>>=◌, ◌>>◌, gets, modify,
  found, guard, transact,
}
use agent_board.Accounts.Types.{
  UserStatus, TokenPurpose, User, PasswordToken, AccountDb, AccountEnv, is_active, is_pending_user,
  same_status, same_purpose, is_deployment_admin, is_project_admin,
}
use agent_board.Accounts.Users.{
  is_user, update_user, revoke_sessions, is_outstanding, revoke_outstanding_password_tokens,
  identifier_in, ensure_login_identifiers_available, insert_user,
}

-- INSERT INTO password_tokens, with its unique indexes.
unfoldable pub insert_password_token : PasswordToken → TxOn AccountDb PasswordToken
insert_password_token token = do
  taken ← gets (λ (db : AccountDb).
      any
        (λ t.
          t.id == token.id
          || t.token_hash == token.token_hash
          || (t.user_id == token.user_id
              && same_purpose t.purpose token.purpose
              && is_outstanding t))
        db.password_tokens)
  guard (not taken) conflict
  modify (λ db. record db { password_tokens = db.password_tokens ++ token ∷ [] })
  pure token

-- CreatePendingUserWithSetupToken
unfoldable pub create_pending_user_with_setup_token :
    AccountEnv → User → PasswordToken → AccountDb → Result (User × PasswordToken) × AccountDb
unfolding ensure_login_identifiers_available insert_user insert_password_token
create_pending_user_with_setup_token env input token = transact do
  ensure_login_identifiers_available input.username input.email
  user ← insert_user env input
  guard (ltb env.now token.expires_at) invalid_argument
  stored ← insert_password_token (record token { user_id = user.id })
  pure (user, stored)

-- UpdateUserIdentity
unfoldable pub update_user_identity :
    (id username email display_name : ℕ) → AccountDb → Result User × AccountDb
unfolding update_user
update_user_identity id username email display_name = transact do
  collision ←
      gets
        (λ (db : AccountDb). any (λ u. not (u.id == id) && identifier_in username email u) db.users)
  guard (not collision) conflict
  update_user (is_user id)
      (λ u. record u { username = username; email = email; display_name = display_name })

abbrev pub is_active_user : AccountDb → ℕ → Bool
is_active_user db id = elim (first (is_user id) db.users) [
  | none ↦ false
  | some u ↦ is_active u.status
]

-- Another active user is a direct admin of the project.
unfoldable pub has_other_admin : AccountDb → (project_id user_id : ℕ) → Bool
has_other_admin db project_id user_id =
    any
      (λ a.
        a.project_id == project_id
        && is_project_admin a.role
        && not (a.user_id == user_id)
        && is_active_user db a.user_id)
      db.user_access

-- userIsSoleActiveDirectAdmin
unfoldable pub user_is_sole_active_direct_admin : ℕ → AccountDb → Bool
unfolding has_other_admin
user_is_sole_active_direct_admin user_id db =
    any
      (λ a.
        a.user_id == user_id
        && is_project_admin a.role
        && not (has_other_admin db a.project_id user_id))
      db.user_access

abbrev pub is_active_admin : User → Bool
is_active_admin u = is_deployment_admin u.deployment_role && is_active u.status

-- The part of setUserStatus that changes the status.
unfoldable pub change_user_status : AccountEnv → User → UserStatus → TxOn AccountDb User
unfolding update_user revoke_sessions user_is_sole_active_direct_admin
change_user_status env current status = do
  let leaves : Bool = is_active current.status && not (is_active status)
  sole ← gets (user_is_sole_active_direct_admin current.id)
  guard (not (leaves && sole)) last_project_admin
  active_admins ← gets (λ (db : AccountDb). count is_active_admin db.users)
  guard (not (leaves && is_deployment_admin current.deployment_role && leb active_admins 1))
      conflict
  user ←
      update_user (is_user current.id)
        (λ u. record u { status = status; auth_version = u.auth_version + 1 })
  revoke_sessions (λ s. s.user_id == current.id) env.now
  pure user

-- setUserStatus
unfoldable pub set_user_status :
    AccountEnv → ℕ → UserStatus → Bool → AccountDb → Result User × AccountDb
unfolding change_user_status
set_user_status env id status derive_enabled_status = transact do
  row ← gets (λ (db : AccountDb). first (is_user id) db.users)
  current ← found row
  let wanted : UserStatus =
      if derive_enabled_status && is_null current.password_hash then UserStatus.pending else status
  if same_status current.status wanted then pure current else change_user_status env current wanted

abbrev pub with_password : ℕ → Bool → User → User
with_password password_hash force u = record u {
  password_hash = some password_hash;
  status = if is_pending_user u.status then UserStatus.active else u.status;
  force_password_change = force;
  auth_version = u.auth_version + 1;
}

abbrev pub has_version : Option ℕ → User → Bool
has_version none u = true
has_version (some expected) u = u.auth_version == expected

-- setUserPassword, where it is to change only the auth version that is expected, if any.
unfoldable pub set_user_password :
    AccountEnv → ℕ → Option ℕ → ℕ → Bool → AccountDb → Result User × AccountDb
unfolding update_user revoke_sessions revoke_outstanding_password_tokens
set_user_password env id expected password_hash force = transact do
  exists ← gets (λ (db : AccountDb). any (is_user id) db.users)
  matches ← gets (λ (db : AccountDb). any (λ u. is_user id u && has_version expected u) db.users)
  guard (matches || not exists) conflict
  user ←
      update_user (λ u. is_user id u && has_version expected u) (with_password password_hash force)
  revoke_sessions (λ s. s.user_id == id) env.now
  revoke_outstanding_password_tokens env id
  pure user

abbrev pub setup_password : TokenPurpose → ℕ → User → User
setup_password TokenPurpose.reset password_hash u = record u {
  password_hash = some password_hash;
  force_password_change = false;
  auth_version = u.auth_version + 1;
}
setup_password TokenPurpose.setup password_hash u = record u {
  password_hash = some password_hash;
  status = UserStatus.active;
  force_password_change = false;
  auth_version = u.auth_version + 1;
}

abbrev pub may_setup : TokenPurpose → User → Bool
may_setup TokenPurpose.reset u = true
may_setup TokenPurpose.setup u = is_pending_user u.status

-- CreatePasswordToken
unfoldable pub create_password_token :
    AccountEnv → PasswordToken → AccountDb → Result PasswordToken × AccountDb
unfolding insert_password_token
create_password_token env token = transact do
  modify (λ db. record db {
    password_tokens =
        update
          (λ t.
            t.user_id == token.user_id && same_purpose t.purpose token.purpose && is_outstanding t)
          (λ t. record t { revoked_at = some env.now }) db.password_tokens;
  })
  known ← gets (λ (db : AccountDb). any (is_user token.user_id) db.users)
  guard (known && ltb env.now token.expires_at) invalid_argument
  insert_password_token token

-- CompletePasswordToken
unfoldable pub complete_password_token :
    AccountEnv
    → (hash : ℕ) → TokenPurpose
    → (password_hash : ℕ) → AccountDb
    → Result User × AccountDb
unfolding update_user revoke_sessions revoke_outstanding_password_tokens
complete_password_token env hash purpose password_hash = transact do
  let test : PasswordToken → Bool = λ t.
      t.token_hash == hash
      && same_purpose t.purpose purpose
      && is_outstanding t
      && ltb env.now t.expires_at
  row ← gets (λ (db : AccountDb). first test db.password_tokens)
  token ← found row
  modify (λ db. record db {
    password_tokens = update test (λ t. record t { consumed_at = some env.now }) db.password_tokens;
  })
  user ←
      update_user (λ u. is_user token.user_id u && may_setup purpose u)
        (setup_password purpose password_hash)
  revoke_sessions (λ s. s.user_id == token.user_id) env.now
  revoke_outstanding_password_tokens env token.user_id
  pure user
