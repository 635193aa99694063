-- ===== src/Accounts/Users.antt =====
-- auth.go: the statements on users and sessions, and new users. The locks on tables make the
-- transactions run one after the other.
use agent_board.Prelude.{
  ℕ, Bool, true, not, ◌&&◌, ◌||◌, some, [], ◌∷◌, ◌++◌, ◌==◌, ltb, is_null, if◌then◌else◌,
}
use agent_board.Prelude.Rows.{first, any, count, update}
use agent_board.Store.Tx.{
  Result, TxOn, invalid_argument, conflict, database_error, pure, ◌>>=◌, ◌>>◌, gets, modify, found,
  guard, transact,
}
use agent_board.Accounts.Types.{User, AuthSession, PasswordToken, AccountDb, AccountEnv, is_active}

abbrev pub is_user : ℕ → User → Bool
is_user id u = u.id == id

-- CHECK (status <> 'active' OR password_hash IS NOT NULL)
abbrev pub user_row_ok : User → Bool
user_row_ok u = not (is_active u.status) || not (is_null u.password_hash)

-- UPDATE users SET … WHERE … RETURNING …, read by scanUser. A bigint that overflows is an error of
-- the driver, a broken check is ErrInvalidArgument.
unfoldable pub update_user : (User → Bool) → (User → User) → TxOn AccountDb User
update_user test change = do
  row ← gets (λ db. first test db.users)
  user ← found row
  guard (ltb (change user).auth_version 9223372036854775808) database_error
  guard (user_row_ok (change user)) invalid_argument
  modify (λ db. record db { users = update test change db.users })
  pure (change user)

-- UPDATE auth_sessions SET revoked_at=COALESCE(revoked_at,…) WHERE … AND revoked_at IS NULL
unfoldable pub revoke_sessions : (AuthSession → Bool) → ℕ → TxOn AccountDb ℕ
revoke_sessions test now = do
  let open_ones : AuthSession → Bool = λ s. test s && is_null s.revoked_at
  changed ← gets (λ db. count open_ones db.sessions)
  modify (λ db. record db {
    sessions = update open_ones (λ s. record s { revoked_at = some now }) db.sessions;
  })
  pure changed

abbrev pub is_outstanding : PasswordToken → Bool
is_outstanding t = is_null t.consumed_at && is_null t.revoked_at

-- revokeOutstandingPasswordTokens
unfoldable pub revoke_outstanding_password_tokens : AccountEnv → ℕ → TxOn AccountDb (Unit {0})
revoke_outstanding_password_tokens env user_id = modify (λ db. record db {
  password_tokens =
      update (λ t. t.user_id == user_id && is_outstanding t)
        (λ t. record t { revoked_at = some env.now }) db.password_tokens;
})

-- ensureLoginIdentifiersAvailable
abbrev pub identifier_in : ℕ → ℕ → User → Bool
identifier_in username email u =
    u.username == username || u.username == email || u.email == username || u.email == email

unfoldable pub ensure_login_identifiers_available : ℕ → ℕ → TxOn AccountDb (Unit {0})
ensure_login_identifiers_available username email = do
  exists ← gets (λ db. any (identifier_in username email) db.users)
  guard (not exists) conflict

-- insertUser
unfoldable pub insert_user : AccountEnv → User → TxOn AccountDb User
insert_user env input = do
  let user : User = record input {
    id = env.gen_random_uuid;
    auth_version = if ltb input.auth_version 1 then 1 else input.auth_version;
  }
  taken ← gets (λ db. any (is_user env.gen_random_uuid) db.users)
  guard (not taken) conflict
  guard (ltb user.auth_version 9223372036854775808) database_error
  guard (user_row_ok user) invalid_argument
  modify (λ db. record db { users = db.users ++ user ∷ [] })
  pure user

-- BootstrapUser
unfoldable pub bootstrap_user : AccountEnv → User → AccountDb → Result User × AccountDb
unfolding ensure_login_identifiers_available insert_user
bootstrap_user env input = transact do
  exists ← gets (λ (db : AccountDb). any (λ u. true) db.users)
  guard (not exists) conflict
  ensure_login_identifiers_available input.username input.email
  insert_user env input

-- CreateUser
unfoldable pub create_user : AccountEnv → User → AccountDb → Result User × AccountDb
unfolding ensure_login_identifiers_available insert_user
create_user env input =
    transact do ensure_login_identifiers_available input.username input.email; insert_user env input
