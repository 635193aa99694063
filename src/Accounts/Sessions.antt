-- ===== src/Accounts/Sessions.antt =====
-- auth.go and auth_management.go: sessions and their refresh tokens; and in app/auth.go what a
-- refresh, a logout and an access token do with them. A token is its hash, `none` where it is
-- malformed; the signature of an access token is that of the library, so a token that verifies is
-- its claims.
use agent_board.Prelude.{
  ℕ, ◌+◌, ◌/◌, Bool, true, false, not, ◌&&◌, ◌||◌, Option, none, some, [], ◌∷◌, ◌++◌, ◌==◌, ltb,
  leb, is_null, if◌then◌else◌,
}
use agent_board.Prelude.Rows.{first, any, update}
use agent_board.Store.Tx.{
  Result, ok, err, TxOn, invalid_argument, not_found, conflict, database_error, pure, ◌>>=◌, ◌>>◌,
  gets, modify, found, guard, transact,
}
use agent_board.Accounts.Types.{User, AuthSession, RefreshToken, AccountDb, AccountEnv, is_active}
use agent_board.Accounts.Users.{is_user, revoke_sessions}

-- INSERT INTO auth_session_refresh_tokens
unfoldable pub insert_refresh_token : RefreshToken → TxOn AccountDb (Unit {0})
insert_refresh_token token = do
  taken ← gets (λ (db : AccountDb). any (λ t. t.token_hash == token.token_hash) db.refresh_tokens)
  guard (not taken) database_error
  modify (λ db. record db { refresh_tokens = token ∷ db.refresh_tokens })

-- CreateAuthSession, with the indexes and the checks of the table.
unfoldable pub create_auth_session :
    AccountEnv
    → (user_id refresh_token_hash expires_at : ℕ) → AccountDb
    → Result AuthSession × AccountDb
unfolding insert_refresh_token
create_auth_session env user_id refresh_token_hash expires_at = transact do
  let session : AuthSession = record {
    id = env.gen_random_uuid;
    user_id = user_id;
    refresh_token_hash = refresh_token_hash;
    expires_at = expires_at;
    revoked_at = none;
    created_at = env.now;
    last_used_at = none;
  }
  known ← gets (λ (db : AccountDb). any (is_user user_id) db.users)
  guard (known && ltb env.now expires_at) invalid_argument
  taken ← gets (λ (db : AccountDb).
      any (λ s. s.id == session.id || s.refresh_token_hash == refresh_token_hash) db.sessions)
  guard (not taken) conflict
  modify (λ db. record db { sessions = db.sessions ++ session ∷ [] })
  insert_refresh_token (record { session_id = session.id; token_hash = refresh_token_hash })
  pure session

-- GetAuthSessionByRefreshHash
abbrev pub session_by_refresh_hash : ℕ → AccountDb → Option AuthSession
session_by_refresh_hash hash db = first (λ s. s.refresh_token_hash == hash) db.sessions

-- RotateAuthSession
abbrev pub can_rotate : (id old_hash now : ℕ) → AuthSession → Bool
can_rotate id old_hash now s =
    s.id == id && s.refresh_token_hash == old_hash && is_null s.revoked_at && ltb now s.expires_at

abbrev pub rotated : (new_hash expires_at now : ℕ) → AuthSession → AuthSession
rotated new_hash expires_at now s = record s {
  refresh_token_hash = new_hash;
  expires_at = expires_at;
  last_used_at = some now;
}

unfoldable pub rotate_auth_session :
    (id old_hash new_hash expires_at now : ℕ) → AccountDb → Result AuthSession × AccountDb
unfolding insert_refresh_token
rotate_auth_session id old_hash new_hash expires_at now = transact do
  row ← gets (λ (db : AccountDb). first (can_rotate id old_hash now) db.sessions)
  session ← found row
  taken ← gets (λ (db : AccountDb). any (λ s. s.refresh_token_hash == new_hash) db.sessions)
  guard (not taken) conflict
  modify (λ db. record db {
    sessions = update (can_rotate id old_hash now) (rotated new_hash expires_at now) db.sessions;
  })
  insert_refresh_token (record { session_id = session.id; token_hash = new_hash })
  pure (rotated new_hash expires_at now session)

-- The sessions that had a token with the hash.
abbrev pub had_token : AccountDb → ℕ → AuthSession → Bool
had_token db hash s = any (λ t. t.session_id == s.id && t.token_hash == hash) db.refresh_tokens

-- RevokeAuthSessionByRefreshHash
unfoldable pub revoke_auth_session_by_refresh_hash :
    ℕ → ℕ → AccountDb → Result (Unit {0}) × AccountDb
unfolding revoke_sessions
revoke_auth_session_by_refresh_hash hash now = transact do
  mine ← gets (λ (db : AccountDb). had_token db hash)
  changed ← revoke_sessions mine now
  guard (not (changed == 0)) not_found

-- RevokeUserAuthSessions
unfoldable pub revoke_user_auth_sessions : ℕ → ℕ → AccountDb → Result ℕ × AccountDb
unfolding revoke_sessions
revoke_user_auth_sessions user_id now = transact (revoke_sessions (λ s. s.user_id == user_id) now)

-- RevokeAuthSession
unfoldable pub revoke_auth_session :
    (user_id session_id now : ℕ) → AccountDb → Result (Unit {0}) × AccountDb
unfolding revoke_sessions
revoke_auth_session user_id session_id now = transact do
  changed ← revoke_sessions (λ s. s.user_id == user_id && s.id == session_id) now
  guard (not (changed == 0)) not_found

-- RevokeOtherAuthSessions
unfoldable pub revoke_other_auth_sessions :
    (user_id keep_session_id now : ℕ) → AccountDb → Result ℕ × AccountDb
unfolding revoke_sessions
revoke_other_auth_sessions user_id keep_session_id now =
    transact (revoke_sessions (λ s. s.user_id == user_id && not (s.id == keep_session_id)) now)

-- The session and the user that Refresh lets on.
abbrev pub refreshable : ℕ → Option AuthSession → AccountDb → Option AuthSession
refreshable now none db = none
refreshable now (some s) db =
    if not (is_null s.revoked_at) || leb s.expires_at now
    then none
    else (elim (first (is_user s.user_id) db.users) [
      | none ↦ none
      | some u ↦ if is_active u.status then some s else none
    ])

abbrev pub rotation :
    AccountEnv → (old_hash new_hash : ℕ) → Option AuthSession → AccountDb → Bool × AccountDb
rotation env old_hash new_hash none db = (false, db)
rotation env old_hash new_hash (some s) db =
    let done = rotate_auth_session s.id old_hash new_hash s.expires_at env.now db in
    (elim (done.0) [ ok a ↦ true | err e ↦ false ], done.1)

-- Refresh up to the access token that it issues: whether it lets the token on, and the database.
-- The new token is a random one, given by its hash.
unfoldable pub refresh : AccountEnv → Option ℕ → (new_hash : ℕ) → AccountDb → Bool × AccountDb
unfolding rotate_auth_session
refresh env none new_hash db = (false, db)
refresh env (some old_hash) new_hash db =
    rotation env old_hash new_hash (refreshable env.now (session_by_refresh_hash old_hash db) db) db

-- accessClaims, with the times of a token in microseconds, cut to seconds where they are compared.
pub record AccessClaims : Type 0 where
  pub subject : ℕ
  pub auth_version : ℕ
  pub is_ours : Bool
  pub issued_at : ℕ
  pub expires_at : ℕ

-- parseAccessToken, after the signature.
abbrev pub valid_claims : ℕ → AccessClaims → Bool
valid_claims now c =
    not (c.subject == 0)
    && leb 1 c.auth_version
    && c.is_ours
    && ltb (now / 1000000) c.expires_at
    && leb c.issued_at ((now + 120000000) / 1000000)

abbrev pub with_version : AccessClaims → Option User → Option User
with_version c none = none
with_version c (some u) =
    if is_active u.status && u.auth_version == c.auth_version then some u else none

-- AuthenticateAccessToken
unfoldable pub authenticate_access_token : ℕ → Option AccessClaims → AccountDb → Option User
authenticate_access_token now none db = none
authenticate_access_token now (some c) db =
    if valid_claims now c then with_version c (first (is_user c.subject) db.users) else none

-- issueAccessTokenWithSettings: the claims for a user, with a lifetime.
abbrev pub issue_access_token : (now lifetime : ℕ) → User → AccessClaims
issue_access_token now lifetime u = record {
  subject = u.id;
  auth_version = u.auth_version;
  is_ours = true;
  issued_at = now / 1000000;
  expires_at = (now + lifetime) / 1000000;
}
