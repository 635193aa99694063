-- ===== src/Accounts/Frame.antt =====
-- What a property of the account tables has to put up with: `AccountFrame` is the interface that it
-- fills.
pub mod History
pub mod Statements
use agent_board.Prelude.{
  ℕ, ◌≤◌, ◌≡◌, refl, Bool, true, false, Option, Option-cases, none, some, List, [], ◌∷◌, inl, inr,
  if◌then◌else◌, if-cases, is_null, arith,
}
use agent_board.Prelude.Rows.{first}
use agent_board.Store.Tx.{TxOn, pure, fail, ◌>>=◌, ◌>>◌, gets, modify, found, guard, transact}
use agent_board.Store.Rules.{
  Keeps, Ensures, Ensures-bind, Ensures-then, Ensures-gets, Ensures-found, Ensures-if, Ensures-pure,
  Ensures-weaken,
}
use agent_board.Store.Keeps.{
  Keeps-pure, Keeps-found, Keeps-gets, Keeps-guard, Keeps-bind, Keeps-then, Keeps-if, keeps_rules,
  transact-Keeps,
}
use agent_board.Accounts.Types.{
  UserStatus, TokenPurpose, User, AuthSession, PasswordToken, ProjectUserAccess, ProjectGroupAccess,
  GroupMember, AccountDb, AccountEnv, is_active, same_status,
}
use agent_board.Accounts.Users.{
  is_user, update_user, revoke_sessions, revoke_outstanding_password_tokens,
  ensure_login_identifiers_available, insert_user, bootstrap_user, create_user,
}
use agent_board.Accounts.Passwords.{
  insert_password_token, create_pending_user_with_setup_token, update_user_identity,
  change_user_status, set_user_status, with_password, has_version, set_user_password,
  setup_password, create_password_token, complete_password_token,
}
use agent_board.Accounts.Sessions.{
  create_auth_session, rotate_auth_session, refreshable, rotation, session_by_refresh_hash, refresh,
  revoke_auth_session_by_refresh_hash, revoke_user_auth_sessions, revoke_auth_session,
  revoke_other_auth_sessions,
}
use agent_board.Accounts.Projects.{
  create_project_with_admin, upsert_project_user_access, delete_project_user_access,
  upsert_project_group_access, delete_project_group_access, add_group_member, remove_group_member,
}
use agent_board.Accounts.Calls.{
  AccountCall, bootstraps, creates_user, invites, renames, sets_status, sets_password,
  offers_password_token, completes_password_token, logs_in, refreshes, logs_out, revokes_user,
  revokes_session, revokes_others, creates_project, grants_user, withdraws_user, grants_group,
  withdraws_group, joins_group, leaves_group, step, run_account_calls,
}

-- A change of a user that keeps the id, does not take the auth version back, and leaves an active
-- user active.
pub record Improves (change : User → User) : Type 0 where
  pub keeps_id : (u : User) → (change u).id ≡ u.id
  pub no_older : (u : User) → u.auth_version ≤ (change u).auth_version
  pub stays_active : (u : User) → is_active u.status ≡ true → is_active (change u).status ≡ true

pub record AccountFrame (P : AccountDb → Type 0) : Type 0 where
  pub inserts_user : (env : AccountEnv) (u : User) → Keeps P (insert_user env u)
  pub updates_user :
      (test : User → Bool) (change : User → User)
      → Improves change
      → Keeps P (update_user test change)
  pub changes_status :
      (env : AccountEnv) (id : ℕ) (current : User) (status : UserStatus)
      → Ensures
          (λ db. P db × (first (is_user id) db.users ≡ some current))
          (change_user_status env current status)
          (λ _ db. P db)
  pub revokes : (test : AuthSession → Bool) (now : ℕ) → Keeps P (revoke_sessions test now)
  pub sets_password_tokens :
      (g : AccountDb → List PasswordToken)
      → Keeps P (modify (λ db. record db { password_tokens = g db }))
  pub creates_session :
      (env : AccountEnv) (u h x : ℕ) (db : AccountDb)
      → P db
      → P (create_auth_session env u h x db).1
  pub rotates :
      (id old new x now : ℕ) (db : AccountDb) → P db → P (rotate_auth_session id old new x now db).1
  pub makes_project :
      (env : AccountEnv) (v : Bool) (u : ℕ) (db : AccountDb)
      → P db
      → P (create_project_with_admin env v u db).1
  pub upserts :
      (input : ProjectUserAccess) (db : AccountDb)
      → P db
      → P (upsert_project_user_access input db).1
  pub deletes : (p u : ℕ) (db : AccountDb) → P db → P (delete_project_user_access p u db).1
  pub sets_group_access :
      (g : AccountDb → List ProjectGroupAccess)
      → Keeps P (modify (λ db. record db { group_access = g db }))
  pub sets_group_members :
      (g : AccountDb → List GroupMember)
      → Keeps P (modify (λ db. record db { group_members = g db }))

pub identity-Improves :
    (a b c : ℕ) → Improves (λ u. record u { username = a; email = b; display_name = c })
identity-Improves a b c = record {
  keeps_id = λ u. refl;
  no_older = λ u. omega arith;
  stays_active = λ u h. h;
}

pub with_password-Improves : (hash : ℕ) (force : Bool) → Improves (with_password hash force)
with_password-Improves hash force = record {
  keeps_id = λ u. refl;
  no_older = λ u. omega arith;
  stays_active = λ u h. ground (arith, h);
}

pub setup_password-Improves :
    (purpose : TokenPurpose) (hash : ℕ) → Improves (setup_password purpose hash)
setup_password-Improves TokenPurpose.reset hash = record {
  keeps_id = λ u. refl;
  no_older = λ u. omega arith;
  stays_active = λ u h. h;
}
setup_password-Improves TokenPurpose.setup hash = record {
  keeps_id = λ u. refl;
  no_older = λ u. omega arith;
  stays_active = λ u h. refl;
}

module _ {P : AccountDb → Type 0} (F : AccountFrame P) where
  pub inserts : (env : AccountEnv) (u : User) → Keeps P (insert_user env u)
  inserts = F.inserts_user

  pub update :
      (test : User → Bool) (change : User → User)
      → Improves change
      → Keeps P (update_user test change)
  update = F.updates_user

  pub revoke : (test : AuthSession → Bool) (now : ℕ) → Keeps P (revoke_sessions test now)
  revoke = F.revokes

  pub tokens :
      (g : AccountDb → List PasswordToken)
      → Keeps P (modify (λ db. record db { password_tokens = g db }))
  tokens = F.sets_password_tokens

  pub group_rows :
      (g : AccountDb → List ProjectGroupAccess)
      → Keeps P (modify (λ db. record db { group_access = g db }))
  group_rows = F.sets_group_access

  pub member_rows :
      (g : AccountDb → List GroupMember)
      → Keeps P (modify (λ db. record db { group_members = g db }))
  member_rows = F.sets_group_members

pub ruleset leaves = (
  inserts, update, revoke, tokens, group_rows, member_rows, identity-Improves,
  with_password-Improves, setup_password-Improves,
)
