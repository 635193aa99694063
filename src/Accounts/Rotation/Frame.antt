-- ===== src/Accounts/Rotation/Frame.antt =====
-- A property of the sessions and their refresh tokens alone: what is left to show of it.
use agent_board.Prelude.{ℕ, Bool, List}
use agent_board.Store.Rules.{Keeps, Ensures-weaken}
use agent_board.Store.Keeps.{Keeps-modify}
use agent_board.Accounts.Types.{User, AuthSession, RefreshToken, AccountDb, AccountEnv}
use agent_board.Accounts.Users.{update_user, revoke_sessions}
use agent_board.Accounts.Sessions.{create_auth_session, rotate_auth_session}
use agent_board.Accounts.Frame.{AccountFrame}
use agent_board.Accounts.Frame.Statements.{
  insert_user-Keeps, update_user-Keeps, change_user_status-Keeps, create_project_with_admin-Keeps,
  upsert_project_user_access-Keeps, delete_project_user_access-Keeps,
}

module _ (R : List AuthSession → List RefreshToken → Type 0) where
  abbrev pub OnTokens : AccountDb → Type 0
  OnTokens db = R db.sessions db.refresh_tokens

  pub record TokenFrame : Type 0 where
    pub revokes : (test : AuthSession → Bool) (now : ℕ) → Keeps OnTokens (revoke_sessions test now)
    pub creates_session :
        (env : AccountEnv) (u h x : ℕ) (db : AccountDb)
        → OnTokens db
        → OnTokens (create_auth_session env u h x db).1
    pub rotates :
        (id old new x now : ℕ) (db : AccountDb)
        → OnTokens db
        → OnTokens (rotate_auth_session id old new x now db).1

module _ (R : List AuthSession → List RefreshToken → Type 0) (F : TokenFrame R) where
  users-OnTokens :
      (test : User → Bool) (change : User → User) → Keeps (OnTokens R) (update_user test change)
  users-OnTokens test change = update_user-Keeps test change (λ db h. h)

  pub TokenFrame-AccountFrame : AccountFrame (OnTokens R)
  TokenFrame-AccountFrame = record {
    inserts_user = λ env u. insert_user-Keeps env u (λ db v h. h);
    updates_user = λ test change i. users-OnTokens test change;
    changes_status = λ env id current status.
        Ensures-weaken _ (λ db h. h.0)
          (change_user_status-Keeps env current status (users-OnTokens _ _) (F.revokes _ _));
    revokes = F.revokes;
    sets_password_tokens = λ g. Keeps-modify _ (λ db h. h);
    creates_session = F.creates_session;
    rotates = F.rotates;
    makes_project = λ env v u. create_project_with_admin-Keeps env v u (λ db p h. h) (λ db a h. h);
    upserts = upsert_project_user_access-Keeps (λ g. Keeps-modify _ (λ db h. h));
    deletes = delete_project_user_access-Keeps (λ g. Keeps-modify _ (λ db h. h));
    sets_group_access = λ g. Keeps-modify _ (λ db h. h);
    sets_group_members = λ g. Keeps-modify _ (λ db h. h);
  }
