-- ===== src/Accounts/Versions.antt =====
-- auth_management.go and app/auth.go: the version of a user's tokens, over every history of calls.
pub mod Refusal
use mathlib.Core.Path.{subst}
use agent_board.Prelude.{
  ℕ, suc, ◌+◌, ◌≤◌, ◌≡◌, refl, sym, ap, ◌∙◌, Bool, true, false, not, ◌&&◌, Bool-cases, Option,
  Option-cases, none, some, List, [], ◌∷◌, ◌++◌, ◌==◌, inl, inr, if◌then◌else◌, arith,
}
use agent_board.Prelude.Rows.{In-first, first, any, count, update}
use agent_board.Prelude.Updates.{first-update, first-append_found}
use agent_board.Store.Tx.{ok, TxOn, pure, ◌>>=◌, ◌>>◌, gets, modify, found, guard, transact}
use agent_board.Store.Rules.{
  Keeps, Ensures, Ensures-bind, Ensures-then, Ensures-gets, Ensures-found, Ensures-guard,
  Ensures-modify, Ensures-weaken, transact-Ensures,
}
use agent_board.Store.Keeps.{
  Keeps-pure, Keeps-found, Keeps-gets, Keeps-guard, Keeps-bind, Keeps-then, Keeps-modify,
  keeps_rules, transact-Keeps,
}
use agent_board.Accounts.Types.{
  UserStatus, User, AuthSession, RefreshToken, PasswordToken, ProjectUserAccess, AccountDb,
  AccountEnv, is_active,
}
use agent_board.Accounts.Users.{
  is_user, update_user, revoke_sessions, revoke_outstanding_password_tokens, insert_user,
}
use agent_board.Accounts.Passwords.{
  user_is_sole_active_direct_admin, change_user_status, with_password, has_version,
  set_user_password,
}
use agent_board.Accounts.Sessions.{
  create_auth_session, rotate_auth_session, insert_refresh_token, AccessClaims, valid_claims,
  with_version, authenticate_access_token,
}
use agent_board.Accounts.Projects.{
  ensure_active_direct_project_admin, create_project_with_admin, upsert_project_user_access,
  delete_project_user_access,
}
use agent_board.Accounts.Frame.{AccountFrame, Improves}
use agent_board.Accounts.Calls.{AccountCall, run_account_calls}
use agent_board.Accounts.Frame.History.{run_account_calls-Keeps}
use agent_board.Accounts.Frame.Statements.{
  insert_user-Keeps, update_user-Keeps, revoke_sessions-Keeps, change_user_status-Keeps,
  create_auth_session-Keeps, rotate_auth_session-Keeps, create_project_with_admin-Keeps,
  upsert_project_user_access-Keeps, delete_project_user_access-Keeps,
}

module _ (id n : ℕ) where
  -- The user's row has at least the version `n`.
  pub record AtLeast (db : AccountDb) : Type 0 where
    pub row : User
    pub is_row : first (is_user id) db.users ≡ some row
    pub no_older : n ≤ row.auth_version

  append-AtLeast :
      (db : AccountDb) (u : User) → AtLeast db → AtLeast (record db { users = db.users ++ u ∷ [] })
  append-AtLeast db u h = record {
    row = h.row;
    is_row = first-append_found (is_user id) db.users (u ∷ []) h.is_row;
    no_older = h.no_older;
  }

  update-AtLeast :
      (db : AccountDb) (test : User → Bool) (change : User → User)
      → ((u : User) → (change u).id ≡ u.id)
      → ((u : User) → u.auth_version ≤ (change u).auth_version)
      → AtLeast db
      → AtLeast (record db { users = update test change db.users })
  update-AtLeast db test change keeps_id no_older h = record {
    row = if test h.row then change h.row else h.row;
    is_row =
        first-update (is_user id) test change db.users (λ x t. ap (λ m. m == id) (keeps_id x))
          h.is_row;
    no_older = elim (Bool-cases (test h.row)) [
      | inl t ↦ rw (t) (ground (arith, h.no_older, no_older h.row))
      | inr t ↦ rw (t) h.no_older
    ];
  }

  updates-AtLeast :
      (test : User → Bool) (change : User → User)
      → ((u : User) → (change u).id ≡ u.id)
      → ((u : User) → u.auth_version ≤ (change u).auth_version)
      → Keeps AtLeast (update_user test change)
  updates-AtLeast test change i v =
      update_user-Keeps test change (λ db h. update-AtLeast db test change i v h)

  -- A change of other tables.
  same-AtLeast : (db db' : AccountDb) → db'.users ≡ db.users → AtLeast db → AtLeast db'
  same-AtLeast db db' e h = record {
    row = h.row;
    is_row = ap (first (is_user id)) e ∙ h.is_row;
    no_older = h.no_older;
  }

  pub modify-AtLeast :
      (f : AccountDb → AccountDb)
      → ((db : AccountDb) → (f db).users ≡ db.users)
      → Keeps AtLeast (modify f)
  modify-AtLeast f e = Keeps-modify f (λ db h. same-AtLeast db (f db) (e db) h)

  pub revoke_sessions-AtLeast :
      (test : AuthSession → Bool) (now : ℕ) → Keeps AtLeast (revoke_sessions test now)
  revoke_sessions-AtLeast test now =
      revoke_sessions-Keeps test now (λ db h. same-AtLeast db _ refl h)

  pub AtLeast-Frame : AccountFrame AtLeast
  AtLeast-Frame = record {
    inserts_user = λ env u. insert_user-Keeps env u append-AtLeast;
    updates_user = λ test change i. updates-AtLeast test change i.keeps_id i.no_older;
    changes_status = λ env k current status.
        Ensures-weaken _ (λ db h. h.0)
          (change_user_status-Keeps env current status
            (updates-AtLeast _ _ (λ u. refl) (λ u. omega arith)) (revoke_sessions-AtLeast _ _));
    revokes = revoke_sessions-AtLeast;
    sets_password_tokens = λ g. modify-AtLeast _ (λ db. refl);
    creates_session =
        create_auth_session-Keeps (λ g. modify-AtLeast _ (λ db. refl))
          (λ g. modify-AtLeast _ (λ db. refl));
    rotates =
        rotate_auth_session-Keeps (λ g. modify-AtLeast _ (λ db. refl))
          (λ g. modify-AtLeast _ (λ db. refl));
    makes_project = λ env v u.
        create_project_with_admin-Keeps env v u (λ db p h. same-AtLeast db _ refl h)
          (λ db a h. same-AtLeast db _ refl h);
    upserts = upsert_project_user_access-Keeps (λ g. modify-AtLeast _ (λ db. refl));
    deletes = delete_project_user_access-Keeps (λ g. modify-AtLeast _ (λ db. refl));
    sets_group_access = λ g. modify-AtLeast _ (λ db. refl);
    sets_group_members = λ g. modify-AtLeast _ (λ db. refl);
  }
