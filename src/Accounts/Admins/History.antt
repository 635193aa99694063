-- ===== src/Accounts/Admins/History.antt =====
-- The active direct admins of a project over every history of calls.
use mathlib.Core.Path.{subst}
use agent_board.Prelude.{
  ℕ, ◌+◌, ◌≡◌, refl, sym, ◌∙◌, Bool, true, false, ◌&&◌, Bool-cases, some, List, ◌∷◌, ◌==◌, ==→eq,
  inl, inr, if◌then◌else◌, arith,
}
use agent_board.Prelude.Rows.{In-any, first, any, update, delete}
use agent_board.Prelude.Updates.{any-some, update-In, delete-In}
use agent_board.Store.Tx.{◌>>=◌, ◌>>◌}
use agent_board.Store.Rules.{
  Keeps, Ensures, Ensures-bind, Ensures-then, Ensures-gets, Ensures-found, Ensures-guard,
  Ensures-modify,
}
use agent_board.Store.Keeps.{
  Keeps-pure, Keeps-gets, Keeps-guard, Keeps-bind, Keeps-then, Keeps-modify, transact-Keeps,
}
use agent_board.Accounts.Types.{UserStatus, User, ProjectUserAccess, AccountDb, AccountEnv}
use agent_board.Accounts.Users.{is_user, update_user}
use agent_board.Accounts.Passwords.{user_is_sole_active_direct_admin, change_user_status}
use agent_board.Accounts.Projects.{
  is_direct_admin, ensure_active_direct_project_admin, same_access, upsert_project_user_access,
  delete_project_user_access,
}
use agent_board.Accounts.Frame.{AccountFrame}
use agent_board.Accounts.Calls.{AccountCall, run_account_calls}
use agent_board.Accounts.Frame.History.{run_account_calls-Keeps}
use agent_board.Accounts.Admins.{
  HasAdmin, Leaving, changed-HasAdmin, update_user-HasAdmin, insert_user-HasAdmin,
  revoke_sessions-HasAdmin,
}
use agent_board.Accounts.Frame.Statements.{
  create_auth_session-Keeps, rotate_auth_session-Keeps, create_project_with_admin-Keeps,
}

module _ (p : ℕ) where
  left-HasAdmin :
      (id : ℕ) (current : User) (status : UserStatus)
      → Ensures
          (Leaving p id current status)
          (update_user
            (is_user current.id)
            (λ u. record u { status = status; auth_version = u.auth_version + 1 }))
          (λ _ db. HasAdmin p db)
  unfolding update_user
  left-HasAdmin id current status =
      Ensures-bind {Q = λ _. Leaving p id current status} _ _ (Ensures-gets _ (λ db h. h)) λ row.
        Ensures-bind {Q = λ _. Leaving p id current status} _ _ (Ensures-found row (λ _ _ db h. h))
          λ user.
            Ensures-then {Q = Leaving p id current status} _ _ (Ensures-guard _ _ (λ _ db h. h)) (
              Ensures-then {Q = Leaving p id current status} _ _ (Ensures-guard _ _ (λ _ db h. h)) (
                Ensures-then {Q = HasAdmin p} _ _
                  (Ensures-modify _ (λ db h. changed-HasAdmin p id current status db h))
                  (Keeps-pure _)))

  status-HasAdmin :
      (env : AccountEnv) (id : ℕ) (current : User) (status : UserStatus)
      → Ensures
          (λ db. HasAdmin p db × (first (is_user id) db.users ≡ some current))
          (change_user_status env current status)
          (λ _ db. HasAdmin p db)
  unfolding change_user_status ◌>>=◌ ◌>>◌
  status-HasAdmin env id current status =
      Ensures-bind
        {Q = λ sole db.
          HasAdmin p db
          × (first (is_user id) db.users ≡ some current)
          × (user_is_sole_active_direct_admin current.id db ≡ sole)}
        _ _ (Ensures-gets _ (λ db h. (h.0, h.1, refl)))
        λ sole.
          Ensures-then {Q = Leaving p id current status} _ _
            (Ensures-guard _ _ (λ t db h. record {
              has_admin = h.0;
              is_current = h.1;
              not_sole = ground (arith, t, h.2);
            }))
            (Ensures-bind {Q = λ _. Leaving p id current status} _ _ (Ensures-gets _ (λ db h. h))
              λ admins.
                Ensures-then {Q = Leaving p id current status} _ _ (Ensures-guard _ _ (λ _ db h. h))
                  (Ensures-bind {Q = λ _. HasAdmin p} _ _ (left-HasAdmin id current status)
                    λ user. Keeps-bind _ _ (revoke_sessions-HasAdmin p _ _) λ n. Keeps-pure user))

  access-HasAdmin :
      (db : AccountDb) (a : ProjectUserAccess)
      → HasAdmin p db
      → HasAdmin p (record db { user_access = a ∷ db.user_access })
  unfolding any
  access-HasAdmin db a h = ground (arith, h)

  -- The check at the end of a change of the access to a project.
  ensured-HasAdmin :
      {P : AccountDb → Type 0} → Ensures P (ensure_active_direct_project_admin p) (λ _. HasAdmin p)
  unfolding ensure_active_direct_project_admin
  ensured-HasAdmin {P} =
      Ensures-bind {Q = λ exists db. any (is_direct_admin db p) db.user_access ≡ exists} _ _
        (Ensures-gets _ (λ db h. refl)) λ exists. Ensures-guard exists _ (λ t db h. h ∙ t)

  checked-HasAdmin : (q : ℕ) → Keeps (HasAdmin p) (ensure_active_direct_project_admin q)
  unfolding ensure_active_direct_project_admin
  checked-HasAdmin q = Keeps-bind _ _ (Keeps-gets _) λ exists. Keeps-guard exists _

  upserted-HasAdmin :
      (input : ProjectUserAccess) (exists : Bool) (db : AccountDb)
      → (p == input.project_id) ≡ false
      → HasAdmin p db
      → HasAdmin p (record db {
        user_access =
            if exists
            then update (same_access input) (λ a. record a { role = input.role }) db.user_access
            else input ∷ db.user_access;
      })
  upserted-HasAdmin input false db n h = access-HasAdmin db input h
  upserted-HasAdmin input true db n h =
      let (a, i, t) = any-some (is_direct_admin db p) db.user_access h in
      In-any (is_direct_admin db p)
        (update (same_access input) (λ a. record a { role = input.role }) db.user_access) a
        (update-In (same_access input) (λ a. record a { role = input.role }) db.user_access a i
          (ground (arith, t, n)))
        t

  deleted-HasAdmin :
      (q u : ℕ) (db : AccountDb)
      → (p == q) ≡ false
      → HasAdmin p db
      → HasAdmin p (record db {
        user_access = delete (λ a. a.project_id == q && a.user_id == u) db.user_access;
      })
  deleted-HasAdmin q u db n h =
      let (a, i, t) = any-some (is_direct_admin db p) db.user_access h in
      In-any (is_direct_admin db p)
        (delete (λ a. a.project_id == q && a.user_id == u) db.user_access) a
        (delete-In (λ a. a.project_id == q && a.user_id == u) db.user_access a i
          (ground (arith, t, n)))
        t

  upsert-HasAdmin :
      (input : ProjectUserAccess) (db : AccountDb)
      → HasAdmin p db
      → HasAdmin p (upsert_project_user_access input db).1
  unfolding upsert_project_user_access
  upsert-HasAdmin input = elim (Bool-cases (p == input.project_id)) [
    | inl t ↦
        let same : input.project_id ≡ p = sym (==→eq p input.project_id t) in
        transact-Keeps _ (
          Ensures-then {Q = λ _. Unit {0}} _ _ (Ensures-guard _ _ (λ _ db h. tt)) (
            Ensures-bind {Q = λ _ _. Unit {0}} _ _ (Ensures-gets _ (λ db h. tt)) λ known.
              Ensures-then {Q = λ _. Unit {0}} _ _ (Ensures-guard _ _ (λ _ db h. tt)) (
                Ensures-bind {Q = λ _ _. Unit {0}} _ _ (Ensures-gets _ (λ db h. tt)) λ exists.
                  Ensures-then {Q = λ _. Unit {0}} _ _ (Ensures-modify _ (λ db h. tt)) (
                    Ensures-then {Q = HasAdmin p} _ _
                      (subst
                        (λ q.
                          Ensures (λ _. Unit {0}) (ensure_active_direct_project_admin q)
                            (λ _. HasAdmin p))
                        (sym same) ensured-HasAdmin)
                      (Keeps-pure input)))))
    | inr n ↦ transact-Keeps _ (
        Keeps-then _ _ (Keeps-guard _ _) (
          Keeps-bind _ _ (Keeps-gets _) λ known. Keeps-then _ _ (Keeps-guard _ _) (
            Keeps-bind _ _ (Keeps-gets _) λ exists.
              Keeps-then _ _ (Keeps-modify _ (λ db h. upserted-HasAdmin input exists db n h))
                (Keeps-then _ _ (checked-HasAdmin input.project_id) (Keeps-pure input)))))
  ]

  delete-HasAdmin :
      (q u : ℕ) (db : AccountDb) → HasAdmin p db → HasAdmin p (delete_project_user_access q u db).1
  unfolding delete_project_user_access
  delete-HasAdmin q u = elim (Bool-cases (p == q)) [
    | inl t ↦
        let same : q ≡ p = sym (==→eq p q t) in
        transact-Keeps _ (
          Ensures-bind {Q = λ _ _. Unit {0}} _ _ (Ensures-gets _ (λ db h. tt)) λ exists.
            Ensures-then {Q = λ _. Unit {0}} _ _ (Ensures-modify _ (λ db h. tt)) (
              Ensures-then {Q = λ _. Unit {0}} _ _ (Ensures-guard _ _ (λ _ db h. tt)) (
                subst
                  (λ q'.
                    Ensures (λ _. Unit {0}) (ensure_active_direct_project_admin q')
                      (λ _. HasAdmin p))
                  (sym same) ensured-HasAdmin)))
    | inr n ↦ transact-Keeps _ (
        Keeps-bind _ _ (Keeps-gets _) λ exists.
          Keeps-then _ _ (Keeps-modify _ (λ db h. deleted-HasAdmin q u db n h))
            (Keeps-then _ _ (Keeps-guard _ _) (checked-HasAdmin q)))
  ]

  HasAdmin-Frame : AccountFrame (HasAdmin p)
  HasAdmin-Frame = record {
    inserts_user = insert_user-HasAdmin p;
    updates_user = update_user-HasAdmin p;
    changes_status = status-HasAdmin;
    revokes = revoke_sessions-HasAdmin p;
    sets_password_tokens = λ g. Keeps-modify _ (λ db h. h);
    creates_session =
        create_auth_session-Keeps (λ g. Keeps-modify _ (λ db h. h))
          (λ g. Keeps-modify _ (λ db h. h));
    rotates =
        rotate_auth_session-Keeps (λ g. Keeps-modify _ (λ db h. h))
          (λ g. Keeps-modify _ (λ db h. h));
    makes_project =
        λ env v u. create_project_with_admin-Keeps env v u (λ db q h. h) access-HasAdmin;
    upserts = upsert-HasAdmin;
    deletes = delete-HasAdmin;
    sets_group_access = λ g. Keeps-modify _ (λ db h. h);
    sets_group_members = λ g. Keeps-modify _ (λ db h. h);
  }

-- A project with an active direct admin has one through every history: of new users and their
-- names, status and passwords, of logins, refreshes and logouts, of new projects, and of grants and
-- withdrawals of access, whoever asks for them.
pub run_account_calls-HasAdmin :
    (project_id : ℕ) (db : AccountDb) (calls : List AccountCall)
    → HasAdmin project_id db
    → HasAdmin project_id (run_account_calls db calls)
run_account_calls-HasAdmin p db calls h = run_account_calls-Keeps (HasAdmin-Frame p) db calls h
