-- ===== src/Accounts/Projects.antt =====
-- project_access.go and groups.go: the access of users and groups to projects; effective_role_sql.go:
-- the role that follows from it; app/project_access.go: what a role permits.
use agent_board.Prelude.{
  ℕ, Bool, false, not, ◌&&◌, Option, none, some, List, [], ◌∷◌, ◌++◌, ◌==◌, ltb, leb, if◌then◌else◌,
}
use agent_board.Prelude.Rows.{first, any, update, delete}
use agent_board.Prelude.Order.{best}
use agent_board.Store.Tx.{
  Result, ok, err, TxOn, invalid_argument, not_found, conflict, last_project_admin, pure, ◌>>=◌,
  ◌>>◌, gets, modify, found, guard, transact,
}
use agent_board.Accounts.Types.{
  User, ProjectRole, ProjectUserAccess, ProjectGroupAccess, GroupMember, AccountDb, AccountEnv,
  is_active, is_deployment_admin, is_project_admin, valid_project_role, project_role_rank,
}
use agent_board.Accounts.Users.{is_user}
use agent_board.Accounts.Passwords.{is_active_user}

-- The rows that ensureActiveDirectProjectAdmin counts.
abbrev pub is_direct_admin : AccountDb → ℕ → ProjectUserAccess → Bool
is_direct_admin db project_id a =
    a.project_id == project_id && is_project_admin a.role && is_active_user db a.user_id

-- ensureActiveDirectProjectAdmin
unfoldable pub ensure_active_direct_project_admin : ℕ → TxOn AccountDb (Unit {0})
ensure_active_direct_project_admin project_id = do
  exists ← gets (λ db. any (is_direct_admin db project_id) db.user_access)
  guard exists last_project_admin

-- CreateProjectWithAdmin, as far as access is concerned: the prefix of the project is valid or not.
unfoldable pub create_project_with_admin :
    AccountEnv → (valid_prefix : Bool) → (user_id : ℕ) → AccountDb → Result ℕ × AccountDb
create_project_with_admin env valid_prefix user_id = transact do
  guard (not (user_id == 0) && valid_prefix) invalid_argument
  row ← gets (λ (db : AccountDb). first (is_user user_id) db.users)
  user ← found row
  guard (is_active user.status) invalid_argument
  taken ← gets (λ (db : AccountDb). any (λ p. p == env.gen_random_uuid) db.projects)
  guard (not taken) conflict
  modify (λ db. record db { projects = env.gen_random_uuid ∷ db.projects })
  modify (λ db. record db {
    user_access =
        record { project_id = env.gen_random_uuid; user_id = user_id; role = ProjectRole.admin }
        ∷ db.user_access;
  })
  pure env.gen_random_uuid

abbrev pub same_access : ProjectUserAccess → ProjectUserAccess → Bool
same_access input a = a.project_id == input.project_id && a.user_id == input.user_id

-- UpsertProjectUserAccess: INSERT … ON CONFLICT (project_id,user_id) DO UPDATE SET role.
unfoldable pub upsert_project_user_access :
    ProjectUserAccess → AccountDb → Result ProjectUserAccess × AccountDb
unfolding ensure_active_direct_project_admin
upsert_project_user_access input = transact do
  guard (valid_project_role input.role) invalid_argument
  known ← gets (λ (db : AccountDb).
      any (λ p. p == input.project_id) db.projects && any (is_user input.user_id) db.users)
  guard known invalid_argument
  exists ← gets (λ (db : AccountDb). any (same_access input) db.user_access)
  modify (λ db. record db {
    user_access =
        if exists
        then update (same_access input) (λ a. record a { role = input.role }) db.user_access
        else input ∷ db.user_access;
  })
  ensure_active_direct_project_admin input.project_id
  pure input

-- DeleteProjectUserAccess
unfoldable pub delete_project_user_access :
    (project_id user_id : ℕ) → AccountDb → Result (Unit {0}) × AccountDb
unfolding ensure_active_direct_project_admin
delete_project_user_access project_id user_id = transact do
  let mine : ProjectUserAccess → Bool = λ a. a.project_id == project_id && a.user_id == user_id
  exists ← gets (λ (db : AccountDb). any mine db.user_access)
  modify (λ db. record db { user_access = delete mine db.user_access })
  guard exists not_found
  ensure_active_direct_project_admin project_id

-- UpsertProjectGroupAccess
unfoldable pub upsert_project_group_access :
    ProjectGroupAccess → AccountDb → Result ProjectGroupAccess × AccountDb
upsert_project_group_access input = transact do
  guard (valid_project_role input.role) invalid_argument
  known ← gets (λ (db : AccountDb).
      any (λ p. p == input.project_id) db.projects && any (λ g. g == input.group_id) db.groups)
  guard known invalid_argument
  let same : ProjectGroupAccess → Bool =
      λ a. a.project_id == input.project_id && a.group_id == input.group_id
  exists ← gets (λ (db : AccountDb). any same db.group_access)
  modify (λ db. record db {
    group_access =
        if exists
        then update same (λ a. record a { role = input.role }) db.group_access
        else input ∷ db.group_access;
  })
  pure input

-- DeleteProjectGroupAccess
unfoldable pub delete_project_group_access :
    (project_id group_id : ℕ) → AccountDb → Result (Unit {0}) × AccountDb
delete_project_group_access project_id group_id = transact do
  let mine : ProjectGroupAccess → Bool = λ a. a.project_id == project_id && a.group_id == group_id
  exists ← gets (λ (db : AccountDb). any mine db.group_access)
  modify (λ db. record db { group_access = delete mine db.group_access })
  guard exists not_found

-- AddGroupMember
unfoldable pub add_group_member : (group_id user_id : ℕ) → AccountDb → Result (Unit {0}) × AccountDb
add_group_member group_id user_id = transact do
  group ← gets (λ (db : AccountDb). any (λ g. g == group_id) db.groups)
  guard group not_found
  user ← gets (λ (db : AccountDb). any (is_user user_id) db.users)
  guard user invalid_argument
  taken ← gets (λ (db : AccountDb).
      any (λ m. m.group_id == group_id && m.user_id == user_id) db.group_members)
  guard (not taken) conflict
  modify (λ db. record db {
    group_members = record { group_id = group_id; user_id = user_id } ∷ db.group_members;
  })

-- RemoveGroupMember; ErrGroupMemberNotFound is not told apart from ErrNotFound.
unfoldable pub remove_group_member :
    (group_id user_id : ℕ) → AccountDb → Result (Unit {0}) × AccountDb
remove_group_member group_id user_id = transact do
  let mine : GroupMember → Bool = λ m. m.group_id == group_id && m.user_id == user_id
  group ← gets (λ (db : AccountDb). any (λ g. g == group_id) db.groups)
  exists ← gets (λ (db : AccountDb). any mine db.group_members)
  modify (λ db. record db { group_members = delete mine db.group_members })
  guard (group && exists) not_found

-- The grants of a user in a project: the direct one, and those of the user's groups.
unfoldable pub direct_grants : (project_id user_id : ℕ) → List ProjectUserAccess → List ProjectRole
direct_grants project_id user_id [] = []
direct_grants project_id user_id (a ∷ rest) =
    let more = direct_grants project_id user_id rest in
    if a.project_id == project_id && a.user_id == user_id then a.role ∷ more else more

unfoldable pub group_grants :
    (project_id user_id : ℕ) → AccountDb → List ProjectGroupAccess → List ProjectRole
group_grants project_id user_id db [] = []
group_grants project_id user_id db (a ∷ rest) =
    let more = group_grants project_id user_id db rest in
    if a.project_id == project_id
      && any (λ m. m.group_id == a.group_id && m.user_id == user_id) db.group_members
    then a.role ∷ more
    else more

-- ORDER BY the rank, DESC, LIMIT 1.
abbrev pub higher_role : ProjectRole → ProjectRole → Bool
higher_role a b = ltb (project_role_rank b) (project_role_rank a)

unfoldable pub granted_role : (project_id user_id : ℕ) → AccountDb → Option ProjectRole
unfolding direct_grants group_grants best
granted_role project_id user_id db = best higher_role none (
    direct_grants project_id user_id db.user_access
    ++ group_grants project_id user_id db db.group_access)

abbrev pub checked_role : Option ProjectRole → Result ProjectRole
checked_role none = err not_found
checked_role (some r) = if valid_project_role r then ok r else err invalid_argument

-- effectiveProjectRole
unfoldable pub effective_project_role : (project_id user_id : ℕ) → AccountDb → Result ProjectRole
unfolding granted_role
effective_project_role project_id user_id db = elim (first (is_user user_id) db.users) [
  | none ↦ err not_found
  | some u ↦
      if not (any (λ p. p == project_id) db.projects)
      then err not_found
      else (if is_deployment_admin u.deployment_role
          then ok ProjectRole.admin
          else checked_role (granted_role project_id user_id db))
]

-- ProjectRoleAtLeast
abbrev pub project_role_at_least : ProjectRole → ProjectRole → Bool
project_role_at_least role minimum =
    leb (project_role_rank minimum) (project_role_rank role) && ltb 0 (project_role_rank minimum)

abbrev pub permitted : ProjectRole → Result ProjectRole → Bool
permitted minimum (err e) = false
permitted minimum (ok role) = project_role_at_least role minimum

-- requireAuthenticatedUser and requireNormalAuthenticatedUser of app/auth_management.go
abbrev pub is_normal_user : User → Bool
is_normal_user actor =
    not (actor.id == 0) && is_active actor.status && not actor.force_password_change

-- RequireRole of app/project_access.go, with EffectiveRole: whether it lets the actor on, who is
-- the user as the authentication found it.
unfoldable pub require_role : ℕ → User → ProjectRole → AccountDb → Bool
unfolding effective_project_role
require_role project_id actor minimum db =
    valid_project_role minimum
    && is_normal_user actor
    && permitted minimum (effective_project_role project_id actor.id db)
