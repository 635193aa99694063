-- ===== src/Accounts/Types.antt =====
-- The rows of users, auth_sessions, auth_session_refresh_tokens, password_tokens and of the access
-- to projects. An id, a hash and a text are numbers, 0 for the blank one.
use agent_board.Prelude.{ℕ, Bool, true, false, Option, List}

pub data UserStatus : Type 0 where
  pending active disabled : UserStatus

pub data DeploymentRole : Type 0 where
  admin member : DeploymentRole

pub data TokenPurpose : Type 0 where
  setup reset : TokenPurpose

pub data ProjectRole : Type 0 where
  viewer member admin other_role : ProjectRole

pub record User : Type 0 where
  pub id : ℕ
  pub username : ℕ
  pub email : ℕ
  pub display_name : ℕ
  -- NULL where there is none.
  pub password_hash : Option ℕ
  pub deployment_role : DeploymentRole
  pub status : UserStatus
  pub force_password_change : Bool
  pub auth_version : ℕ

pub record AuthSession : Type 0 where
  pub id : ℕ
  pub user_id : ℕ
  pub refresh_token_hash : ℕ
  pub expires_at : ℕ
  pub revoked_at : Option ℕ
  pub created_at : ℕ
  pub last_used_at : Option ℕ

pub record RefreshToken : Type 0 where
  pub session_id : ℕ
  pub token_hash : ℕ

pub record PasswordToken : Type 0 where
  pub id : ℕ
  pub user_id : ℕ
  pub purpose : TokenPurpose
  pub token_hash : ℕ
  pub expires_at : ℕ
  pub consumed_at : Option ℕ
  pub revoked_at : Option ℕ

pub record ProjectUserAccess : Type 0 where
  pub project_id : ℕ
  pub user_id : ℕ
  pub role : ProjectRole

pub record ProjectGroupAccess : Type 0 where
  pub project_id : ℕ
  pub group_id : ℕ
  pub role : ProjectRole

pub record GroupMember : Type 0 where
  pub group_id : ℕ
  pub user_id : ℕ

pub record AccountDb : Type 0 where
  pub users : List User
  pub sessions : List AuthSession
  pub refresh_tokens : List RefreshToken
  pub password_tokens : List PasswordToken
  -- The ids of projects and of groups.
  pub projects : List ℕ
  pub groups : List ℕ
  pub group_members : List GroupMember
  pub user_access : List ProjectUserAccess
  pub group_access : List ProjectGroupAccess

-- The clock, and the id that gen_random_uuid gives next.
pub record AccountEnv : Type 0 where
  pub now : ℕ
  pub gen_random_uuid : ℕ

abbrev pub is_active : UserStatus → Bool
is_active UserStatus.active = true
is_active UserStatus.pending = false
is_active UserStatus.disabled = false

abbrev pub is_pending_user : UserStatus → Bool
is_pending_user UserStatus.pending = true
is_pending_user UserStatus.active = false
is_pending_user UserStatus.disabled = false

abbrev pub same_status : UserStatus → UserStatus → Bool
same_status UserStatus.active s = is_active s
same_status UserStatus.pending s = is_pending_user s
same_status UserStatus.disabled UserStatus.disabled = true
same_status UserStatus.disabled UserStatus.active = false
same_status UserStatus.disabled UserStatus.pending = false

abbrev pub is_deployment_admin : DeploymentRole → Bool
is_deployment_admin DeploymentRole.admin = true
is_deployment_admin DeploymentRole.member = false

abbrev pub same_purpose : TokenPurpose → TokenPurpose → Bool
same_purpose TokenPurpose.setup TokenPurpose.setup = true
same_purpose TokenPurpose.reset TokenPurpose.reset = true
same_purpose TokenPurpose.setup TokenPurpose.reset = false
same_purpose TokenPurpose.reset TokenPurpose.setup = false

abbrev pub is_project_admin : ProjectRole → Bool
is_project_admin ProjectRole.admin = true
is_project_admin ProjectRole.member = false
is_project_admin ProjectRole.viewer = false
is_project_admin ProjectRole.other_role = false

-- ValidProjectRole
abbrev pub valid_project_role : ProjectRole → Bool
valid_project_role ProjectRole.other_role = false
valid_project_role ProjectRole.viewer = true
valid_project_role ProjectRole.member = true
valid_project_role ProjectRole.admin = true

-- ProjectRoleRank
abbrev pub project_role_rank : ProjectRole → ℕ
project_role_rank ProjectRole.viewer = 1
project_role_rank ProjectRole.member = 2
project_role_rank ProjectRole.admin = 3
project_role_rank ProjectRole.other_role = 0
