-- ===== src/Accounts.antt =====
-- Users, their sessions and tokens, and who may do what in a project:
-- apps/server/internal/store/postgres (auth.go, auth_management.go, project_access.go, groups.go),
-- apps/server/internal/store (auth.go, project_access.go), apps/server/internal/app (auth.go).
pub mod Types
pub mod Users
pub mod Passwords
pub mod Sessions
pub mod Projects
pub mod Calls
pub mod Frame
pub mod Admins
pub mod Versions
pub mod Rotation
pub mod Roles
