-- ===== src/Auth.antt =====
-- Users, roles and refresh tokens (auth/, internal/infra/auth/jwt.go and middleware.go).
pub mod Tokens
pub mod Users
pub mod Roles
pub mod Jwt
pub mod Issued
pub mod Service
pub mod Sessions
pub mod Renewal
pub mod RoleRows
pub mod Promotion
pub mod Directory
pub mod Register
pub mod Handlers
