-- ===== src/Admin.antt =====
-- admin/: moderation of events and roles, with its log.
pub mod Logs
pub mod Service
pub mod Moderation
pub mod Visibility
pub mod Handlers
pub mod Access
