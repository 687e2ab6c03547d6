-- ===== src/Notifications.antt =====
-- The queue of emails (notifications/).
pub mod Queue
pub mod Worker
pub mod Batch
pub mod Fate
pub mod Retries
pub mod Handlers
