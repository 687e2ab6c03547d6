-- ===== src/Analytics.antt =====
-- analytics/: the numbers that an organizer's dashboard shows, behind a cache.
pub mod Stats
pub mod Timeline
pub mod Keys
pub mod Service
