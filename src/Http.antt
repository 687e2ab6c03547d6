-- ===== src/Http.antt =====
-- internal/infra/http: the answers of the API, and what a handler is.
pub mod Errors
pub mod Handlers
pub mod Guards
pub mod RateLimit
pub mod Cors
