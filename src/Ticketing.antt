-- ===== src/Ticketing.antt =====
-- ticketing/: the ticket repository and service.
pub mod Statements
pub mod Registration
pub mod Lifecycle
pub mod Effects
pub mod Passes
pub mod Queries
pub mod Wallet
pub mod Issue
pub mod Handlers
